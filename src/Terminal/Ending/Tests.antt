-- ===== src/Terminal/Ending/Tests.antt =====
-- A browser that leaves while its command runs on, and the whole way to the end.
use agentic_hive.Prelude.{true, false}
use agentic_hive.Terminal.Ending.{State, returned, begun}

abbrev quiet : State
quiet = record (begun true) {
  socket = false;
  session = false;
  output = false;
  input = false;
  waiter = false;
}

-- The entry could not be stored, and the watcher has not looked since.
abbrev over : State
over = record quiet { phase = returned; done_closed = true }
