-- ===== src/Terminal/Ending/Returning.antt =====
-- What holds while a terminal ends, and that its handler returns.
use agentic_hive.Prelude.{ℕ, ◌+◌, ◌≤◌, ◌≡◌, Bool, true, false, ap, ap}
use agentic_hive.Terminal.Ending.{
  Phase, selecting, waiting, closing_session, closing_done, logging, closing_socket, returned,
  State, Step, ssh_done, is_done, joined, close_session, close_done, log_end, close_socket,
}

-- How many steps the handler still takes.
abbrev pub steps_left : Phase → ℕ
steps_left selecting = 6
steps_left waiting = 5
steps_left closing_session = 4
steps_left closing_done = 3
steps_left logging = 2
steps_left closing_socket = 1
steps_left returned = 0

-- What each place of the handler has behind it, by the number of its steps that are left.
pub record IsSound (s : State) : Type 0 where
  pub waited : steps_left s.phase ≤ 5 → s.waiter ≡ false
  pub joined_pumps : steps_left s.phase ≤ 4 → (s.output ≡ false) × (s.input ≡ false)
  pub session_closed : steps_left s.phase ≤ 3 → s.session ≡ false
  pub done_in_time :
      (steps_left s.phase ≤ 2 → s.done_closed ≡ true)
      × (3 ≤ steps_left s.phase → s.done_closed ≡ false)
  pub entries : (s.disconnects ≤ 1) × (2 ≤ steps_left s.phase → s.disconnects ≡ 0)
  pub socket_closed : steps_left s.phase ≤ 5 → s.socket ≡ false

-- Whether a step is the handler's.
by_handler : {s t : State} → Step s t → Bool
by_handler (ssh_done a b) = true
by_handler (is_done a b) = true
by_handler (joined a b c) = true
by_handler (close_session a) = true
by_handler (close_done a) = true
by_handler (log_end stored a) = true
by_handler (close_socket a) = true
by_handler other = false

-- A step that the handler can take.
pub Own : State → State → Type 0
Own s t = (step : Step s t) × (by_handler step ≡ true)

abbrev count : Bool → ℕ
count true = 1
count false = 0

-- How much can still end.
measure : State → ℕ
measure s =
    count s.socket
    + count s.output
    + count s.input
    + count s.waiter
    + count s.watcher
    + steps_left s.phase

-- Both pumps have ended, and `Wait` has returned.
pub record IsEnded (s : State) : Type 0 where
  pub no_output : s.output ≡ false
  pub no_input : s.input ≡ false
  pub no_waiter : s.waiter ≡ false

-- The handler has returned and has left nothing open behind it.
pub record IsClosed (s : State) : Type 0 where
  pub back : s.phase ≡ returned
  pub no_socket : s.socket ≡ false
  pub no_session : s.session ≡ false
  pub signalled : s.done_closed ≡ true
  pub one_entry : s.disconnects ≤ 1
