-- ===== src/Terminal/Ending.antt =====
-- internal/terminal/bridge.go: how a running terminal ends. The handler, its two pumps, the watcher
-- and the goroutine that waits for the command run side by side; a state says which of them still
-- run, and a step is what one of them or the browser does next. The pumps' turns that move bytes
-- change nothing here. When a read or a write fails, and when `Wait` returns, is up to the network,
-- the host and the browser, so that it may come at any time, early, late or never.
pub mod Returning
mod Tests
use agentic_hive.Prelude.{ℕ, ◌+◌, ◌≡◌, Bool, true, false, if◌then◌else◌}

-- Where the handler is: in its `select`, in `wg.Wait()`, before each of its deferred calls (the SSH
-- session, the channel `done`, the audit log, the socket), or back from them.
pub data Phase : Type 0 where
  selecting waiting : Phase
  closing_session closing_done logging closing_socket : Phase
  returned : Phase

pub record State : Type 0 where
  -- the socket of the browser, which nobody has closed
  pub socket : Bool
  -- the SSH session, for which the program has not called `Close`
  pub session : Bool
  -- the goroutines: output to the browser, input to the shell, `Wait`, the idle watcher
  pub output : Bool
  pub input : Bool
  pub waiter : Bool
  pub watcher : Bool
  pub phase : Phase
  -- the channel `done`
  pub done_closed : Bool
  -- entries of the action `terminal.disconnect` in the audit log
  pub disconnects : ℕ

-- The state in which the handler comes to its `select`.
abbrev pub begun : (watching : Bool) → State
begun watching = record {
  socket = true;
  session = true;
  output = true;
  input = true;
  waiter = true;
  watcher = watching;
  phase = selecting;
  done_closed = false;
  disconnects = 0;
}

pub data Step (s : State) : State → Type 0 where
  browser_leaves : s.socket ≡ true → Step s (record s { socket = false })
  -- `ws.ReadMessage` fails: the session is closed.
  hang_up : s.input ≡ true → Step s (record s { input = false; session = false })
  -- `stdin.Write` fails.
  write_fails : s.input ≡ true → Step s (record s { input = false })
  -- `stdout.Read` or `ws.WriteMessage` fails.
  output_ends : s.output ≡ true → Step s (record s { output = false })
  wait_returns : s.waiter ≡ true → Step s (record s { waiter = false })
  -- The watcher closes the socket. Where a tick and the closing of `done` are both there, the `select`
  -- may take either.
  time_out : s.watcher ≡ true → Step s (record s { watcher = false; socket = false })
  stop_watching : s.watcher ≡ true → s.done_closed ≡ true → Step s (record s { watcher = false })
  -- The two cases of the `select`, each with the closing of the socket behind it.
  ssh_done :
      s.phase ≡ selecting → s.waiter ≡ false → Step s (record s { phase = waiting; socket = false })
  is_done :
      s.phase ≡ selecting
      → s.done_closed ≡ true
      → Step s (record s { phase = waiting; session = false; socket = false })
  -- `wg.Wait` returns.
  joined :
      s.phase ≡ waiting
      → s.output ≡ false
      → s.input ≡ false
      → Step s (record s { phase = closing_session })
  -- The deferred calls, from the last to the first.
  close_session :
      s.phase ≡ closing_session → Step s (record s { phase = closing_done; session = false })
  close_done : s.phase ≡ closing_done → Step s (record s { phase = logging; done_closed = true })
  -- An entry that cannot be stored is only reported to the log of the process.
  log_end :
      (stored : Bool)
      → s.phase ≡ logging
      → Step s (record s {
        phase = closing_socket;
        disconnects = if stored then s.disconnects + 1 else s.disconnects;
      })
  close_socket : s.phase ≡ closing_socket → Step s (record s { phase = returned; socket = false })

pub data Reach (s : State) : State → Type 0 where
  at_start : Reach s s
  later : {t u : State} → Reach s t → Step t u → Reach s u
