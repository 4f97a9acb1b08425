-- ===== src/Session/Manager.antt =====
-- The manager of internal/session/manager.go: its cache of sessions, the operations on the remote
-- hosts, and one round of polling. What a host does in one call is an argument, `Remote`.
pub mod Keeping
pub mod Polling
pub mod Interval
mod Tests
use text.Mathlib.Text.{◌==◌}
use agentic_hive.Prelude.{
  ℕ, Bool, true, false, not, String, List, [], ◌∷◌, ◌++◌, Option, none, some, if◌then◌else◌, lookup,
  insert, length, Result, ok, err,
}
use agentic_hive.Text.{Text, codes}
use agentic_hive.Store.{Server, Store, StoreError, status_reachable, status_unreachable}
use agentic_hive.Store.Servers.{get_server, list_servers, update_status}
use agentic_hive.Pool.{Pool, PoolEnv, Attempt, exec}
use agentic_hive.Session.{session_name, create_command, kill_command}
use agentic_hive.Session.Listing.{Session, parse_sessions}

-- `interval` is the buffered channel of one place, `active` the metric of sessions.
pub record Manager : Type 0 where
  pub sessions : List (String × List Session)
  pub interval : Option ℕ
  pub active : List (String × ℕ)

-- The two connections that `Exec` may make, which clients then give a session, and what a command
-- does there: whether it succeeds on a client, and what it prints.
pub record Remote : Type 0 where
  pub first : Attempt
  pub again : Attempt
  pub gives_session : ℕ → Bool
  pub runs : ℕ → Text → Bool
  pub stdout : Text → Text

abbrev pub list_command : Text
list_command =
    codes
      "tmux list-sessions -F '#{session_name}:#{session_created}:#{session_windows}:#{session_attached}:#{session_activity}' 2>/dev/null || true"

abbrev pub or_no_sessions : Option (List Session) → List Session
or_no_sessions none = []
or_no_sessions (some sessions) = sessions

unfoldable pub get_sessions : String → Manager → List Session
get_sessions server_id m = or_no_sessions (lookup server_id m.sessions)

-- A pending interval is taken out of the channel before the new one goes in.
unfoldable pub update_interval : ℕ → Manager → Manager
update_interval d m = record m { interval = some d }

module _ (env : PoolEnv) where
  -- `Exec` of a command line.
  abbrev pub exec_on : Remote → (line : Text) → String → Pool → Store → Bool × Pool × Store
  exec_on remote line id p s =
      exec env remote.gives_session (λ c. remote.runs c line) id remote.first remote.again p s

  abbrev listed : Remote → Server → Bool × Pool × Store → Option (List Session) × Pool × Store
  listed remote srv (done, p, s) =
      (if done then some (parse_sessions env.now srv (remote.stdout list_command)) else none, p, s)

  -- `none` is an error.
  unfoldable pub list_sessions :
      Remote → Server → Pool → Store → Option (List Session) × Pool × Store
  list_sessions remote srv p s = listed remote srv (exec_on remote list_command srv.id p s)

  abbrev created : String → Bool × Pool × Store → Option String × Pool × Store
  created name (done, p, s) = (if done then some name else none, p, s)

  with_server :
      Remote
      → (name : String) → (command workdir : Text) → String
      → Result StoreError Server
      → Pool
      → Store
      → Option String × Pool × Store
  with_server remote name command workdir id (err e) p s = (none, p, s)
  with_server remote name command workdir id (ok srv) p s =
      created name (exec_on remote (create_command (codes name) command workdir) id p s)

  -- The name of the session, or `none` for an error.
  unfoldable pub create_session :
      Remote
      → (short_id user label : String) → (command workdir : Text) → String
      → Pool
      → Store
      → Option String × Pool × Store
  unfolding with_server
  create_session remote short_id user label command workdir id p s =
      with_server remote (session_name user label short_id) command workdir id
        (get_server env.db id "" s) p s

  kill_with : Remote → String → Option Text → Pool → Store → Bool × Pool × Store
  kill_with remote id none p s = (false, p, s)
  kill_with remote id (some line) p s = exec_on remote line id p s

  unfoldable pub kill_session :
      Remote → String → (name : String) → Pool → Store → Bool × Pool × Store
  unfolding kill_with
  kill_session remote id name p s = kill_with remote id (kill_command (codes name)) p s

  -- One server of the loop of `pollAll`; `srv` is the row as it was listed before the loop.
  poll_result : Server → Option (List Session) × Pool × Store → Manager → Manager × Pool × Store
  poll_result srv (none, p, s) m = (
    record m { active = insert srv.id 0 m.active },
    p,
    if not (srv.status == status_unreachable)
        then (update_status env.db srv.id status_unreachable env.now s).1
        else s,
  )
  poll_result srv (some sessions, p, s) m = (
    record m {
      sessions = insert srv.id sessions m.sessions;
      active = insert srv.id (length sessions) m.active;
    },
    p,
    if not (srv.status == status_reachable)
        then (update_status env.db srv.id status_reachable env.now s).1
        else s,
  )

  unfoldable pub poll_server : Remote → Server → Manager → Pool → Store → Manager × Pool × Store
  unfolding poll_result
  poll_server remote srv m p s = poll_result srv (list_sessions remote srv p s) m

  unfoldable pub poll_each :
      (String → Remote) → List Server → Manager → Pool → Store → Manager × Pool × Store
  poll_each remotes [] m p s = (m, p, s)
  poll_each remotes (srv ∷ rest) m p s =
      let (m', p', s') = poll_server (remotes srv.id) srv m p s in poll_each remotes rest m' p' s'

  poll_listed :
      (String → Remote)
      → Result StoreError (List Server)
      → Manager
      → Pool
      → Store
      → Manager × Pool × Store
  unfolding poll_each
  poll_listed remotes (err e) m p s = (m, p, s)
  poll_listed remotes (ok rows) m p s = poll_each remotes rows m p s

  unfoldable pub poll_all : (String → Remote) → Manager → Pool → Store → Manager × Pool × Store
  unfolding poll_listed
  poll_all remotes m p s = poll_listed remotes (list_servers env.db "" s) m p s
