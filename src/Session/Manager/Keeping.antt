-- ===== src/Session/Manager/Keeping.antt =====
-- What the operations on the sessions of one server leave to the others.
use agentic_hive.Prelude.{◌≢◌, String, Option, none, some, Result, ok, err}
use agentic_hive.Text.{Text, codes}
use agentic_hive.Store.{Server, Store, StoreError}
use agentic_hive.Store.Servers.{get_server}
use agentic_hive.Store.Keeping.{Keeps, keeps}
use agentic_hive.Pool.{Pool, PoolEnv}
use agentic_hive.Pool.Keeping.{exec-Keeps}
use agentic_hive.Session.{kill_command}
use agentic_hive.Session.Manager.{
  Remote, list_sessions, create_session, with_server, kill_session, kill_with,
}

module _ (env : PoolEnv) (remote : Remote) (j : String) (p : Pool) (s : Store) where
  pub list_sessions-Keeps :
      (srv : Server) → srv.id ≢ j → Keeps j s (list_sessions env remote srv p s).2
  unfolding list_sessions
  list_sessions-Keeps srv h = exec-Keeps env srv.id j h _ _ _ _ p s

  with_server-Keeps :
      (name : String) (command workdir : Text) (id : String) (found : Result StoreError Server)
      → id ≢ j
      → Keeps j s (with_server env remote name command workdir id found p s).2
  unfolding with_server
  with_server-Keeps name command workdir id (err e) h = keeps j s
  with_server-Keeps name command workdir id (ok srv) h = exec-Keeps env id j h _ _ _ _ p s

  pub create_session-Keeps :
      (short_id user label : String) (command workdir : Text) (id : String)
      → id ≢ j
      → Keeps j s (create_session env remote short_id user label command workdir id p s).2
  unfolding create_session
  create_session-Keeps short_id user label command workdir id h =
      with_server-Keeps _ command workdir id (get_server env.db id "" s) h

  kill_with-Keeps :
      (id : String) (line : Option Text) → id ≢ j → Keeps j s (kill_with env remote id line p s).2
  unfolding kill_with
  kill_with-Keeps id none h = keeps j s
  kill_with-Keeps id (some line) h = exec-Keeps env id j h _ _ _ _ p s

  pub kill_session-Keeps :
      (id name : String) → id ≢ j → Keeps j s (kill_session env remote id name p s).2
  unfolding kill_session
  kill_session-Keeps id name h = kill_with-Keeps id (kill_command (codes name)) h
