-- ===== src/Server/Sessions.antt =====
-- The handlers of sessions in internal/server/server.go.
pub mod Keeping
use Prim.Native.String.{◌++◌}
use text.Mathlib.Text.{◌==◌}
use agentic_hive.Prelude.{Bool, true, false, String, List, Option, none, some, if◌then◌else◌}
use agentic_hive.Text.{Text}
use agentic_hive.Http.{Request, Response, failed, param}
use agentic_hive.Store.{Server, Store}
use agentic_hive.Pool.{Pool}
use agentic_hive.Session.Listing.{Session}
use agentic_hive.Session.Manager.{get_sessions, list_sessions, create_session, kill_session}
use agentic_hive.Auth.Tokens.{Claims}
use agentic_hive.Server.{
  World, ServerEnv, Reply, done, sessions, session_named, answer, pool_env, q, audit, on_server,
}

-- `createSessionRequest`
pub record CreateSessionRequest : Type 0 where
  pub label : String
  pub command : Text
  pub workdir : Text

abbrev session_user : Option Claims → String
session_user none = "user"
session_user (some c) = c.username

abbrev or_cached : Option (List Session) → List Session → List Session
or_cached none cached = cached
or_cached (some live) cached = live

module _ (env : ServerEnv) (r : Request) (user : Option Claims) where
  abbrev connected : World → Pool → Store → World
  connected w p s = record w { pool = p; store = s }

  list_live : String → Server → World → Response Reply × World
  list_live id srv w =
      let (live, p, s) = list_sessions (pool_env env w) (env.remotes id) srv w.pool w.store in
      (answer 200 (sessions (or_cached live (get_sessions id w.manager))), connected w p s)

  abbrev list_cached : String → Server → World → Response Reply × World
  list_cached id srv w = (answer 200 (sessions (get_sessions id w.manager)), w)

  unfoldable pub handle_list_sessions : String → World → Response Reply × World
  unfolding list_live
  handle_list_sessions id w =
      if param r "live" == "true"
      then on_server env user id (list_live id) w
      else on_server env user id (list_cached id) w

  abbrev session_details : (server_id name : String) → String
  session_details server_id name =
      "{\"server_id\":" ++ (q env server_id ++ (",\"session\":" ++ (q env name ++ "}")))

  session_created : String → Option String × Pool × Store → World → Response Reply × World
  session_created id (none, p, s) w = (failed 500 "session not created", connected w p s)
  session_created id (some name, p, s) w = (
    answer 201 (session_named name),
    connected w p (audit env r user "session.create" "session" name (session_details id name) s),
  )

  create_in : String → Option CreateSessionRequest → Server → World → Response Reply × World
  unfolding session_created
  create_in id none srv w = (failed 400 "invalid request", w)
  create_in id (some req) srv w =
      session_created id
        (create_session (pool_env env w) (env.remotes id) env.short_id (session_user user) req.label
          req.command req.workdir id w.pool w.store)
        w

  unfoldable pub handle_create_session :
      String → Option CreateSessionRequest → World → Response Reply × World
  unfolding create_in
  handle_create_session id body w = on_server env user id (create_in id body) w

  killed : (id name : String) → Bool × Pool × Store → World → Response Reply × World
  killed id name (false, p, s) w = (failed 500 "session not killed", connected w p s)
  killed id name (true, p, s) w = (
    answer 200 done,
    connected w p (audit env r user "session.kill" "session" name (session_details id name) s),
  )

  unfoldable pub handle_kill_session : (id name : String) → World → Response Reply × World
  unfolding killed
  handle_kill_session id name w =
      on_server env user id
        (λ srv v.
          killed id name (kill_session (pool_env env v) (env.remotes id) id name v.pool v.store) v)
        w
