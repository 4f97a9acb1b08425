-- ===== src/Server/Sessions/Keeping.antt =====
-- What the handlers of sessions leave to a server that the caller does not see.
use text.Mathlib.Text.{◌==◌}
use agentic_hive.Prelude.{
  ◌≢◌, inl, inr, Bool, true, false, String, Option, none, some, Bool-cases, sym, subst,
}
use agentic_hive.Http.{Request, param}
use agentic_hive.Store.{Server, Store}
use agentic_hive.Store.Keeping.{Keeps, keeps, Keeps-trans}
use agentic_hive.Pool.{Pool}
use agentic_hive.Session.Manager.{kill_session}
use agentic_hive.Session.Manager.Keeping.{
  list_sessions-Keeps, create_session-Keeps, kill_session-Keeps,
}
use agentic_hive.Auth.Tokens.{Claims}
use agentic_hive.Server.{World, ServerEnv, pool_env}
use agentic_hive.Server.Ownership.{Hidden, on_server-Keeps, audit-Keeps}
use agentic_hive.Server.Sessions.{
  CreateSessionRequest, list_live, list_cached, handle_list_sessions, session_created, create_in,
  handle_create_session, killed, handle_kill_session,
}

module _ (env : ServerEnv) (r : Request) (user : Option Claims) (j : String) where
  list_live-Keeps :
      (id : String) (srv : Server) (w : World)
      → srv.id ≢ j
      → Keeps j w.store (list_live env r user id srv w).1.store
  unfolding list_live
  list_live-Keeps id srv w h =
      list_sessions-Keeps (pool_env env w) (env.remotes id) j w.pool w.store srv h

  pub handle_list_sessions-Keeps :
      (id : String) (w : World)
      → Hidden env.auth.db j user w.store
      → Keeps j w.store (handle_list_sessions env r user id w).1.store
  unfolding handle_list_sessions
  handle_list_sessions-Keeps id w hidden = elim (Bool-cases (param r "live" == "true")) [
    | inl live ↦ rw live (
        on_server-Keeps env j user id (list_live env r user id) w hidden
          λ srv same h. list_live-Keeps id srv w (subst (λ i. i ≢ j) (sym same) h))
    | inr cached ↦ rw cached (
        on_server-Keeps env j user id (list_cached env r user id) w hidden
          λ srv same h. keeps j w.store)
  ]

  session_created-Keeps :
      (id : String) (result : Option String × Pool × Store) (w : World)
      → Keeps j w.store result.2
      → Keeps j w.store (session_created env r user id result w).1.store
  unfolding session_created
  session_created-Keeps id (none, p, s) w k = k
  session_created-Keeps id (some name, p, s) w k =
      Keeps-trans j w.store s _ k (audit-Keeps env r user _ _ _ _ j s)

  create_in-Keeps :
      (id : String) (body : Option CreateSessionRequest) (srv : Server) (w : World)
      → id ≢ j
      → Keeps j w.store (create_in env r user id body srv w).1.store
  unfolding create_in
  create_in-Keeps id none srv w h = keeps j w.store
  create_in-Keeps id (some req) srv w h =
      session_created-Keeps id _ w
        (create_session-Keeps (pool_env env w) (env.remotes id) j w.pool w.store _ _ _ _ _ id h)

  pub handle_create_session-Keeps :
      (id : String) (body : Option CreateSessionRequest) (w : World)
      → Hidden env.auth.db j user w.store
      → Keeps j w.store (handle_create_session env r user id body w).1.store
  unfolding handle_create_session
  handle_create_session-Keeps id body w hidden =
      on_server-Keeps env j user id (create_in env r user id body) w hidden
        λ srv same h. create_in-Keeps id body srv w h

  killed-Keeps :
      (id name : String) (result : Bool × Pool × Store) (w : World)
      → Keeps j w.store result.2
      → Keeps j w.store (killed env r user id name result w).1.store
  unfolding killed
  killed-Keeps id name (false, p, s) w k = k
  killed-Keeps id name (true, p, s) w k =
      Keeps-trans j w.store s _ k (audit-Keeps env r user _ _ _ _ j s)

  pub handle_kill_session-Keeps :
      (id name : String) (w : World)
      → Hidden env.auth.db j user w.store
      → Keeps j w.store (handle_kill_session env r user id name w).1.store
  unfolding handle_kill_session
  handle_kill_session-Keeps id name w hidden =
      on_server-Keeps env j user id
        (λ srv v.
          killed env r user id name
            (kill_session (pool_env env v) (env.remotes id) id name v.pool v.store) v)
        w hidden
        λ srv same h.
          killed-Keeps id name _ w
            (kill_session-Keeps (pool_env env w) (env.remotes id) j w.pool w.store id name h)
