-- ===== src/Server/Routes.antt =====
-- `routes` and `Handler` of internal/server/server.go: which handler runs for which request, and
-- behind which middleware. The pattern that `http.ServeMux` finds for a request is an argument, with
-- its path values and with what the body of the request decodes to.
pub mod Ownership
use agentic_hive.Prelude.{
  ℕ, Bool, true, false, String, List, [], Option, none, some, if◌then◌else◌, ◌==◌, Result, ok, err,
}
use agentic_hive.Http.{Request, Response, failed}
use agentic_hive.Store.{Store}
use agentic_hive.RateLimit.{Verdict, allowed, limited, panics, hangs, RateLimiter, check, settle}
use agentic_hive.Auth.Csrf
use agentic_hive.Auth.Csrf.{csrf_protect, server_exemptions}
use agentic_hive.Auth.Tokens.{Claims}
use agentic_hive.Auth.Guards.{Access, denied, granted, require_auth, require_admin}
use agentic_hive.Auth.Local.{Credentials, LoggedIn, handle_login, handle_setup, logout}
use agentic_hive.Auth.Oidc.{dispatch_login, dispatch_callback}
use agentic_hive.Server.{World, ServerEnv, Reply, done, logged_in, location, with_store}
use agentic_hive.Server.Servers.{
  CreateServerRequest, handle_list_servers, handle_create_server, handle_delete_server,
  handle_upload_key, handle_accept_key,
}
use agentic_hive.Server.Sessions.{
  CreateSessionRequest, handle_list_sessions, handle_create_session, handle_kill_session,
}
use agentic_hive.Server.Admin.{
  handle_me, handle_healthz, handle_readyz, handle_setup_status, handle_list_templates,
  handle_list_users, handle_delete_user, handle_get_config,
}
use agentic_hive.Server.Settings.{
  handle_get_settings, handle_update_settings, handle_test_oidc, handle_test_vault,
}
use agentic_hive.Server.AuditLog.{handle_list_audit_log}

-- The patterns behind `RequireAuth`.
pub data UserRoute : Type 0 where
  get_me get_templates list_all post_logout : UserRoute
  create_one : Option CreateServerRequest → UserRoute
  delete_one : (id : String) → UserRoute
  put_key_of : (id : String) → Option (List ℕ) → UserRoute
  accept_key_of : (id : String) → UserRoute
  sessions_of : (id : String) → UserRoute
  create_session_on : (id : String) → Option CreateSessionRequest → UserRoute
  kill_session_on : (id name : String) → UserRoute

-- The patterns behind `RequireAdmin`.
pub data AdminRoute : Type 0 where
  get_audit get_users get_config get_settings : AdminRoute
  delete_user_of : (id : String) → AdminRoute
  put_settings : Option (List (String × String)) → AdminRoute
  post_test_oidc : (issuer_url : String) → AdminRoute
  post_test_vault : (address token : String) → AdminRoute

pub data Route : Type 0 where
  get_healthz get_readyz get_setup_status oidc_login oidc_callback : Route
  post_login post_setup : Option Credentials → Route
  as_user : UserRoute → Route
  as_admin : AdminRoute → Route

-- What the client gets; `none` is no answer, since the handler panics or waits for ever.
abbrev pub Answer : Type 0
Answer = Option (Response Reply)

abbrev body_map {ℓ κ} : {A : Type ℓ} → {B : Type κ} → (A → B) → Result String A → Result String B
body_map f (err message) = err message
body_map f (ok a) = ok (f a)

abbrev reply_map {ℓ} : {A : Type ℓ} → (A → Reply) → Response A → Response Reply
reply_map f a = record { status = a.status; cookies = a.cookies; body = body_map f a.body }

module _ (env : ServerEnv) (r : Request) where
  -- The handlers of internal/auth change the store only.
  abbrev on_store {ℓ} :
      {A : Type ℓ} → (A → Reply) → Response A × Store → World → Response Reply × World
  on_store f (a, s) w = (reply_map f a, with_store env w s)

  unfoldable pub run_user : UserRoute → Option Claims → World → Response Reply × World
  run_user get_me user = handle_me env r user
  run_user get_templates user = handle_list_templates env r user
  run_user list_all user = handle_list_servers env r user
  run_user post_logout user = λ w. on_store (λ u. done) (logout env.auth r user w.store) w
  run_user (create_one body) user = handle_create_server env r user body
  run_user (delete_one id) user = handle_delete_server env r user id
  run_user (put_key_of id body) user = handle_upload_key env r user id body
  run_user (accept_key_of id) user = handle_accept_key env r user id
  run_user (sessions_of id) user = handle_list_sessions env r user id
  run_user (create_session_on id body) user = handle_create_session env r user id body
  run_user (kill_session_on id name) user = handle_kill_session env r user id name

  unfoldable pub run_admin : AdminRoute → Option Claims → World → Response Reply × World
  run_admin get_audit user = handle_list_audit_log env r
  run_admin get_users user = handle_list_users env r user
  run_admin get_config user = handle_get_config env r user
  run_admin get_settings user = handle_get_settings env r user
  run_admin (delete_user_of id) user = handle_delete_user env r user id
  run_admin (put_settings updates) user = handle_update_settings env r user updates
  run_admin (post_test_oidc issuer) user = handle_test_oidc env r user issuer
  run_admin (post_test_vault address token) user = handle_test_vault env r user address token

  answered : Response Reply × World → Answer × World
  answered (a, w) = (some a, w)

  abbrev pub refusal : ℕ → Response Reply
  refusal code = failed code (if code == 403 then "forbidden" else "unauthorized")

  -- What a middleware of internal/auth makes of a handler.
  behind : Access → (Option Claims → World → Response Reply × World) → World → Answer × World
  unfolding answered
  behind (denied code label) run w = (some (refusal code), w)
  behind (granted c) run w = answered (run (some c) w)

  settled : Response LoggedIn × Store → World → Answer × World
  settled (a, s) w = (
    some (reply_map logged_in a),
    record w { store = s; limiter = settle w.limiter env.peer a.status env.finished },
  )

  -- `RateLimiter.Middleware` around a handler of internal/auth.
  limit : Verdict × RateLimiter → (Store → Response LoggedIn × Store) → World → Answer × World
  unfolding settled
  limit (allowed, rl) run w = settled (run w.store) (record w { limiter = rl })
  limit (limited seconds, rl) run w =
      (some (failed 429 "too many requests"), record w { limiter = rl })
  limit (panics, rl) run w = (none, record w { limiter = rl })
  limit (hangs, rl) run w = (none, record w { limiter = rl })

  abbrev limiter_check : World → Verdict × RateLimiter
  limiter_check w = check w.limiter env.peer env.arrived env.measured

  unfoldable pub dispatch : Route → World → Answer × World
  unfolding behind answered limit
  dispatch get_healthz w = answered (handle_healthz env r none w)
  dispatch get_readyz w = answered (handle_readyz env r none w)
  dispatch get_setup_status w = answered (handle_setup_status env r none w)
  dispatch oidc_login w = (some (reply_map location (dispatch_login w.oidc env.state)), w)
  dispatch oidc_callback w =
      answered (on_store location (dispatch_callback env.auth r w.oidc w.store) w)
  dispatch (post_login body) w = limit (limiter_check w) (handle_login env.auth r body) w
  dispatch (post_setup body) w = limit (limiter_check w) (handle_setup env.auth r body) w
  dispatch (as_user route) w =
      behind (require_auth env.auth.jwt env.auth.secret env.auth.now r) (run_user route) w
  dispatch (as_admin route) w =
      behind (require_admin env.auth.jwt env.auth.secret env.auth.now r) (run_admin route) w

  abbrev pub csrf_refusal : Response Reply
  csrf_refusal = failed 403 "csrf token mismatch"

  abbrev pub past_csrf : Csrf.Verdict → (World → Answer × World) → World → Answer × World
  past_csrf Csrf.Verdict.forbidden run w = (some csrf_refusal, w)
  past_csrf Csrf.Verdict.next run w = run w

  -- The CSRF check is outside of the mux.
  unfoldable pub serve_request : Route → World → Answer × World
  serve_request route w = past_csrf (csrf_protect server_exemptions r) (dispatch route) w
