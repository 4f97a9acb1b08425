-- ===== src/Server/Admin.antt =====
-- The handlers of internal/server/server.go that read the state of the process, and those of users.
use text.Mathlib.Text.{◌==◌}
use agentic_hive.Prelude.{
  Bool, true, false, ◌&&◌, String, List, [], ◌∷◌, map, any, Option, none, some, if◌then◌else◌,
  Result, ok, err,
}
use agentic_hive.Http.{Request, Response, failed, param}
use agentic_hive.Store.{User, Server, SessionTemplate, Store, StoreError, ping, status_reachable}
use agentic_hive.Store.Servers.{list_servers}
use agentic_hive.Store.Users.{list_users, delete_user_by_id}
use agentic_hive.Store.Templates.{list_templates}
use agentic_hive.Keystore.{backend}
use agentic_hive.Auth.Tokens.{Claims}
use agentic_hive.Auth.Local.{setup_needed}
use agentic_hive.Server.{
  World, ServerEnv, Reply, done, me, setup_status, readiness, templates, users, overview, SafeUser,
  Check, check_ok, check_error, check_disabled, none_reachable, answer, with_store,
}

abbrev configured {ℓ} : {A : Type ℓ} → Option A → Bool
configured none = false
configured (some a) = true

abbrev pub safe_user : User → SafeUser
safe_user u = record { id = u.id; username = u.username; role = u.role; created_at = u.created_at }

-- The counting loop of `handleReadyz`, with its test: some server is reachable.
abbrev pub servers_check : Result StoreError (List Server) → Check
servers_check (err e) = check_error
servers_check (ok []) = check_ok
servers_check (ok (srv ∷ rows)) =
    if any (λ x. x.status == status_reachable) (srv ∷ rows) then check_ok else none_reachable

abbrev pub passes : Check → Bool
passes check_ok = true
passes check_disabled = true
passes check_error = false
passes none_reachable = false

module _ (env : ServerEnv) (r : Request) (user : Option Claims) where
  unfoldable pub handle_me : World → Response Reply × World
  handle_me w = elim user [
    | none ↦ (failed 401 "unauthorized", w)
    | some c ↦ (answer 200 (me c.username c.role (backend w.keystore == "vault")), w)
  ]

  unfoldable pub handle_healthz : World → Response Reply × World
  handle_healthz w = (answer 200 done, w)

  -- `Ping` fails where its statement does.
  unfoldable pub handle_readyz : World → Response Reply × World
  handle_readyz w =
      let database = if env.auth.db ping then check_error else check_ok in
      let found =
        if w.config.readyz_require_server
        then servers_check (list_servers env.auth.db "" w.store)
        else check_disabled in
      (answer (if passes database && passes found then 200 else 503) (readiness database found), w)

  unfoldable pub handle_setup_status : World → Response Reply × World
  handle_setup_status w =
      (answer 200 (setup_status (setup_needed env.auth r w.store) (configured w.oidc)), w)

  templates_listed : Result StoreError (List SessionTemplate) → World → Response Reply × World
  templates_listed (err e) w = (failed 500 "failed to list templates", w)
  templates_listed (ok rows) w = (answer 200 (templates rows), w)

  unfoldable pub handle_list_templates : World → Response Reply × World
  unfolding templates_listed
  handle_list_templates w =
      templates_listed (list_templates env.auth.db (param r "server_id") w.store) w

  users_listed : Result StoreError (List User) → World → Response Reply × World
  users_listed (err e) w = (failed 500 "failed to list users", w)
  users_listed (ok rows) w = (answer 200 (users (map safe_user rows)), w)

  unfoldable pub handle_list_users : World → Response Reply × World
  unfolding users_listed
  handle_list_users w = users_listed (list_users env.auth.db w.store) w

  user_deleted : Result StoreError (Unit {0}) × Store → World → Response Reply × World
  user_deleted (err e, s) w = (failed 500 "failed to delete user", with_store env w s)
  user_deleted (ok u, s) w = (answer 200 done, with_store env w s)

  abbrev is_caller : Option Claims → String → Bool
  is_caller none id = false
  is_caller (some c) id = c.user_id == id

  unfoldable pub handle_delete_user : String → World → Response Reply × World
  unfolding user_deleted
  handle_delete_user id w =
      if is_caller user id
      then (failed 400 "cannot delete yourself", w)
      else user_deleted (delete_user_by_id env.auth.db id w.store) w

  unfoldable pub handle_get_config : World → Response Reply × World
  handle_get_config w = (
    answer 200 (
        overview (if configured w.oidc then "oidc + local fallback" else "local")
          (backend w.keystore) w.config.poll_interval),
    w,
  )
