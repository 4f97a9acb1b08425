-- ===== src/Auth/Local.antt =====
-- internal/auth/local.go, with `Logout` of internal/auth/auth.go.
pub mod Login
pub mod Setup
use agentic_hive.Prelude.{
  ℕ, String, Bool, true, false, not, ◌||◌, Option, none, some, List, [], ◌∷◌, if◌then◌else◌, ◌==◌,
  Result, ok, err,
}
use agentic_hive.Http.{Request, is_empty, SetCookie, SameSite, Response, failed}
use agentic_hive.Store.{User, Store, Engine, StoreError, role_admin}
use agentic_hive.Store.Users.{get_user_by_username, user_count, create_user}
use agentic_hive.Auth.Cookies.{session_cookie, csrf_cookie, cleared_session_cookie, session_ttl}
use agentic_hive.Auth.Tokens.{Claims, JwtLibrary, sign_jwt}
use agentic_hive.Auth.Auditing.{
  log_auth_audit, audit_auth_login, audit_auth_login_failed, audit_auth_logout,
}

-- What a handler takes from outside: the engine, the JWT and bcrypt libraries, the secret, the
-- clock, and the random bytes that it would read (`none` where reading them fails).
pub record AuthEnv : Type 0 where
  pub db : Engine
  pub jwt : JwtLibrary
  pub secret : String
  pub compare_password : (hash password : String) → Bool
  pub hash_password : String → Option String
  pub now : ℕ
  pub audit_id : String
  pub new_id : String
  pub csrf_token : Option String

pub record Credentials : Type 0 where
  pub username : String
  pub password : String

pub record LoggedIn : Type 0 where
  pub username : String
  pub role : String

abbrev pub claims_of : User → Claims
claims_of u = record { user_id = u.id; username = u.username; role = u.role }

module _ (env : AuthEnv) (r : Request) where
  abbrev audit : (action user_id username : String) → Store → Store
  audit = log_auth_audit env.db env.audit_id env.now r

  -- The end of a successful login or setup: the token, the two cookies, then `finish`. The session
  -- cookie is set before the CSRF token is drawn, and stays set if that fails.
  with_csrf :
      User
      → SetCookie
      → (finish : Store → Store) → Option String
      → Store
      → Response LoggedIn × Store
  with_csrf u session finish none s =
      (record { status = 500; cookies = session ∷ []; body = err "internal error" }, s)
  with_csrf u session finish (some token) s = (
    record {
      status = 200;
      cookies = session ∷ csrf_cookie token ∷ [];
      body = ok (record { username = u.username; role = u.role });
    },
    finish s,
  )

  with_token : User → (finish : Store → Store) → Option String → Store → Response LoggedIn × Store
  with_token u finish none s = (failed 500 "internal error", s)
  with_token u finish (some token) s =
      with_csrf u (session_cookie token SameSite.strict) finish env.csrf_token s

  unfoldable pub start_session : User → (finish : Store → Store) → Store → Response LoggedIn × Store
  unfolding with_csrf with_token
  start_session u finish s =
      with_token u finish (sign_jwt env.jwt (claims_of u) env.secret session_ttl env.now) s

  check_user : Credentials → Result StoreError User → Store → Response LoggedIn × Store
  check_user req (err e) s =
      (failed 401 "invalid credentials", audit audit_auth_login_failed "" req.username s)
  check_user req (ok u) s =
      if not (env.compare_password u.password_hash req.password)
      then (failed 401 "invalid credentials", audit audit_auth_login_failed u.id u.username s)
      else start_session u (audit audit_auth_login u.id u.username) s

  -- A body that is no JSON is `none`.
  unfoldable pub handle_login : Option Credentials → Store → Response LoggedIn × Store
  unfolding check_user
  handle_login none s = (failed 400 "invalid request", s)
  handle_login (some req) s = check_user req (get_user_by_username env.db req.username s) s

  unfoldable pub setup_needed : Store → Bool
  setup_needed s = elim (user_count env.db s) [ ok n ↦ n == 0 | err e ↦ false ]

  created : Result StoreError User × Store → Response LoggedIn × Store
  created (err e, s) = (failed 500 "failed to create user", s)
  created (ok u, s) = start_session u (λ t. t) s

  with_hash : Credentials → Option String → Store → Response LoggedIn × Store
  unfolding created
  with_hash req none s = (failed 500 "internal error", s)
  with_hash req (some hash) s =
      created (create_user env.db env.new_id req.username hash role_admin env.now s)

  set_up : Option Credentials → Store → Response LoggedIn × Store
  unfolding with_hash
  set_up none s = (failed 400 "invalid request", s)
  set_up (some req) s =
      if is_empty req.username || is_empty req.password
      then (failed 400 "username and password required", s)
      else with_hash req (env.hash_password req.password) s

  unfoldable pub handle_setup : Option Credentials → Store → Response LoggedIn × Store
  unfolding set_up
  handle_setup body s =
      if not (setup_needed s) then (failed 403 "setup already completed", s) else set_up body s

  -- `Logout`, with the user that `RequireAuth` has put on the request.
  unfoldable pub logout : Option Claims → Store → Response (Unit {0}) × Store
  logout user s = (
    record { status = 200; cookies = cleared_session_cookie ∷ []; body = ok tt },
    elim user [
      | none ↦ audit audit_auth_logout "" "" s
      | some c ↦ audit audit_auth_logout c.user_id c.username s
    ],
  )
