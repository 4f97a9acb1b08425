-- ===== src/Auth/Local/Login.antt =====
-- Who is logged in, with which token, and what a login changes.
use agentic_hive.Prelude.{
  ℕ, String, ◌+◌, ◌<◌, ◌≡◌, refl, inl, inr, true, false, Option, none, some, [], ◌∷◌, arith, Result,
  ok, err, Bool-cases,
}
use agentic_hive.Http.{Request, cookie, SameSite, Response, failed}
use agentic_hive.Store.{User, Store, StoreError}
use agentic_hive.Store.Users.{get_user_by_username}
use agentic_hive.Store.Audit.Framing.{OnlyAudits, unchanged, log_audit-OnlyAudits}
use agentic_hive.Auth.Cookies.{session_cookie, csrf_cookie, session_ttl}
use agentic_hive.Auth.Tokens.{IsFaithful, sign_jwt}
use agentic_hive.Auth.Tokens.Lifetime.{verify_jwt-sign_jwt}
use agentic_hive.Auth.Guards.{granted, require_auth}
use agentic_hive.Auth.Guards.Granting.{require_auth-granted_iff}
use agentic_hive.Auth.Auditing.{log_auth_audit, audit_auth_login, audit_auth_login_failed}
use agentic_hive.Auth.Local.{
  AuthEnv, Credentials, LoggedIn, claims_of, start_session, handle_login, check_user, with_token,
  with_csrf, audit,
}

module _ (env : AuthEnv) (r : Request) where
  -- A session that was started: the token is signed for the user, and both cookies are set.
  abbrev pub Started : User → Response LoggedIn → Type 0
  Started u resp =
      (token : String) × (csrf : String) × (sign_jwt env.jwt (claims_of u) env.secret session_ttl
          env.now
        ≡ some token)
      × (resp.cookies ≡ session_cookie token SameSite.strict ∷ csrf_cookie csrf ∷ [])
      × (resp.body ≡ ok (record { username = u.username; role = u.role }))

  with_csrf-Started :
      (u : User) (token : String) (finish : Store → Store) (csrf : Option String) (s : Store)
      → sign_jwt env.jwt (claims_of u) env.secret session_ttl env.now ≡ some token
      → (with_csrf env r u (session_cookie token SameSite.strict) finish csrf s).0.status ≡ 200
      → Started u (with_csrf env r u (session_cookie token SameSite.strict) finish csrf s).0
  unfolding with_csrf
  with_csrf-Started u token finish none s e h = absurd (omega arith)
  with_csrf-Started u token finish (some csrf) s e h = (token, csrf, e, refl, refl)

  with_token-Started :
      (u : User) (finish : Store → Store) (token : Option String) (s : Store)
      → sign_jwt env.jwt (claims_of u) env.secret session_ttl env.now ≡ token
      → (with_token env r u finish token s).0.status ≡ 200
      → Started u (with_token env r u finish token s).0
  unfolding with_token
  with_token-Started u finish none s e h = absurd (omega arith)
  with_token-Started u finish (some token) s e h =
      with_csrf-Started u token finish env.csrf_token s e h

  pub start_session-Started :
      (u : User) (finish : Store → Store) (s : Store)
      → (start_session env r u finish s).0.status ≡ 200
      → Started u (start_session env r u finish s).0
  unfolding start_session
  start_session-Started u finish s h = with_token-Started u finish _ s refl h

  check_user-Started :
      (req : Credentials) (found : Result StoreError User) (s : Store)
      → (check_user env r req found s).0.status ≡ 200
      → (u : User) × (found ≡ ok u)
        × (env.compare_password u.password_hash req.password ≡ true)
        × Started u (check_user env r req found s).0
  unfolding check_user
  check_user-Started req (err e) s h = absurd (omega arith)
  check_user-Started req (ok u) s h =
      elim (Bool-cases (env.compare_password u.password_hash req.password)) [
        | inl right ↦ (
          u,
          refl,
          right,
          rw (right, check_user) (start_session-Started u _ s (rw (right, check_user) at h)),
        )
        | inr wrong ↦ let bad = rw (wrong, check_user) at h in absurd (omega (arith, bad))
      ]

  -- A login that is answered by 200 names a user of the table whose password hash fits, and starts a
  -- session of that user: the session cookie holds a token signed for the user's identifier, name
  -- and role, and the CSRF cookie is set.
  pub handle_login_sound :
      (req : Credentials) (s : Store)
      → (handle_login env r (some req) s).0.status ≡ 200
      → (u : User) × (get_user_by_username env.db req.username s ≡ ok u)
        × (env.compare_password u.password_hash req.password ≡ true)
        × Started u (handle_login env r (some req) s).0
  unfolding handle_login
  handle_login_sound req s h =
      check_user-Started req (get_user_by_username env.db req.username s) s h

  -- A user name that is not found and a wrong password get the same answer.
  pub handle_login_refusals :
      (req : Credentials) (s : Store) (e : StoreError) (u : User)
      → (get_user_by_username env.db req.username s ≡ err e
          → (handle_login env r (some req) s).0 ≡ failed 401 "invalid credentials")
        × (get_user_by_username env.db req.username s ≡ ok u
            → env.compare_password u.password_hash req.password ≡ false
            → (handle_login env r (some req) s).0 ≡ failed 401 "invalid credentials")
  unfolding handle_login check_user
  handle_login_refusals req s e u =
      (λ missing. rw missing refl, λ found wrong. rw (found, wrong) refl)

  audit-OnlyAudits :
      (action user_id username : String) (s : Store)
      → OnlyAudits s (audit env r action user_id username s)
  unfolding log_auth_audit
  audit-OnlyAudits action user_id username s = log_audit-OnlyAudits env.db env.audit_id env.now _ s

  start_session-OnlyAudits :
      (u : User) (finish : Store → Store) (s : Store)
      → OnlyAudits s (finish s)
      → OnlyAudits s (start_session env r u finish s).1
  unfolding start_session with_token with_csrf
  start_session-OnlyAudits u finish s h = ground (arith, h, unchanged s)

  check_user-OnlyAudits :
      (req : Credentials) (found : Result StoreError User) (s : Store)
      → OnlyAudits s (check_user env r req found s).1
  unfolding check_user
  check_user-OnlyAudits req (err e) s = audit-OnlyAudits _ _ _ s
  check_user-OnlyAudits req (ok u) s = ground (
    arith,
    audit-OnlyAudits audit_auth_login_failed u.id u.username s,
    start_session-OnlyAudits u (audit env r audit_auth_login u.id u.username) s
        (audit-OnlyAudits audit_auth_login u.id u.username s),
  )

  -- On every branch a login changes nothing but the audit log.
  pub handle_login-OnlyAudits :
      (body : Option Credentials) (s : Store) → OnlyAudits s (handle_login env r body s).1
  unfolding handle_login
  handle_login-OnlyAudits none s = unchanged s
  handle_login-OnlyAudits (some req) s =
      check_user-OnlyAudits req (get_user_by_username env.db req.username s) s

-- The whole way of a session, with a JWT library that does what it documents. The token of a login
-- that is answered by 200 lets a later request that carries it through `RequireAuth` as the user of
-- the login's name, as long as the session's time has not passed.
pub login_then_access :
    (env : AuthEnv) (r later : Request) (req : Credentials) (s : Store) (now : ℕ)
    → IsFaithful env.jwt
    → (handle_login env r (some req) s).0.status ≡ 200
    → now < env.now + session_ttl
    → (u : User) × (token : String) × (csrf : String) × (get_user_by_username env.db req.username s
        ≡ ok u)
      × ((handle_login env r (some req) s).0.cookies
          ≡ session_cookie token SameSite.strict ∷ csrf_cookie csrf ∷ [])
      × (cookie later "session" ≡ some token
          → require_auth env.jwt env.secret now later ≡ granted (claims_of u))
login_then_access env r later req s now faithful h early =
    let (u, found, _, started) = handle_login_sound env r req s h in
    let (token, csrf, signed, cookies, _) = started in
    let (valid, _) =
      verify_jwt-sign_jwt env.jwt faithful (claims_of u) env.secret token session_ttl env.now now
        signed in
    (
      u,
      token,
      csrf,
      found,
      cookies,
      λ carried.
          (require_auth-granted_iff env.jwt env.secret now later (claims_of u)).1
            (token, carried, valid early),
    )
