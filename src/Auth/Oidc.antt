-- ===== src/Auth/Oidc.antt =====
-- internal/auth/oidc.go and internal/auth/swappable.go, over the OIDC and OAuth2 libraries.
pub mod Callback
use text.Mathlib.Text.{◌==◌}
use agentic_hive.Prelude.{
  ℕ, String, Bool, true, false, not, Option, none, some, List, [], ◌∷◌, if◌then◌else◌, any, lookup,
  Result, ok, err,
}
use agentic_hive.Http.{
  Request, param, cookie, is_empty, SetCookie, SameSite, lax, same_site_default, Response, failed,
}
use agentic_hive.Store.{User, Store, Engine, StoreError, role_admin, role_user}
use agentic_hive.Store.Users.{upsert_oidc_user}
use agentic_hive.Auth.Cookies.{session_cookie, csrf_cookie, session_ttl}
use agentic_hive.Auth.Tokens.{Claims, sign_jwt}
use agentic_hive.Auth.Auditing.{log_auth_audit, audit_auth_login}
use agentic_hive.Auth.Local.{AuthEnv, claims_of}

-- A claim: a text, an array of which each item may be a text, or something else.
pub data Claim : Type 0 where
  single : String → Claim
  array : List (Option String) → Claim
  other : Claim

pub record IdToken : Type 0 where
  pub subject : String
  pub claims : Option (List (String × Claim))

-- coreos/go-oidc and golang.org/x/oauth2: the exchange of a code gives a token, which may hold an
-- ID token, which the verifier accepts or not.
pub record OidcProvider : Type 0 where
  pub auth_code_url : String → String
  pub exchange : String → Option (Option String)
  pub verify : String → Option IdToken

pub record OidcHandler : Type 0 where
  pub provider : OidcProvider
  pub roles_claim : String
  pub admin_group : String

unfoldable pub claim_string : List (String × Claim) → String → String
claim_string claims key = elim (lookup key claims) [ some (single s) ↦ s | _ ↦ "" ]

abbrev pub texts : List (Option String) → List String
texts [] = []
texts (none ∷ items) = texts items
texts (some s ∷ items) = s ∷ texts items

unfoldable pub claim_string_slice : List (String × Claim) → String → List String
claim_string_slice claims key = elim (lookup key claims) [
  | some (array items) ↦ texts items
  | _ ↦ []
]

-- The first of the preferred name, the address and the subject that is not empty.
unfoldable pub username_of : List (String × Claim) → String → String
username_of claims subject =
    let name = claim_string claims "preferred_username" in
    let email = claim_string claims "email" in
    if not (is_empty name) then name else if not (is_empty email) then email else subject

unfoldable pub role_of : OidcHandler → List (String × Claim) → String
role_of h claims =
    if any (λ g. g == h.admin_group) (claim_string_slice claims h.roles_claim)
    then role_admin
    else role_user

abbrev pub state_cookie : String → Option ℕ → SetCookie
state_cookie value max_age = record {
  name = "oidc_state";
  value = value;
  path = "/";
  http_only = true;
  secure = true;
  same_site = lax;
  max_age = max_age;
}

-- The deleted cookie has no attributes but its path.
abbrev pub cleared_state_cookie : SetCookie
cleared_state_cookie = record {
  name = "oidc_state";
  value = "";
  path = "/";
  http_only = false;
  secure = false;
  same_site = same_site_default;
  max_age = none;
}

-- `state` is drawn at random. The body of a redirect is its target.
unfoldable pub handle_login : OidcHandler → (state : String) → Response String
handle_login h state = record {
  status = 302;
  cookies = state_cookie state (some 300) ∷ [];
  body = ok (h.provider.auth_code_url state);
}

module _ (env : AuthEnv) (r : Request) where
  -- An error behind the check of the state, with the cookies that were set before it.
  abbrev pub refused : List SetCookie → ℕ → String → Response String
  refused cookies code message = record { status = code; cookies = cookies; body = err message }

  finish_csrf : User → SetCookie → Option String → Store → Response String × Store
  finish_csrf u session none s =
      (refused (cleared_state_cookie ∷ session ∷ []) 500 "internal error", s)
  finish_csrf u session (some token) s = (
    record {
      status = 302;
      cookies = cleared_state_cookie ∷ session ∷ csrf_cookie token ∷ [];
      body = ok "/";
    },
    log_auth_audit env.db env.audit_id env.now r audit_auth_login u.id u.username s,
  )

  finish_token : User → Option String → Store → Response String × Store
  unfolding finish_csrf
  finish_token u none s = (refused (cleared_state_cookie ∷ []) 500 "internal error", s)
  finish_token u (some token) s = finish_csrf u (session_cookie token lax) env.csrf_token s

  signed_in : Result StoreError User × Store → Response String × Store
  unfolding finish_token
  signed_in (err e, s) = (refused (cleared_state_cookie ∷ []) 500 "failed to create user", s)
  signed_in (ok u, s) =
      finish_token u (sign_jwt env.jwt (claims_of u) env.secret session_ttl env.now) s

  module _ (h : OidcHandler) where
    with_claims : String → Option (List (String × Claim)) → Store → Response String × Store
    unfolding signed_in
    with_claims subject none s =
        (refused (cleared_state_cookie ∷ []) 500 "failed to parse claims", s)
    with_claims subject (some claims) s = signed_in (
        upsert_oidc_user env.db env.new_id subject (username_of claims subject) (role_of h claims)
          env.now s)

    with_id_token : Option IdToken → Store → Response String × Store
    unfolding with_claims
    with_id_token none s = (refused (cleared_state_cookie ∷ []) 500 "token verification failed", s)
    with_id_token (some t) s = with_claims t.subject t.claims s

    with_raw : Option (Option String) → Store → Response String × Store
    unfolding with_id_token
    with_raw none s = (refused (cleared_state_cookie ∷ []) 500 "token exchange failed", s)
    with_raw (some none) s = (refused (cleared_state_cookie ∷ []) 500 "no id_token in response", s)
    with_raw (some (some raw)) s = with_id_token (h.provider.verify raw) s

    -- A missing state cookie is `none`.
    abbrev pub state_ok : Option String → Bool
    state_ok none = false
    state_ok (some v) = v == param r "state"

    unfoldable pub handle_callback : Store → Response String × Store
    unfolding with_raw
    handle_callback s =
        if not (state_ok (cookie r "oidc_state"))
        then (failed 400 "invalid state", s)
        else if is_empty (param r "code")
        then (refused (cleared_state_cookie ∷ []) 400 "missing code", s)
        else with_raw (h.provider.exchange (param r "code")) s

  -- `SwappableOIDCHandler`: no handler is configured until one is swapped in.
  unfoldable pub dispatch_callback : Option OidcHandler → Store → Response String × Store
  dispatch_callback none s = (failed 404 "OIDC not configured", s)
  dispatch_callback (some h) s = handle_callback h s

unfoldable pub dispatch_login : Option OidcHandler → (state : String) → Response String
dispatch_login none state = failed 404 "OIDC not configured"
dispatch_login (some h) state = handle_login h state
