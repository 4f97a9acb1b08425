-- ===== src/Auth/Tests.antt =====
-- One account, and a token library that signs one set of claims, for the tests of the package.
mod Accounts
mod Access
use text.Mathlib.Text.{◌==◌}
use mathlib.Core.List.{Mem}
use agentic_hive.Prelude.{
  ℕ, ◌+◌, ◌≤◌, ◌<◌, ◌≡◌, refl, ◌↔◌, ◌⊎◌, ◌≢◌, inl, inr, String, Bool, true, false, ◌&&◌, Option,
  none, some, List, [], ◌∷◌, arith, if◌then◌else◌, eq_iff, Result, ok, err, Bool-cases, subst,
  ==_iff, lookup, ltb, ◌==◌ as nat_eq,
}
use agentic_hive.Http.{Request, cookie, param, failed, SameSite, header}
use agentic_hive.Store.{User, Store, Engine, working, role_admin, role_user, count_users, not_found}
use agentic_hive.Store.Users.{get_user_by_username, create_user, upsert_oidc_user, user_count}
use agentic_hive.Store.Audit.{log_audit}
use agentic_hive.Store.Audit.Framing.{OnlyAudits}
use agentic_hive.Auth.Cookies.{session_cookie, csrf_cookie, session_ttl, read_csrf_cookie}
use agentic_hive.Auth.Csrf.{csrf_protect, forbidden, server_exemptions}
use agentic_hive.Auth.Csrf.Soundness.{sent_token, is_checked, csrf_protect-forbidden_iff}
use agentic_hive.Auth.Tokens.{
  Claims, SignedClaims, JwtError, token_expired, token_invalid, JwtLibrary, IsFaithful, sign_jwt,
  verify_jwt,
}
use agentic_hive.Auth.Tokens.Lifetime.{verify_jwt-sign_jwt}
use agentic_hive.Auth.Guards.{granted, denied, require_auth, require_admin}
use agentic_hive.Auth.Guards.Granting.{require_auth-granted_iff, require_admin_cases}
use agentic_hive.Auth.Auditing.{log_auth_audit}
use agentic_hive.Auth.Local.{
  AuthEnv, Credentials, claims_of, start_session, handle_login, setup_needed, handle_setup,
}
use agentic_hive.Auth.Local.Login.{
  Started, handle_login_sound, handle_login_refusals, handle_login-OnlyAudits, login_then_access,
}
use agentic_hive.Auth.Local.Setup.{handle_setup_once}
use agentic_hive.Auth.Oidc.{
  Claim, single, array, IdToken, OidcProvider, OidcHandler, claim_string, claim_string_slice,
  username_of, role_of, handle_callback,
}
use agentic_hive.Auth.Oidc.Callback.{
  Verified, handle_callback_sound, handle_callback-state, role_of-admin_iff,
}

abbrev pub ann : User
ann = record {
  id = "u1";
  username = "ann";
  password_hash = "pw";
  role = "admin";
  oidc_subject = none;
  created_at = 1;
  updated_at = 1;
}

abbrev pub empty_store : Store
empty_store = record {
  users = [];
  servers = [];
  ssh_keys = [];
  host_keys = [];
  session_templates = [];
  settings = [];
  audit_log = [];
}

abbrev pub store : Store
store = record empty_store { users = ann ∷ [] }

-- A library that signs one set of claims with one key.
abbrev pub the_claims : SignedClaims
the_claims = record { claims = claims_of ann; expires_at = 86500; issued_at = 100 }

abbrev pub is_the : SignedClaims → String → Bool
is_the c secret =
    (c.claims.user_id == "u1" && c.claims.username == "ann" && c.claims.role == "admin")
    && (nat_eq c.expires_at 86500 && nat_eq c.issued_at 100 && secret == "key")

abbrev parse_the : Option String → ℕ → String → Result JwtError (SignedClaims × Bool)
parse_the none now token = err token_invalid
parse_the (some key) now token =
    if key == "key" && token == "token"
    then (if ltb now 86500 then ok (the_claims, true) else err token_expired)
    else err token_invalid

abbrev pub library : JwtLibrary
library = record {
  sign = λ c secret. if is_the c secret then some "token" else none;
  parse = λ key now token. parse_the (key true) now token;
}

is_the_fields :
    (c : SignedClaims) (secret token : String)
    → (if is_the c secret then some "token" else none) ≡ some token
    → (c.claims.user_id ≡ "u1")
      × (c.claims.username ≡ "ann")
      × (c.claims.role ≡ "admin")
      × (c.expires_at ≡ 86500)
      × (c.issued_at ≡ 100)
      × (secret ≡ "key")
      × (token ≡ "token")
is_the_fields c secret token h = ground (
  arith,
  eq_iff c.claims.user_id "u1",
  eq_iff c.claims.username "ann",
  eq_iff c.claims.role "admin",
  eq_iff secret "key",
)

is_the_sound :
    (c : SignedClaims) (secret token : String)
    → (if is_the c secret then some "token" else none) ≡ some token
    → (c ≡ the_claims) × (secret ≡ "key") × (token ≡ "token")
is_the_sound c secret token h =
    let (e1, e2, e3, e4, e5, e6, e7) = is_the_fields c secret token h in
    (
      λ i. record {
        claims = record { user_id = e1 i; username = e2 i; role = e3 i };
        expires_at = e4 i;
        issued_at = e5 i;
      },
      e6,
      e7,
    )

pub library-IsFaithful : IsFaithful library
library-IsFaithful = record {
  parse_signed = λ c secret token key now signed given early.
      let (same, right, name) = is_the_sound c secret token signed in
      rw (given, same, right, name)
        (let inside : now < 86500 = subst (λ (x : SignedClaims). now < x.expires_at) same early in
          ground arith);
  parse_expired = λ c secret token key now signed given past.
      let (same, right, name) = is_the_sound c secret token signed in
      rw (given, right, name)
        (let outside : 86500 ≤ now = subst (λ (x : SignedClaims). x.expires_at ≤ now) same past in
          ground arith);
}

abbrev pub env : AuthEnv
env = record {
  db = working;
  jwt = library;
  secret = "key";
  compare_password = λ hash password. hash == password;
  hash_password = λ password. some password;
  now = 100;
  audit_id = "a1";
  new_id = "u1";
  csrf_token = some "csrf";
}

abbrev pub plain_request : Request
plain_request = record {
  method = "POST";
  path = "/api/auth/login";
  query = [];
  headers = [];
  cookies = [];
  remote_addr = "10.0.0.9:4444";
}

abbrev pub with_cookies : List (String × String) → Request
with_cookies cs = record plain_request { path = "/api/servers"; cookies = cs }

abbrev pub credentials : Credentials
credentials = record { username = "ann"; password = "pw" }
