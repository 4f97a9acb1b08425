-- ===== src/Auth/Csrf.antt =====
-- `CSRFProtect` of internal/auth/auth.go.
pub mod Soundness
use text.Mathlib.Text.{◌==◌, starts_with}
use agentic_hive.Prelude.{
  String, Bool, true, false, not, ◌||◌, Option, none, some, List, [], ◌∷◌, if◌then◌else◌, any,
}
use agentic_hive.Http.{Request, header, param, cookie, is_empty}
use agentic_hive.Auth.Cookies.{read_csrf_cookie}

pub data Verdict : Type 0 where
  next : Verdict
  forbidden : Verdict

abbrev pub has_session : Request → Bool
has_session r = elim (cookie r "session") [ none ↦ false | some v ↦ true ]

-- The double submit: both are there and equal. (`subtle.ConstantTimeCompare` is 1 on equal bytes.)
unfoldable pub matching : String → String → Bool
matching sent stored = not (stored == "" || sent == "" || not (sent == stored))

abbrev pub is_safe_method : String → Bool
is_safe_method m = m == "GET" || m == "HEAD" || m == "OPTIONS"

abbrev pub is_exempt : List String → Request → Bool
is_exempt exempt r = any (λ e. starts_with r.path e) exempt

-- With no session cookie the check is left out: the middleware behind it answers 401.
unfoldable pub compare_tokens : Request → String → Verdict
compare_tokens r sent =
    if not (has_session r)
    then next
    else if matching sent (read_csrf_cookie r)
    then next
    else forbidden

unfoldable pub csrf_protect : List String → Request → Verdict
unfolding compare_tokens
csrf_protect exempt r =
    if is_exempt exempt r
    then next
    else if starts_with r.path "/ws/"
    then compare_tokens r (param r "csrf")
    else if is_safe_method r.method
    then next
    else compare_tokens r (header r "X-CSRF-Token")

-- The exemptions of `Server.Handler` in internal/server/server.go.
abbrev pub server_exemptions : List String
server_exemptions =
    "/api/auth/login" ∷ "/api/auth/setup" ∷ "/api/auth/oidc/callback" ∷ "/api/auth/oidc/login"
    ∷ "/healthz" ∷ "/readyz" ∷ "/metrics" ∷ []
