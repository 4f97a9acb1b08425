-- ===== src/Auth/Guards.antt =====
-- `RequireAuth` and `RequireAdmin` of internal/auth/auth.go.
pub mod Granting
use text.Mathlib.Text.{◌==◌}
use agentic_hive.Prelude.{
  ℕ, String, Bool, true, false, not, Option, none, some, if◌then◌else◌, Result, ok, err,
}
use agentic_hive.Http.{Request, cookie}
use agentic_hive.Store.{role_admin}
use agentic_hive.Auth.Tokens.{
  Claims, JwtLibrary, JwtError, token_expired, token_invalid, verify_jwt,
}

-- What the middleware does: it answers by a status, with the label that it adds to the metric of
-- failures, or goes on with the claims as the user of the request.
pub data Access : Type 0 where
  denied : ℕ → Option String → Access
  granted : Claims → Access

abbrev pub jwt_failure_reason : JwtError → String
jwt_failure_reason token_expired = "token_expired"
jwt_failure_reason token_invalid = "token_invalid"

abbrev claims_access : Result JwtError Claims → Access
claims_access (err e) = denied 401 (some (jwt_failure_reason e))
claims_access (ok c) = granted c

abbrev pub is_admin : Claims → Bool
is_admin c = c.role == role_admin

abbrev admin_access : Access → Access
admin_access (denied code label) = denied code label
admin_access (granted c) = if not (is_admin c) then denied 403 none else granted c

module _ (jwt : JwtLibrary) (secret : String) (now : ℕ) where
  cookie_access : Option String → Access
  cookie_access none = denied 401 none
  cookie_access (some token) = claims_access (verify_jwt jwt token secret now)

  unfoldable pub require_auth : Request → Access
  unfolding cookie_access
  require_auth r = cookie_access (cookie r "session")

  unfoldable pub require_admin : Request → Access
  unfolding cookie_access
  require_admin r = admin_access (cookie_access (cookie r "session"))
