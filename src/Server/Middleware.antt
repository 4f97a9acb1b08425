-- ===== src/Server/Middleware.antt =====
-- `Handler`, `loggingMiddleware` and `securityHeaders` of internal/server/server.go: the layers around
-- the CSRF check and the mux. A counter vector is the list of the label values it was incremented
-- with, the latest first. The histogram of durations takes the same labels but the status.
pub mod Counting
mod Tests
use Prim.Native.String.{◌++◌}
use text.Mathlib.Text.{◌==◌}
use agentic_hive.Prelude.{ℕ, String, List, [], ◌∷◌, Option, none, some, if◌then◌else◌}
use agentic_hive.Http.{Request, Response, failed}
use agentic_hive.Auth.Csrf.{Verdict, csrf_protect, forbidden, next, server_exemptions}
use agentic_hive.Server.{World, ServerEnv, Reply}
use agentic_hive.Server.Routes.{
  Route, UserRoute, AdminRoute, Answer, get_healthz, get_readyz, get_setup_status, oidc_login,
  oidc_callback, post_login, post_setup, as_user, as_admin, get_me, get_templates, list_all,
  post_logout, create_one, delete_one, put_key_of, accept_key_of, sessions_of, create_session_on,
  kill_session_on, get_audit, get_users, get_config, get_settings, delete_user_of, put_settings,
  post_test_oidc, post_test_vault, dispatch, csrf_refusal,
}

abbrev pub user_pattern : UserRoute → String
user_pattern get_me = "GET /api/me"
user_pattern get_templates = "GET /api/templates"
user_pattern list_all = "GET /api/servers"
user_pattern post_logout = "POST /api/auth/logout"
user_pattern (create_one body) = "POST /api/servers"
user_pattern (delete_one id) = "DELETE /api/servers/{id}"
user_pattern (put_key_of id body) = "PUT /api/servers/{id}/key"
user_pattern (accept_key_of id) = "POST /api/servers/{id}/accept-key"
user_pattern (sessions_of id) = "GET /api/servers/{id}/sessions"
user_pattern (create_session_on id body) = "POST /api/servers/{id}/sessions"
user_pattern (kill_session_on id name) = "DELETE /api/servers/{id}/sessions/{name}"

abbrev pub admin_pattern : AdminRoute → String
admin_pattern get_audit = "GET /api/admin/audit"
admin_pattern get_users = "GET /api/users"
admin_pattern get_config = "GET /api/admin/config"
admin_pattern get_settings = "GET /api/admin/settings"
admin_pattern (delete_user_of id) = "DELETE /api/users/{id}"
admin_pattern (put_settings updates) = "PUT /api/admin/settings"
admin_pattern (post_test_oidc issuer_url) = "POST /api/admin/settings/test-oidc"
admin_pattern (post_test_vault address token) = "POST /api/admin/settings/test-vault"

-- The pattern under which `routes` has registered a handler.
unfoldable pub pattern_of : Route → String
pattern_of get_healthz = "GET /healthz"
pattern_of get_readyz = "GET /readyz"
pattern_of get_setup_status = "GET /api/auth/setup/status"
pattern_of oidc_login = "GET /api/auth/oidc/login"
pattern_of oidc_callback = "GET /api/auth/oidc/callback"
pattern_of (post_login body) = "POST /api/auth/login"
pattern_of (post_setup body) = "POST /api/auth/setup"
pattern_of (as_user route) = user_pattern route
pattern_of (as_admin route) = admin_pattern route

-- What the mux makes of a request: a handler of `routes`, or an answer of its own, 404 or 405, with
-- its text.
pub data Target : Type 0 where
  routed : Route → Target
  unrouted : ℕ → String → Target

abbrev pub security_headers : List (String × String)
security_headers =
    ("X-Content-Type-Options", "nosniff")
    ∷ ("X-Frame-Options", "DENY")
    ∷ ("Referrer-Policy", "strict-origin-when-cross-origin")
    ∷ (
      "Content-Security-Policy",
      "default-src 'self'; script-src 'self' 'unsafe-inline'; connect-src 'self' wss:; style-src 'self' 'unsafe-inline' https://fonts.googleapis.com; font-src https://fonts.gstatic.com",
    )
    ∷ []

-- A response on the wire, with the headers that are set in front of the handler.
pub record Sent : Type 0 where
  pub headers : List (String × String)
  pub response : Response Reply

-- `HTTPRequestsTotal`: method, path and status.
pub record Sample : Type 0 where
  pub method : String
  pub path : String
  pub status : ℕ

-- The answer, the pattern that the mux has left in the request, and the world.
pub record Handled : Type 0 where
  pub answer : Answer
  pub pattern : String
  pub world : World

-- `rec.status`, with the pattern or, where there is none, the path.
abbrev pub sample : Request → (pattern : String) → ℕ → Sample
sample r pattern status = record {
  method = r.method;
  path = if pattern == "" then r.path else pattern;
  status = status;
}

module _ (env : ServerEnv) (r : Request) where
  abbrev routed_answer : (pattern : String) → Answer × World → Handled
  routed_answer pattern (a, w) = record { answer = a; pattern = pattern; world = w }

  unfoldable pub serve_mux : Target → World → Handled
  serve_mux (unrouted code message) w = record {
    answer = some (failed code message);
    pattern = "";
    world = w;
  }
  serve_mux (routed route) w = routed_answer (pattern_of route) (dispatch env r route w)

  unfoldable pub behind_csrf : Verdict → Target → World → Handled
  behind_csrf forbidden target w = record {
    answer = some (csrf_refusal env r);
    pattern = "";
    world = w;
  }
  behind_csrf next target w = serve_mux target w

  abbrev with_headers : Answer → Option Sent
  with_headers none = none
  with_headers (some response) = some (record { headers = security_headers; response = response })

  -- A handler that panics or waits for ever is not counted.
  abbrev pub counted : Handled → List Sample → List Sample
  counted h total = count_answer h.answer
    where
      count_answer : Answer → List Sample
      count_answer none = total
      count_answer (some response) = sample r h.pattern response.status ∷ total

  abbrev logged : Handled → List Sample → Option Sent × World × List Sample
  logged h total =
      (with_headers h.answer, h.world, if r.path == "/metrics" then total else counted h total)

  -- What the server makes of a request.
  unfoldable pub handle : Target → World → List Sample → Option Sent × World × List Sample
  unfolding behind_csrf
  handle target w total = logged (behind_csrf (csrf_protect server_exemptions r) target w) total
