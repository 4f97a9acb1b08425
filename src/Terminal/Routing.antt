-- ===== src/Terminal/Routing.antt =====
-- The route of the terminal in internal/server/server.go: the handler behind the CSRF check and
-- `RequireAuth`.
pub mod Ownership
use agentic_hive.Prelude.{ℕ, String, Option, some, ◌==◌, if◌then◌else◌}
use agentic_hive.Http.{Request}
use agentic_hive.Auth.Tokens.{Claims}
use agentic_hive.Auth.Guards.{Access, denied, granted, require_auth}
use agentic_hive.Auth.Csrf.{Verdict, csrf_protect, forbidden, next, server_exemptions}
use agentic_hive.Server.{World, ServerEnv}
use agentic_hive.Terminal.{Peer, Opening, rejected, handle_terminal}

module _ (env : ServerEnv) (r : Request) (peer : Peer) (server_id name : String) where
  abbrev unauthorized : ℕ → Opening
  unauthorized code = rejected code (if code == 403 then "forbidden" else "unauthorized")

  unfoldable pub behind_auth : Access → World → Opening × World
  behind_auth (denied code label) w = (unauthorized code, w)
  behind_auth (granted c) w = handle_terminal env r (some c) peer server_id name w

  unfoldable pub behind_csrf : Verdict → World → Opening × World
  unfolding behind_auth
  behind_csrf forbidden w = (rejected 403 "csrf token mismatch", w)
  behind_csrf next w = behind_auth (require_auth env.auth.jwt env.auth.secret env.auth.now r) w

  -- `GET /ws/terminal/{server}/{session}`
  unfoldable pub serve_terminal : World → Opening × World
  unfolding behind_csrf
  serve_terminal w = behind_csrf (csrf_protect server_exemptions r) w
