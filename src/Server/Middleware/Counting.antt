-- ===== src/Server/Middleware/Counting.antt =====
-- What the layers around the mux add to an answer, and what the counter of requests records of it.
use text.Mathlib.Text.{◌==◌}
use agentic_hive.Prelude.{List, [], ◌∷◌, Option, none, some, if◌then◌else◌}
use agentic_hive.Http.{Request}
use agentic_hive.Auth.Csrf.{Verdict, forbidden, next}
use agentic_hive.Server.{World, ServerEnv}
use agentic_hive.Server.Routes.{Route, Answer}
use agentic_hive.Server.Middleware.{pattern_of, Sent, Sample}

-- What is counted of an answer, by the verdict of the CSRF check: a refusal under the path of the
-- request, an answer of a handler under its pattern, and nothing where there is no answer.
abbrev pub recorded : Request → Route → Verdict → Answer → List Sample → List Sample
recorded r route v none total = total
recorded r route forbidden (some response) total =
    record { method = r.method; path = r.path; status = response.status } ∷ total
recorded r route next (some response) total =
    record { method = r.method; path = pattern_of route; status = response.status } ∷ total

-- A response with the four headers.
abbrev pub framed : Answer → Option Sent
framed none = none
framed (some response) = some (record {
  headers =
      ("X-Content-Type-Options", "nosniff")
      ∷ ("X-Frame-Options", "DENY")
      ∷ ("Referrer-Policy", "strict-origin-when-cross-origin")
      ∷ (
        "Content-Security-Policy",
        "default-src 'self'; script-src 'self' 'unsafe-inline'; connect-src 'self' wss:; style-src 'self' 'unsafe-inline' https://fonts.googleapis.com; font-src https://fonts.gstatic.com",
      )
      ∷ [];
  response = response;
})

module _ (env : ServerEnv) (r : Request) (route : Route) (w : World) (total : List Sample) where
  -- The response with its headers, the world, and the counter.
  abbrev pub layered : Verdict → Answer × World → Option Sent × World × List Sample
  layered v (a, w') =
      (framed a, w', if r.path == "/metrics" then total else recorded r route v a total)
