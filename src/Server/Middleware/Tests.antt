-- ===== src/Server/Middleware/Tests.antt =====
-- A request of a user through all layers, and one that the CSRF check refuses.
use agentic_hive.Prelude.{◌≡◌, refl, [], ◌∷◌, lookup}
use agentic_hive.Http.{Request}
use agentic_hive.Auth.Csrf.{csrf_protect, compare_tokens, matching}
use agentic_hive.Server.Tests.{env, world, request}
use agentic_hive.Server.Middleware.{unrouted, behind_csrf, serve_mux, handle}

-- No route of the server, and no token: the label is what the client has written.
abbrev forged : Request
forged = record request { method = "POST"; path = "/made-up/17"; headers = [] }

forged_label :
    (handle env forged (unrouted 404 "404 page not found") world []).2
    ≡ record { method = "POST"; path = "/made-up/17"; status = 403 } ∷ []
unfolding handle behind_csrf serve_mux csrf_protect compare_tokens matching lookup
forged_label = refl
