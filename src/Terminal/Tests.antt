-- ===== src/Terminal/Tests.antt =====
-- An idle connection, a page of another host, and the server of another user.
use agentic_hive.Prelude.{
  ℕ, ◌+◌, ◌<◌, ◌≡◌, refl, ◌⊎◌, ◌≢◌, String, true, some, [], ◌∷◌, arith, eq_iff, lookup,
}
use agentic_hive.Http.{Request}
use agentic_hive.Server.Tests.{ann, env, world, request, alive, v2-AllForeign}
use agentic_hive.Terminal.{Peer, tick_interval, watch}
use agentic_hive.Terminal.Idle.{watch-closes}
use agentic_hive.Store.Tests.{store}
use agentic_hive.Store.Keeping.{Keeps}
use agentic_hive.Auth.Tokens.{verify_jwt}
use agentic_hive.Auth.Guards.{require_auth}
use agentic_hive.Terminal.Routing.{serve_terminal}
use agentic_hive.Terminal.Routing.Ownership.{IsRejected, serve_terminal-foreign}

abbrev stopped : ℕ → ℕ
stopped t = 5

watch-closes_example : (t : ℕ) × (watch 10 stopped 15 0 ≡ some t) × (t < 5 + 10 + tick_interval 10)
watch-closes_example = watch-closes 10 stopped 15 0 5 (λ t. omega arith) (omega arith) (omega arith)

abbrev page : Request
page = record request { headers = ("Origin", "https://hive.example") ∷ [] }

abbrev peer : Peer
peer = record {
  upgrades = true;
  attempt = alive.first;
  gives_session = λ c. true;
  gives_terminal = λ rows cols. true;
  gives_pipes = true;
  starts = λ line. true;
}

serve_terminal-foreign_example :
    Keeps "v2" store (serve_terminal env request peer "v1" "work" world).1.store
    × ((◌≢◌ {A = String} "v1" "v2")
        ⊎ IsRejected env request peer "v1" "work" world
            (serve_terminal env request peer "v1" "work" world))
unfolding require_auth verify_jwt lookup
serve_terminal-foreign_example =
    serve_terminal-foreign env request peer "v1" "work" world ann "v2" refl
      (λ e. ground (arith, eq_iff "user" "admin", e)) (λ e. ground (arith, eq_iff "u1" "", e))
      v2-AllForeign
