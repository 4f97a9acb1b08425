-- ===== src/Config/Tests.antt =====
-- The settings of one installation.
use text.Mathlib.Text.{◌==◌}
use agentic_hive.Prelude.{String, ◌≡◌, refl, none, some, List, [], ◌∷◌, if◌then◌else◌}
use agentic_hive.Text.Numbers.{pos, negsuc, atoi}

numbers :
    (atoi "30" ≡ some (pos 30))
    × (atoi "-5" ≡ some (negsuc 4))
    × (atoi "+7" ≡ some (pos 7))
    × (atoi "" ≡ none)
    × (atoi "3s" ≡ none)
    × (atoi "9223372036854775808" ≡ none)
unfolding atoi
numbers = (refl, refl, refl, refl, refl, refl)

abbrev env : String → String
env name = if name == "OVERLAY_VAULT_ADDR" then "http://vault" else ""

abbrev db : List (String × String)
db = ("oidc.issuer_url", "http://issuer") ∷ ("vault.token", "t") ∷ []
