-- ===== src/RateLimit/History.antt =====
-- A specification of the limiter that forgets nothing: for each address all failures since its last
-- success, of which those in the window count.
use agentic_hive.Prelude.{
  ℕ, ◌≤◌, String, Bool, true, false, not, List, [], ◌∷◌, length, select, leb, if◌then◌else◌, str_eq,
}
use agentic_hive.RateLimit.{RateLimiter, Verdict, allowed, cleanup, Attempt, serve}
use agentic_hive.RateLimit.Expiry.{in_window}
use agentic_hive.RateLimit.Decisions.{settled}

-- What happens to a limiter: a request that is served, or a tick of the clean-up.
pub data Event : Type 0 where
  request : Attempt → Event
  tick : ℕ → Event

abbrev pub is_allowed : Verdict → Bool
is_allowed allowed = true
is_allowed _ = false

-- Which requests the limiter lets through.
unfoldable pub decisions : RateLimiter → List Event → List Bool
decisions rl [] = []
decisions rl (request a ∷ events) = is_allowed (serve rl a).0 ∷ decisions (serve rl a).1 events
decisions rl (tick now ∷ events) = decisions (cleanup rl now) events

abbrev pub History : Type 0
History = String → List ℕ

abbrev pub recorded : Attempt → History → History
recorded a h j = if str_eq a.ip j then settled (h a.ip) a.code a.finished else h j

-- The specification, for a limit and a window.
module _ (limit window : ℕ) where
  abbrev pub allows : History → Attempt → Bool
  allows h a = not (leb limit (length (select (in_window a.arrived window) (h a.ip))))

  abbrev pub after_request : Attempt → History → History
  after_request a h = if allows h a then recorded a h else h

  unfoldable pub specified : History → List Event → List Bool
  specified h [] = []
  specified h (request a ∷ events) = allows h a ∷ specified (after_request a h) events
  specified h (tick now ∷ events) = specified h events

-- Each event begins after the one before it has ended.
abbrev pub InOrder : ℕ → List Event → Type 0
InOrder clock [] = Unit
InOrder clock (request a ∷ events) =
    (clock ≤ a.arrived) × (a.arrived ≤ a.finished) × InOrder a.finished events
InOrder clock (tick now ∷ events) = (clock ≤ now) × InOrder now events
