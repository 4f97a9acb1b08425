-- ===== src/RateLimit/Overlapping.antt =====
-- Requests that overlap. The middleware holds the mutex for the check and again for the record of
-- the outcome, and not for the wrapped handler in between: other requests come and go there.
pub mod Bounds
mod Tests
use agentic_hive.Prelude.{
  ℕ, ◌+◌, ◌≤◌, ◌<◌, ◌≡◌, ◌∙◌, sym, subst, refl, String, Bool, true, false, List, [], ◌∷◌, ◌++◌,
  arith, length, if◌then◌else◌, str_eq, str_eq_refl, HasDistinctKeys, length-append, max,
}
use agentic_hive.RateLimit.{
  RateLimiter, filter_expired, attempts, Verdict, allowed, limited, panics, hangs, check, settle,
  cleanup, new_rate_limiter,
}
use agentic_hive.RateLimit.Expiry.{length-filter_expired}
use agentic_hive.RateLimit.Decisions.{
  attempts-check, attempts-settle, attempts-cleanup, settled, settle_settings, check_settings,
  check-ne-panics,
}
use agentic_hive.RateLimit.Invariant.{check-HasDistinctKeys, settle-HasDistinctKeys}
use agentic_hive.RateLimit.Clearing.{cleanup-HasDistinctKeys}

-- The limiter, and the addresses of the requests that are in the wrapped handler.
pub record System : Type 0 where
  pub limiter : RateLimiter
  pub in_flight : List String

-- How many of them are of an address.
unfoldable pub of_address : String → List String → ℕ
of_address ip [] = 0
of_address ip (j ∷ js) = if str_eq j ip then 1 + of_address ip js else of_address ip js

unfoldable pub enter : Verdict → String → List String → List String
enter allowed ip waiting = ip ∷ waiting
enter _ ip waiting = waiting

-- What can happen: a request is checked, one of those in the handler has its outcome recorded or
-- panics, or the clean-up ticks. No clock orders them: a goroutine may read its time and wait for the mutex.
pub data Step (s : System) : System → Type 0 where
  arrive :
      (ip : String) (now now' : ℕ)
      → Step s (record {
        limiter = (check s.limiter ip now now').1;
        in_flight = enter (check s.limiter ip now now').0 ip s.in_flight;
      })
  record_outcome :
      (before after : List String) (ip : String) (code now : ℕ)
      → s.in_flight ≡ before ++ ip ∷ after
      → Step s (record { limiter = settle s.limiter ip code now; in_flight = before ++ after })
  -- A handler that panics is left without a record.
  abandon :
      (before after : List String) (ip : String)
      → s.in_flight ≡ before ++ ip ∷ after
      → Step s (record { limiter = s.limiter; in_flight = before ++ after })
  clean : (now : ℕ) → Step s (record { limiter = cleanup s.limiter now; in_flight = s.in_flight })

pub data Reach (s : System) : System → Type 0 where
  at_start : Reach s s
  later : {t u : System} → Reach s t → Step t u → Reach s u

-- The most requests of an address that were in the handler at once.
unfoldable pub peak : {s t : System} → String → Reach s t → ℕ
peak {s} ip at_start = of_address ip s.in_flight
peak ip (later {t} {u} run step) = max (peak ip run) (of_address ip u.in_flight)

abbrev pub fresh : (max_attempts window_secs : ℕ) → System
fresh max_attempts window_secs = record {
  limiter = new_rate_limiter max_attempts window_secs;
  in_flight = [];
}
