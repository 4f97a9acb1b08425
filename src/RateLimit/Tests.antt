-- ===== src/RateLimit/Tests.antt =====
-- The limiter on concrete histories.
use agentic_hive.Prelude.{
  ℕ, ◌+◌, ◌≡◌, refl, List, [], ◌∷◌, arith, true, false, String, lookup, insert, delete,
}
use agentic_hive.RateLimit.{
  RateLimiter, attempts, check, allowed, limited, Attempt, serve, settle, filter_expired,
  retry_after, new_rate_limiter,
}
use agentic_hive.RateLimit.Invariant.{IsWellFormed, serve-IsWellFormed}
use agentic_hive.RateLimit.History.{Event, request, tick, decisions, specified}
use agentic_hive.RateLimit.Refinement.{decisions-specified}
use agentic_hive.RateLimit.Lockout.{run, lockout}

abbrev limiter : RateLimiter
limiter = record {
  trackers = ("10.0.0.9", 5 ∷ 7 ∷ []) ∷ [];
  max_attempts = 2;
  window = 10;
  locked = false;
}

abbrev failure : String → ℕ → Attempt
failure ip t = record { ip = ip; arrived = t; measured = t; code = 401; finished = t + 1 }

verdicts :
    ((check limiter "10.0.0.9" 14 14).0 ≡ limited 1)
    × ((check limiter "10.0.0.9" 16 16).0 ≡ allowed)
    × ((check limiter "10.0.0.8" 14 14).0 ≡ allowed)
    × (attempts (serve limiter (failure "10.0.0.9" 16)).1 "10.0.0.9" ≡ 7 ∷ 17 ∷ [])
unfolding check serve settle filter_expired lookup insert delete retry_after
verdicts = (refl, refl, refl, refl)

abbrev empty_limiter : RateLimiter
empty_limiter = record { trackers = []; max_attempts = 2; window = 10; locked = false }

serve-IsWellFormed_example : IsWellFormed 15 (serve empty_limiter (failure "10.0.0.9" 14)).1
unfolding lookup
serve-IsWellFormed_example =
    serve-IsWellFormed empty_limiter (failure "10.0.0.9" 14) 0
      (record {
        distinct = tt;
        ordered = λ ip. omega arith;
        bounded = λ ip. omega arith;
        free = refl;
        positive = omega arith;
      })
      (omega arith) (omega arith)

abbrev two_failures : List Attempt
two_failures = failure "10.0.0.9" 3 ∷ failure "10.0.0.9" 5 ∷ []

lockout_example :
    (secs : ℕ) × ((check (run empty_limiter two_failures) "10.0.0.9" 12 12).0 ≡ limited secs)
unfolding lookup
lockout_example =
    lockout empty_limiter "10.0.0.9" two_failures 3 12 12 refl (omega arith) refl
      ((refl, refl, omega arith, omega arith), ((refl, refl, omega arith, omega arith), tt))
      (omega arith) refl (omega arith)

-- Two failures, a tick, and two more requests.
abbrev events : List Event
events =
    request (record { ip = "a"; arrived = 1; measured = 1; code = 401; finished = 2 })
    ∷ request (record { ip = "a"; arrived = 3; measured = 3; code = 401; finished = 4 })
    ∷ tick 5
    ∷ request (record { ip = "a"; arrived = 6; measured = 6; code = 200; finished = 7 })
    ∷ request (record { ip = "b"; arrived = 8; measured = 8; code = 200; finished = 9 })
    ∷ []

decisions-specified_example :
    decisions (new_rate_limiter 2 900) events ≡ specified 2 900000000000 (λ ip. []) events
decisions-specified_example = decisions-specified 2 900 events (omega arith) (
  omega arith,
  omega arith,
  (
    omega arith,
    omega arith,
    (omega arith, (omega arith, omega arith, (omega arith, omega arith, tt))),
  ),
)

decided : specified 2 900000000000 (λ ip. []) events ≡ true ∷ true ∷ false ∷ true ∷ []
unfolding specified
decided = refl
