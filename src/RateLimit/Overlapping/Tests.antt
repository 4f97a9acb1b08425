-- ===== src/RateLimit/Overlapping/Tests.antt =====
-- Two requests of one address overlap on a limiter for a single failure.
use agentic_hive.Prelude.{
  false, ◌*◌, ◌+◌, ◌<◌, ◌≡◌, refl, [], ◌∷◌, arith, length, lookup, insert, delete, String,
}
use agentic_hive.RateLimit.{attempts, check, settle, filter_expired, new_rate_limiter, second}
use agentic_hive.RateLimit.Overlapping.{
  System, Reach, at_start, later, arrive, record_outcome, peak, of_address, enter, fresh,
}
use agentic_hive.RateLimit.Overlapping.Bounds.{overlapping_bounded}

abbrev ip : String
ip = "10.0.0.9"

-- Both have failed, where a request after the other would be refused.
abbrev both_failed : System
both_failed = record {
  limiter = record {
    trackers = (ip, 7 ∷ 8 ∷ []) ∷ [];
    max_attempts = 1;
    window = 60 * second;
    locked = false;
  };
  in_flight = [];
}

both_run : Reach (fresh 1 60) both_failed
unfolding check settle filter_expired lookup insert delete new_rate_limiter enter
both_run =
    later
      (later (later (later at_start (arrive ip 5 5)) (arrive ip 6 6))
        (record_outcome [] (ip ∷ []) ip 401 7 refl))
      (record_outcome [] [] ip 401 8 refl)

both_counts : (length (attempts both_failed.limiter ip) ≡ 2) × (peak ip both_run ≡ 2)
unfolding both_run peak of_address lookup enter check settle filter_expired insert delete
    new_rate_limiter
both_counts = (refl, refl)

overlapping_bounded_example :
    length (attempts both_failed.limiter ip) + of_address ip both_failed.in_flight
    < 1 + peak ip both_run
overlapping_bounded_example = overlapping_bounded 1 60 ip both_failed (omega arith) both_run
