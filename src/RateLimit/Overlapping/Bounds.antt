-- ===== src/RateLimit/Overlapping/Bounds.antt =====
-- How many failures of one address get past a limiter whose requests overlap.
use agentic_hive.Prelude.{
  ℕ, ◌+◌, ◌≤◌, ◌<◌, ◌≡◌, ◌∙◌, ap, refl, String, true, false, List, [], ◌∷◌, ◌++◌, arith, length,
  if◌then◌else◌, ◌⊎◌, inl, str_eq, eq_iff, HasDistinctKeys, length-append, lookup,
}
use agentic_hive.RateLimit.{
  RateLimiter, attempts, Verdict, allowed, limited, panics, hangs, check, cleanup, new_rate_limiter,
}
use agentic_hive.RateLimit.Expiry.{length-filter_expired}
use agentic_hive.RateLimit.Decisions.{
  attempts-check, attempts-settle, attempts-cleanup, settled, settle_settings, check_settings,
  check-ne-panics,
}
use agentic_hive.RateLimit.Invariant.{check-HasDistinctKeys, settle-HasDistinctKeys}
use agentic_hive.RateLimit.Clearing.{cleanup-HasDistinctKeys}
use agentic_hive.RateLimit.Overlapping.{
  System, of_address, enter, Step, arrive, record_outcome, abandon, clean, Reach, at_start, later,
  peak, fresh,
}

-- What holds of every address after any run: failures that are recorded and requests that may still
-- fail are together less than the limit and the peak.
record IsBounded (limit : ℕ) (ip : String) (top : ℕ) (s : System) : Type 0 where
  distinct : HasDistinctKeys s.limiter.trackers
  same_limit : s.limiter.max_attempts ≡ limit
  free : s.limiter.locked ≡ false
  flying : of_address ip s.in_flight ≤ top
  room : length (attempts s.limiter ip) + of_address ip s.in_flight < limit + top

of_address-append :
    (ip : String) (xs ys : List String)
    → of_address ip (xs ++ ys) ≡ of_address ip xs + of_address ip ys
unfolding of_address
of_address-append ip [] ys = omega arith
of_address-append ip (x ∷ xs) ys = ground (arith, of_address-append ip xs ys)

module _ (rl : RateLimiter) (ip j : String) (now now' : ℕ) (free : rl.locked ≡ false)
    (pos : 0 < rl.max_attempts) where
  -- A check leaves no more attempts; those of an address that it lets through are below the limit.
  check-fewer : length (attempts (check rl ip now now').1 j) ≤ length (attempts rl j)
  check-fewer = ground (
    arith,
    attempts-check rl ip j now now' free,
    length-filter_expired (attempts rl ip) now rl.window,
    eq_iff ip j,
  )

  check-below :
      str_eq ip j ≡ true
      → (check rl ip now now').0 ≡ allowed
      → length (attempts (check rl ip now now').1 j) < rl.max_attempts
  unfolding check
  check-below same passes = ground (arith, attempts-check rl ip j now now' free)

settled-length : (ts : List ℕ) (code now : ℕ) → length (settled ts code now) ≤ 1 + length ts
settled-length ts code now = ground (arith, length-append ts (now ∷ []))

-- What one step does to the numbers of an address: it never adds to their sum but where it lets a
-- request through, and there the attempts are below the limit.
record Moves (limit : ℕ) (ip : String) (s t : System) : Type 0 where
  distinct' : HasDistinctKeys t.limiter.trackers
  same_limit' : t.limiter.max_attempts ≡ limit
  free' : t.limiter.locked ≡ false
  sum :
      (length (attempts t.limiter ip) + of_address ip t.in_flight
        ≤ length (attempts s.limiter ip) + of_address ip s.in_flight)
      ⊎ (length (attempts t.limiter ip) < limit)

removed :
    (ip j : String) (before after waiting : List String)
    → waiting ≡ before ++ j ∷ after
    → of_address ip waiting ≡ of_address ip (before ++ after) + (if str_eq j ip then 1 else 0)
unfolding of_address
removed ip j before after waiting e =
    rw e
      (ground (arith, of_address-append ip before (j ∷ after), of_address-append ip before after))

module _ (limit : ℕ) (ip : String) (s : System) (distinct : HasDistinctKeys s.limiter.trackers)
    (same : s.limiter.max_attempts ≡ limit) (free : s.limiter.locked ≡ false)
    (pos : 0 < limit) where
  entered-Moves :
      (j : String) (v : Verdict)
      → (rl : RateLimiter) → length (attempts rl ip) ≤ length (attempts s.limiter ip)
      → (str_eq j ip ≡ true → v ≡ allowed → length (attempts rl ip) < limit)
      → (length (attempts rl ip) + of_address ip (enter v j s.in_flight)
          ≤ length (attempts s.limiter ip) + of_address ip s.in_flight)
        ⊎ (length (attempts rl ip) < limit)
  unfolding enter of_address
  entered-Moves j allowed rl fewer below = ground (arith, below)
  entered-Moves j (limited n) rl fewer below = inl (omega arith)
  entered-Moves j panics rl fewer below = inl (omega arith)
  entered-Moves j hangs rl fewer below = inl (omega arith)

  clean-Moves :
      (now : ℕ)
      → Moves limit ip s (record { limiter = cleanup s.limiter now; in_flight = s.in_flight })
  unfolding cleanup
  clean-Moves now = record {
    distinct' = cleanup-HasDistinctKeys s.limiter.trackers now s.limiter.window distinct;
    same_limit' = same;
    free' = free;
    sum = inl (
        omega (
          arith,
          ap length (attempts-cleanup s.limiter ip now distinct),
          length-filter_expired (attempts s.limiter ip) now s.limiter.window,
        ));
  }

  Step-Moves : {t : System} → Step s t → Moves limit ip s t
  Step-Moves (arrive j now now') =
      let pos' : 0 < s.limiter.max_attempts = omega arith in
      let (_, _, free'') = check-ne-panics s.limiter j now now' free pos' in
      let (same', _) = check_settings s.limiter j now now' in
      record {
        distinct' = check-HasDistinctKeys s.limiter j now now' distinct;
        same_limit' = same' ∙ same;
        free' = free'';
        sum =
            entered-Moves j (check s.limiter j now now').0 (check s.limiter j now now').1
              (check-fewer s.limiter j ip now now' free pos')
              (λ e passes. omega (arith, check-below s.limiter j ip now now' free pos' e passes));
      }
  Step-Moves (record_outcome before after j code now e) =
      let (same', _, free'') = settle_settings s.limiter j code now in
      record {
        distinct' = settle-HasDistinctKeys s.limiter j code now distinct;
        same_limit' = same' ∙ same;
        free' = free'' ∙ free;
        sum = inl (
            ground (
              arith,
              removed ip j before after s.in_flight e,
              attempts-settle s.limiter j ip code now,
              settled-length (attempts s.limiter j) code now,
              eq_iff j ip,
            ));
      }
  Step-Moves (abandon before after j e) = record {
    distinct' = distinct;
    same_limit' = same;
    free' = free;
    sum = inl (ground (arith, removed ip j before after s.in_flight e));
  }
  Step-Moves (clean now) = clean-Moves now

module _ (limit : ℕ) (ip : String) where
  Reach-IsBounded :
      {s t : System}
      → (run : Reach s t) → 0 < limit
      → IsBounded limit ip (of_address ip s.in_flight) s
      → IsBounded limit ip (peak ip run) t
  unfolding peak
  Reach-IsBounded at_start pos h = h
  Reach-IsBounded (later {t} {u} run step) pos h =
      let was = Reach-IsBounded run pos h in
      let moved = Step-Moves limit ip t was.distinct was.same_limit was.free pos step in
      record {
        distinct = moved.distinct';
        same_limit = moved.same_limit';
        free = moved.free';
        flying = omega arith;
        room = ground (arith, moved.sum, was.room);
      }

-- Requests that overlap, on a new limiter with a limit of at least 1: after every run the recorded
-- failures of an address and its requests that are still in the handler are together fewer than the
-- limit and the most of its requests that were in the handler at once.
pub overlapping_bounded :
    (max_attempts window_secs : ℕ) (ip : String) (t : System)
    → 0 < max_attempts
    → (run : Reach (fresh max_attempts window_secs) t)
    → length (attempts t.limiter ip) + of_address ip t.in_flight < max_attempts + peak ip run
unfolding of_address new_rate_limiter lookup
overlapping_bounded max_attempts window_secs ip t pos run =
    (Reach-IsBounded max_attempts ip run pos (record {
      distinct = tt;
      same_limit = refl;
      free = refl;
      flying = omega arith;
      room = omega arith;
    })).room
