-- ===== src/RateLimit/Invariant.antt =====
-- What holds of the limiter between requests.
use agentic_hive.Prelude.{
  ℕ, ◌≤◌, ◌<◌, ◌≡◌, refl, ◌∙◌, String, false, List, [], ◌∷◌, ◌++◌, arith, length, lookup,
  str_eq_refl, HasDistinctKeys, insert-HasDistinctKeys, delete-HasDistinctKeys, length-append,
}
use agentic_hive.RateLimit.{
  RateLimiter, filter_expired, attempts, Verdict, allowed, check, settle, Attempt, serve_on, serve,
  new_rate_limiter,
}
use agentic_hive.RateLimit.Expiry.{
  Between, Between-mono, Between-append, filter_expired-Between, length-filter_expired,
}
use agentic_hive.RateLimit.Decisions.{
  attempts-check, attempts-settle, settled, settle_settings, check_settings, check-ne-panics,
}

-- At a time: addresses stand once, attempts are in the order of time and not in the future, no
-- address has more attempts than the limit, and the mutex is free.
pub record IsWellFormed (now : ℕ) (rl : RateLimiter) : Type 0 where
  pub distinct : HasDistinctKeys rl.trackers
  pub ordered : (ip : String) → Between 0 now (attempts rl ip)
  pub bounded : (ip : String) → length (attempts rl ip) ≤ rl.max_attempts
  pub free : rl.locked ≡ false
  pub positive : 0 < rl.max_attempts

pub new_rate_limiter-IsWellFormed :
    (max_attempts window_secs : ℕ)
    → 0 < max_attempts
    → IsWellFormed 0 (new_rate_limiter max_attempts window_secs)
unfolding new_rate_limiter lookup
new_rate_limiter-IsWellFormed max_attempts window_secs pos = record {
  distinct = tt;
  ordered = λ ip. omega arith;
  bounded = λ ip. omega arith;
  free = refl;
  positive = pos;
}

pub check-HasDistinctKeys :
    (rl : RateLimiter) (ip : String) (now now' : ℕ)
    → HasDistinctKeys rl.trackers
    → HasDistinctKeys (check rl ip now now').1.trackers
unfolding check
check-HasDistinctKeys rl ip now now' h =
    ground (
      arith,
      insert-HasDistinctKeys ip (filter_expired (attempts rl ip) now rl.window) rl.trackers h,
    )

pub settle-HasDistinctKeys :
    (rl : RateLimiter) (ip : String) (code now : ℕ)
    → HasDistinctKeys rl.trackers
    → HasDistinctKeys (settle rl ip code now).trackers
unfolding settle
settle-HasDistinctKeys rl ip code now h = ground (
  arith,
  insert-HasDistinctKeys ip (attempts rl ip ++ now ∷ []) rl.trackers h,
  insert-HasDistinctKeys ip (attempts rl ip) rl.trackers h,
  delete-HasDistinctKeys ip rl.trackers h,
)

module _ (rl : RateLimiter) (ip : String) (clock now now' : ℕ) (wf : IsWellFormed clock rl)
    (after : clock ≤ now) where
  check-ordered : (j : String) → Between 0 now (attempts (check rl ip now now').1 j)
  check-ordered j = ground (
    arith,
    attempts-check rl ip j now now' wf.free,
    filter_expired-Between now rl.window 0 now (attempts rl ip),
    Between-mono 0 clock 0 now (attempts rl ip) (omega arith) after (wf.ordered ip),
    Between-mono 0 clock 0 now (attempts rl j) (omega arith) after (wf.ordered j),
  )

  check-bounded : (j : String) → length (attempts (check rl ip now now').1 j) ≤ rl.max_attempts
  check-bounded j = ground (
    arith,
    attempts-check rl ip j now now' wf.free,
    length-filter_expired (attempts rl ip) now rl.window,
    wf.bounded ip,
    wf.bounded j,
  )

  pub check-IsWellFormed : IsWellFormed now (check rl ip now now').1
  check-IsWellFormed =
      let (_, _, free') = check-ne-panics rl ip now now' wf.free wf.positive in
      let (same, _) = check_settings rl ip now now' in
      record {
        distinct = check-HasDistinctKeys rl ip now now' wf.distinct;
        ordered = check-ordered;
        bounded = λ j. rw same (check-bounded j);
        free = free';
        positive = rw same wf.positive;
      }

  -- An allowed request leaves room for its own failure.
  pub check-allowed_room :
      (check rl ip now now').0 ≡ allowed
      → length (attempts (check rl ip now now').1 ip) < rl.max_attempts
  unfolding check
  check-allowed_room e =
      let seen = attempts-check rl ip ip now now' wf.free in ground (arith, seen, str_eq_refl ip)

settled-Between :
    (ts : List ℕ) (code clock now : ℕ)
    → clock ≤ now
    → Between 0 clock ts
    → Between 0 now (settled ts code now)
settled-Between ts code clock now le h =
    ground
      (arith, Between-append 0 clock now ts h le, Between-mono 0 clock 0 now ts (omega arith) le h)

module _ (rl : RateLimiter) (ip : String) (code clock now : ℕ) (wf : IsWellFormed clock rl)
    (after : clock ≤ now) (room : length (attempts rl ip) < rl.max_attempts) where
  settle-ordered : (j : String) → Between 0 now (attempts (settle rl ip code now) j)
  settle-ordered j = ground (
    arith,
    attempts-settle rl ip j code now,
    settled-Between (attempts rl ip) code clock now after (wf.ordered ip),
    Between-mono 0 clock 0 now (attempts rl j) (omega arith) after (wf.ordered j),
  )

  settle-bounded : (j : String) → length (attempts (settle rl ip code now) j) ≤ rl.max_attempts
  settle-bounded j = ground (
    arith,
    attempts-settle rl ip j code now,
    length-append (attempts rl ip) (now ∷ []),
    wf.bounded j,
  )

  pub settle-IsWellFormed : IsWellFormed now (settle rl ip code now)
  settle-IsWellFormed =
      let (same, _, free') = settle_settings rl ip code now in
      record {
        distinct = settle-HasDistinctKeys rl ip code now wf.distinct;
        ordered = settle-ordered;
        bounded = λ j. rw same (settle-bounded j);
        free = free' ∙ wf.free;
        positive = rw same wf.positive;
      }

IsWellFormed-later :
    (now later : ℕ) (rl : RateLimiter) → now ≤ later → IsWellFormed now rl → IsWellFormed later rl
IsWellFormed-later now later rl le wf = record {
  distinct = wf.distinct;
  ordered = λ ip. Between-mono 0 now 0 later (attempts rl ip) (omega arith) le (wf.ordered ip);
  bounded = wf.bounded;
  free = wf.free;
  positive = wf.positive;
}

serve_on-IsWellFormed :
    (v : Verdict) (rl : RateLimiter) (a : Attempt)
    → IsWellFormed a.arrived rl
    → a.arrived ≤ a.finished
    → (v ≡ allowed → length (attempts rl a.ip) < rl.max_attempts)
    → IsWellFormed a.finished (serve_on v rl a).1
serve_on-IsWellFormed allowed rl a wf le room =
    settle-IsWellFormed rl a.ip a.code a.arrived a.finished wf le (room refl)
serve_on-IsWellFormed _ rl a wf le room = IsWellFormed-later a.arrived a.finished rl le wf

-- Serving a request keeps the limiter well formed: its mutex is free, the attempts of each address
-- are in the order of time and not later than the clock, and no address has more of them than the
-- limit.
pub serve-IsWellFormed :
    (rl : RateLimiter) (a : Attempt) (clock : ℕ)
    → IsWellFormed clock rl
    → clock ≤ a.arrived
    → a.arrived ≤ a.finished
    → IsWellFormed a.finished (serve rl a).1
unfolding serve
serve-IsWellFormed rl a clock wf le le' =
    let (same, _) = check_settings rl a.ip a.arrived a.measured in
    serve_on-IsWellFormed (check rl a.ip a.arrived a.measured).0
      (check rl a.ip a.arrived a.measured).1 a
      (check-IsWellFormed rl a.ip clock a.arrived a.measured wf le) le'
      (λ e. rw same (check-allowed_room rl a.ip clock a.arrived a.measured wf le e))
