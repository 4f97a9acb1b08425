-- ===== src/RateLimit.antt =====
-- internal/auth/ratelimit.go: the limiter of failed logins, one tracker for each client address.
-- Times are nanoseconds on one clock. `t.Before(now.Add(-window))` is written
-- `t + window < now`, which is the same comparison without a negative number.
pub mod Expiry
pub mod Decisions
pub mod Invariant
pub mod Lockout
pub mod History
pub mod Clearing
pub mod Overlapping
pub mod Refining
pub mod Refinement
mod Tests
use agentic_hive.Prelude.{
  ℕ, ◌+◌, ◌-◌, ◌*◌, ◌/◌, String, Bool, true, false, Option, none, some, List, [], ◌∷◌, ◌++◌, ltb,
  leb, ◌==◌, if◌then◌else◌, length, lookup, insert, delete,
}

-- `locked` tells that the mutex is held by a goroutine that will not give it back.
pub record RateLimiter : Type 0 where
  pub trackers : List (String × List ℕ)
  pub max_attempts : ℕ
  pub window : ℕ
  pub locked : Bool

abbrev pub second : ℕ
second = 1000000000

-- For a window of at least a second, and below 2 ^ 63 nanoseconds: any other makes the ticker of the
-- clean-up panic, or does not fit a duration.
pub new_rate_limiter : ℕ → ℕ → RateLimiter
new_rate_limiter max_attempts window_secs = record {
  trackers = [];
  max_attempts = max_attempts;
  window = window_secs * second;
  locked = false;
}

-- The loop stops at the first attempt that is still in the window, and keeps the rest.
pub filter_expired : List ℕ → ℕ → ℕ → List ℕ
filter_expired [] now window = []
filter_expired (t ∷ ts) now window =
    let rest = filter_expired ts now window in if ltb (t + window) now then rest else t ∷ ts

-- A missing tracker is made empty.
abbrev pub attempts_of : Option (List ℕ) → List ℕ
attempts_of none = []
attempts_of (some ts) = ts

abbrev pub attempts : RateLimiter → String → List ℕ
attempts rl ip = attempts_of (lookup ip rl.trackers)

-- Seconds, rounded up, until the oldest attempt expires; at least 1.
pub retry_after : ℕ → ℕ → ℕ → ℕ
retry_after oldest window now =
    let secs = (oldest + window - now + (second - 1)) / second in if ltb secs 1 then 1 else secs

pub data Verdict : Type 0 where
  allowed : Verdict
  limited : ℕ → Verdict
  panics : Verdict
  hangs : Verdict

-- `attempts[0]` on the branch of the limit; it is out of range for an empty slice.
abbrev refuse : List ℕ → ℕ → ℕ → Verdict
refuse [] window now = panics
refuse (t ∷ ts) window now = limited (retry_after t window now)

abbrev is_empty : List ℕ → Bool
is_empty [] = true
is_empty (t ∷ ts) = false

-- The part of the middleware before the wrapped handler; `now'` is the second reading of the clock.
pub check : RateLimiter → String → ℕ → ℕ → Verdict × RateLimiter
unfolding retry_after
check rl ip now now' =
    let live = filter_expired (attempts rl ip) now rl.window in
    let rl' = record rl { trackers = insert ip live rl.trackers } in
    if rl.locked
    then (hangs, rl)
    else if leb rl.max_attempts (length live)
    then (refuse live rl.window now', record rl' { locked = is_empty live })
    else (allowed, rl')

-- The part after it: `code` is the status that the handler wrote.
pub settle : RateLimiter → String → ℕ → ℕ → RateLimiter
settle rl ip code now =
    let tracker = attempts rl ip in
    record rl {
      trackers =
          if code == 401
          then insert ip (tracker ++ now ∷ []) rl.trackers
          else if ltb code 400
          then delete ip rl.trackers
          else insert ip tracker rl.trackers;
    }

-- One tick of `cleanupLoop`.
pub cleanup_trackers : List (String × List ℕ) → ℕ → ℕ → List (String × List ℕ)
cleanup_trackers [] now window = []
cleanup_trackers ((ip, ts) ∷ rest) now window =
    let live = filter_expired ts now window in
    let kept = cleanup_trackers rest now window in if is_empty live then kept else (ip, live) ∷ kept

pub cleanup : RateLimiter → ℕ → RateLimiter
unfolding cleanup_trackers
cleanup rl now = record rl { trackers = cleanup_trackers rl.trackers now rl.window }

-- A request that is served with no other request of the address in between: when it came, when
-- the limit was computed, the status that the handler gives, and when it was recorded.
pub record Attempt : Type 0 where
  pub ip : String
  pub arrived : ℕ
  pub measured : ℕ
  pub code : ℕ
  pub finished : ℕ

abbrev pub serve_on : Verdict → RateLimiter → Attempt → Verdict × RateLimiter
serve_on allowed rl a = (allowed, settle rl a.ip a.code a.finished)
serve_on v rl a = (v, rl)

pub serve : RateLimiter → Attempt → Verdict × RateLimiter
serve rl a = let (v, rl') = check rl a.ip a.arrived a.measured in serve_on v rl' a
