-- ===== src/RateLimit/Decisions.antt =====
-- What the limiter decides, and for whom.
use agentic_hive.Prelude.{
  ℕ, ◌+◌, ◌*◌, ◌≤◌, ◌<◌, ◌≡◌, refl, ◌∙◌, ◌≢◌, ◌↔◌, ◌⊎◌, String, false, List, [], ◌∷◌, ◌++◌, none,
  arith, ltb, length, select, if◌then◌else◌, lookup, lookup-insert, lookup-delete, eq_iff, str_eq,
  str_ne, HasDistinctKeys, lookup-IsFresh, ◌==◌,
}
use agentic_hive.RateLimit.{
  RateLimiter, filter_expired, attempts_of, attempts, retry_after, Verdict, allowed, panics, hangs,
  second, check, settle, cleanup_trackers, cleanup, Attempt, serve_on, serve,
}
use agentic_hive.RateLimit.Expiry.{
  Between, in_window, filter_expired-eq-select, filter_expired-filter_expired,
}

-- How many attempts of an address count at a time.
abbrev pub live_count : RateLimiter → String → ℕ → ℕ
live_count rl ip now = length (select (in_window now rl.window) (attempts rl ip))

-- Where the mutex is free and the recorded attempts are in the order of time, a request goes
-- through exactly when fewer attempts than the limit lie in the window.
pub check-allowed_iff :
    (rl : RateLimiter) (ip : String) (now now' low high : ℕ)
    → rl.locked ≡ false
    → Between low high (attempts rl ip)
    → ((check rl ip now now').0 ≡ allowed) ↔ (live_count rl ip now < rl.max_attempts)
unfolding check
check-allowed_iff rl ip now now' low high free order =
    rw (← filter_expired-eq-select now rl.window low high (attempts rl ip) order)
      (ground arith, ground arith)

-- `Retry-After` is at least a second. Once its seconds have passed, the window of the oldest attempt
-- has ended; and the header names less than a second more than that takes, unless it names the least value 1.
pub retry_after_bounds :
    (oldest window now : ℕ)
    → (1 ≤ retry_after oldest window now)
      × (oldest + window ≤ now + retry_after oldest window now * second)
      × ((now + retry_after oldest window now * second < oldest + window + second)
          ⊎ (retry_after oldest window now ≡ 1))
unfolding retry_after
retry_after_bounds oldest window now = (ground arith, ground arith, ground arith)

-- With a free mutex and a limit of at least 1 the middleware neither indexes an empty slice nor
-- waits for ever, and it gives the mutex back.
pub check-ne-panics :
    (rl : RateLimiter) (ip : String) (now now' : ℕ)
    → rl.locked ≡ false
    → 0 < rl.max_attempts
    → ((check rl ip now now').0 ≢ panics)
      × ((check rl ip now now').0 ≢ hangs)
      × ((check rl ip now now').1.locked ≡ false)
unfolding check
check-ne-panics rl ip now now' free pos = ground arith

-- With a limit of 0 and a free mutex, a request of an address that has no tracker indexes an empty
-- slice while it holds the mutex, and the next request, of whatever address, waits for ever.
pub zero_limit_hangs :
    (rl : RateLimiter) (ip ip' : String) (now now' later later' : ℕ)
    → rl.locked ≡ false
    → rl.max_attempts ≡ 0
    → lookup ip rl.trackers ≡ none
    → ((check rl ip now now').0 ≡ panics)
      × ((check (check rl ip now now').1 ip' later later').0 ≡ hangs)
unfolding check filter_expired
zero_limit_hangs rl ip ip' now now' later later' free zero_max fresh = ground arith

-- The attempts that `check` and `settle` leave, of each address.
pub attempts-check :
    (rl : RateLimiter) (ip j : String) (now now' : ℕ)
    → rl.locked ≡ false
    → attempts (check rl ip now now').1 j
      ≡ (if str_eq ip j then filter_expired (attempts rl ip) now rl.window else attempts rl j)
unfolding check
attempts-check rl ip j now now' free =
    ground (arith, lookup-insert ip j (filter_expired (attempts rl ip) now rl.window) rl.trackers)

abbrev pub settled : List ℕ → ℕ → ℕ → List ℕ
settled ts code now = if code == 401 then ts ++ now ∷ [] else if ltb code 400 then [] else ts

pub attempts-settle :
    (rl : RateLimiter) (ip j : String) (code now : ℕ)
    → attempts (settle rl ip code now) j
      ≡ (if str_eq ip j then settled (attempts rl ip) code now else attempts rl j)
unfolding settle
attempts-settle rl ip j code now = ground (
  arith,
  lookup-insert ip j (attempts rl ip ++ now ∷ []) rl.trackers,
  lookup-insert ip j (attempts rl ip) rl.trackers,
  lookup-delete ip j rl.trackers,
)

-- `settle` keeps the settings of the limiter.
pub settle_settings :
    (rl : RateLimiter) (ip : String) (code now : ℕ)
    → ((settle rl ip code now).max_attempts ≡ rl.max_attempts)
      × ((settle rl ip code now).window ≡ rl.window)
      × ((settle rl ip code now).locked ≡ rl.locked)
unfolding settle
settle_settings rl ip code now = (refl, refl, refl)

pub check_settings :
    (rl : RateLimiter) (ip : String) (now now' : ℕ)
    → ((check rl ip now now').1.max_attempts ≡ rl.max_attempts)
      × ((check rl ip now now').1.window ≡ rl.window)
unfolding check
check_settings rl ip now now' = ground arith

serve_on-other :
    (v : Verdict) (rl : RateLimiter) (a : Attempt) (other : String)
    → str_eq a.ip other ≡ false
    → attempts (serve_on v rl a).1 other ≡ attempts rl other
serve_on-other allowed rl a other ne =
    ground (arith, attempts-settle rl a.ip other a.code a.finished)
serve_on-other _ rl a other ne = refl

-- Where the mutex is free, a request of one address leaves the recorded attempts of every other
-- address as they were.
pub serve-other :
    (rl : RateLimiter) (a : Attempt) (other : String)
    → rl.locked ≡ false
    → a.ip ≢ other
    → attempts (serve rl a).1 other ≡ attempts rl other
unfolding serve
serve-other rl a other free ne =
    let apart = str_ne a.ip other ne in
    serve_on-other (check rl a.ip a.arrived a.measured).0 (check rl a.ip a.arrived a.measured).1 a
      other apart
    ∙ ground (arith, attempts-check rl a.ip other a.arrived a.measured free)

lookup-cleanup_trackers :
    (m : List (String × List ℕ)) (ip : String) (now window : ℕ)
    → HasDistinctKeys m
    → attempts_of (lookup ip (cleanup_trackers m now window))
      ≡ filter_expired (attempts_of (lookup ip m)) now window
unfolding cleanup_trackers lookup filter_expired
lookup-cleanup_trackers [] ip now window h = refl
lookup-cleanup_trackers ((j, ts) ∷ m) ip now window (f, h) =
    ground (arith, eq_iff j ip, lookup-cleanup_trackers m ip now window h, lookup-IsFresh j m f)

-- A tick of the cleanup expires every tracker.
pub attempts-cleanup :
    (rl : RateLimiter) (ip : String) (now : ℕ)
    → HasDistinctKeys rl.trackers
    → attempts (cleanup rl now) ip ≡ filter_expired (attempts rl ip) now rl.window
unfolding cleanup
attempts-cleanup rl ip now h = lookup-cleanup_trackers rl.trackers ip now rl.window h

-- Whether the cleanup has run before a request or not, at a time not later than the request, the
-- request gets the same verdict; no address has two trackers.
pub check-cleanup :
    (rl : RateLimiter) (ip : String) (earlier now now' : ℕ)
    → HasDistinctKeys rl.trackers
    → earlier ≤ now
    → (check (cleanup rl earlier) ip now now').0 ≡ (check rl ip now now').0
unfolding check cleanup
check-cleanup rl ip earlier now now' h le = ground (
  arith,
  lookup-cleanup_trackers rl.trackers ip earlier rl.window h,
  filter_expired-filter_expired (attempts rl ip) earlier now rl.window le,
)
