-- ===== src/RateLimit/Lockout.antt =====
-- The lock-out of an address that fails as often as the limit allows.
use agentic_hive.Prelude.{
  ℕ, ◌+◌, ◌≤◌, ◌<◌, ◌≡◌, refl, sym, ap, subst, ◌∙◌, String, false, List, [], ◌∷◌, ◌++◌, arith,
  length, All, str_eq_refl, length-append,
}
use agentic_hive.RateLimit.{
  RateLimiter, filter_expired, attempts, retry_after, allowed, limited, check, settle, Attempt,
  serve,
}
use agentic_hive.RateLimit.Expiry.{
  Between, Between-append, select-all_in_window, filter_expired-eq-select,
}
use agentic_hive.RateLimit.Decisions.{attempts-check, attempts-settle}

-- The requests of a history, one after the other.
pub run : RateLimiter → List Attempt → RateLimiter
run rl [] = rl
run rl (a ∷ later) = run (serve rl a).1 later

-- Failed logins of one address that all come, and are recorded, in the window of a first one.
abbrev pub Failures : String → ℕ → ℕ → List Attempt → Type 0
Failures ip start window seq =
    All (λ a. (a.ip ≡ ip) × (a.code ≡ 401) × (start ≤ a.finished) × (a.arrived ≤ start + window))
      seq

-- Each request comes after the one before it was recorded.
abbrev pub InTurn : ℕ → List Attempt → Type 0
InTurn clock [] = Unit
InTurn clock (a ∷ later) = (clock ≤ a.arrived) × (a.arrived ≤ a.finished) × InTurn a.finished later

filter_expired-early :
    (ts : List ℕ) (start clock now window : ℕ)
    → now ≤ start + window
    → Between start clock ts
    → filter_expired ts now window ≡ ts
filter_expired-early ts start clock now window le order =
    filter_expired-eq-select now window start clock ts order
    ∙ select-all_in_window now window start clock ts le order

serve-allowed :
    (rl : RateLimiter) (a : Attempt)
    → (check rl a.ip a.arrived a.measured).0 ≡ allowed
    → (serve rl a).1 ≡ settle (check rl a.ip a.arrived a.measured).1 a.ip a.code a.finished
unfolding serve
serve-allowed rl a e = ground arith

serve_settings :
    (rl : RateLimiter) (a : Attempt)
    → rl.locked ≡ false
    → 0 < rl.max_attempts
    → ((serve rl a).1.max_attempts ≡ rl.max_attempts)
      × ((serve rl a).1.window ≡ rl.window)
      × ((serve rl a).1.locked ≡ false)
unfolding serve check settle
serve_settings rl a free pos = ground arith

serve_failure :
    (rl : RateLimiter) (a : Attempt) (start clock : ℕ)
    → rl.locked ≡ false
    → a.code ≡ 401
    → a.arrived ≤ start + rl.window
    → Between start clock (attempts rl a.ip)
    → length (attempts rl a.ip) < rl.max_attempts
    → attempts (serve rl a).1 a.ip ≡ attempts rl a.ip ++ a.finished ∷ []
serve_failure rl a start clock free failed early order room =
    let kept =
      filter_expired-early (attempts rl a.ip) start clock a.arrived rl.window early order in
    let passes : (check rl a.ip a.arrived a.measured).0 ≡ allowed =
      unfold check in ground (arith, kept) in
    ap (λ r. attempts r a.ip) (serve-allowed rl a passes)
    ∙ ground (
      arith,
      kept,
      attempts-check rl a.ip a.ip a.arrived a.measured free,
      attempts-settle (check rl a.ip a.arrived a.measured).1 a.ip a.ip a.code a.finished,
      str_eq_refl a.ip,
    )

serve_failure_at :
    (rl : RateLimiter) (a : Attempt) (ip : String) (start clock : ℕ)
    → a.ip ≡ ip
    → rl.locked ≡ false
    → a.code ≡ 401
    → a.arrived ≤ start + rl.window
    → Between start clock (attempts rl ip)
    → length (attempts rl ip) < rl.max_attempts
    → attempts (serve rl a).1 ip ≡ attempts rl ip ++ a.finished ∷ []
serve_failure_at rl a ip start clock same free failed early order room =
    subst (λ j. attempts (serve rl a).1 j ≡ attempts rl j ++ a.finished ∷ []) same
      (serve_failure rl a start clock free failed early
        (subst (λ j. Between start clock (attempts rl j)) (sym same) order)
        (subst (λ j. length (attempts rl j) < rl.max_attempts) (sym same) room))

-- The limiter after failures: only the address's own attempts have grown.
record HasRecorded (rl rl' : RateLimiter) (ip : String) (start : ℕ) (seq : List Attempt)
    : Type 0 where
  grown : length (attempts rl' ip) ≡ length (attempts rl ip) + length seq
  recent : (high : ℕ) × Between start high (attempts rl' ip)
  same_limit : rl'.max_attempts ≡ rl.max_attempts
  same_window : rl'.window ≡ rl.window
  unlocked : rl'.locked ≡ false

run-HasRecorded :
    (seq : List Attempt) (rl : RateLimiter) (ip : String) (start clock : ℕ)
    → rl.locked ≡ false
    → Failures ip start rl.window seq
    → InTurn clock seq
    → Between start clock (attempts rl ip)
    → length (attempts rl ip) + length seq ≤ rl.max_attempts
    → HasRecorded rl (run rl seq) ip start seq
unfolding run
run-HasRecorded [] rl ip start clock free fails turn order room = record {
  grown = omega arith;
  recent = (clock, order);
  same_limit = refl;
  same_window = refl;
  unlocked = free;
}
run-HasRecorded (a ∷ later) rl ip start clock free fails turn order room =
    let ((same, failed, _, early), fails') = fails in
    let (limit', window', free') = serve_settings rl a free (omega arith) in
    let grew = serve_failure_at rl a ip start clock same free failed early order (omega arith) in
    let order' : Between start a.finished (attempts (serve rl a).1 ip) =
      rw grew (Between-append start clock a.finished (attempts rl ip) order (omega arith)) in
    let size = ap length grew ∙ length-append (attempts rl ip) (a.finished ∷ []) in
    let rest =
      run-HasRecorded later (serve rl a).1 ip start a.finished free' (rw window' fails') turn.2
        order' (omega arith) in
    record {
      grown = omega (arith, rest.grown);
      recent = rest.recent;
      same_limit = rest.same_limit ∙ limit';
      same_window = rest.same_window ∙ window';
      unlocked = rest.unlocked;
    }

check-limited :
    (rl : RateLimiter) (ip : String) (start high now now' : ℕ)
    → rl.locked ≡ false
    → 0 < rl.max_attempts
    → Between start high (attempts rl ip)
    → rl.max_attempts ≤ length (attempts rl ip)
    → now ≤ start + rl.window
    → (secs : ℕ) × ((check rl ip now now').0 ≡ limited secs)
unfolding check
check-limited rl ip start high now now' free pos order full early =
    let kept = filter_expired-early (attempts rl ip) start high now rl.window early order in
    refuse-limited (attempts rl ip) kept (omega arith) full
  where
    refuse-limited :
        (ts : List ℕ)
        → filter_expired (attempts rl ip) now rl.window ≡ ts
        → 0 < length ts
        → rl.max_attempts ≤ length ts
        → (secs : ℕ) × ((check rl ip now now').0 ≡ limited secs)
    refuse-limited [] e h k = elim h [ ]
    refuse-limited (t ∷ ts) e h k = (retry_after t rl.window now', ground arith)

-- The lock-out, with a free mutex and a limit of at least 1. An address that had no recorded
-- attempt fails as many times as the limit allows, in one window and one request after the other.
-- Until that window ends, its next request is refused with a `Retry-After`.
pub lockout :
    (rl : RateLimiter) (ip : String) (seq : List Attempt) (start now now' : ℕ)
    → rl.locked ≡ false
    → 0 < rl.max_attempts
    → attempts rl ip ≡ []
    → Failures ip start rl.window seq
    → InTurn start seq
    → length seq ≡ rl.max_attempts
    → now ≤ start + rl.window
    → (secs : ℕ) × ((check (run rl seq) ip now now').0 ≡ limited secs)
lockout rl ip seq start now now' free pos fresh fails turn all_used early =
    let after =
      run-HasRecorded seq rl ip start start free fails turn (rw fresh (omega arith))
        (rw fresh (omega arith)) in
    let (high, order) = after.recent in
    check-limited (run rl seq) ip start high now now' after.unlocked
      (omega (arith, after.same_limit)) order (omega (arith, after.grown, after.same_limit))
      (omega (arith, after.same_window))
