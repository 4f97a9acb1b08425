-- ===== src/RateLimit/Refining.antt =====
-- What the limiter knows of a history, and that a check keeps it.
use agentic_hive.Prelude.{
  ℕ, ◌≤◌, ◌<◌, ◌≡◌, refl, ◌∙◌, inl, inr, String, false, not, List, [], ◌∷◌, arith, length, leb,
  str_eq, eq_iff, Bool-cases, HasDistinctKeys,
}
use agentic_hive.RateLimit.{RateLimiter, filter_expired, attempts, check, Attempt, refuse}
use agentic_hive.RateLimit.Expiry.{
  Between, Between-mono, filter_expired-eq-select, filter_expired-filter_expired,
}
use agentic_hive.RateLimit.Decisions.{attempts-check, check_settings, check-ne-panics}
use agentic_hive.RateLimit.Invariant.{check-HasDistinctKeys}
use agentic_hive.RateLimit.History.{is_allowed, History, allows}

-- The limiter knows the history up to attempts that expired at an earlier time.
pub record Refines (limit window clock : ℕ) (rl : RateLimiter) (h : History) : Type 0 where
  pub distinct : HasDistinctKeys rl.trackers
  pub free : rl.locked ≡ false
  pub same_limit : rl.max_attempts ≡ limit
  pub same_window : rl.window ≡ window
  pub ordered : (ip : String) → Between 0 clock (h ip)
  pub expired :
      (ip : String) → (e : ℕ) × (e ≤ clock) × (attempts rl ip ≡ filter_expired (h ip) e window)

is_allowed-refuse : (ts : List ℕ) (window now : ℕ) → is_allowed (refuse ts window now) ≡ false
is_allowed-refuse [] window now = refl
is_allowed-refuse (t ∷ ts) window now = refl

is_allowed-check :
    (rl : RateLimiter) (ip : String) (now now' : ℕ)
    → rl.locked ≡ false
    → is_allowed (check rl ip now now').0
      ≡ not (leb rl.max_attempts (length (filter_expired (attempts rl ip) now rl.window)))
unfolding check
is_allowed-check rl ip now now' free =
    elim (Bool-cases
      (leb rl.max_attempts (length (filter_expired (attempts rl ip) now rl.window)))) [
        | inl full ↦
            rw (free, full)
              (is_allowed-refuse (filter_expired (attempts rl ip) now rl.window) rl.window now')
        | inr room ↦ rw (free, room) refl
      ]

module _ (limit window clock : ℕ) (rl : RateLimiter) (h : History)
    (sim : Refines limit window clock rl h) where
  -- What the limiter keeps of an address at a later time, of its tracker and of its history.
  pub live-history :
      (ip : String) (now : ℕ)
      → clock ≤ now
      → filter_expired (attempts rl ip) now rl.window ≡ filter_expired (h ip) now window
  live-history ip now later =
      let (e, before, same) = sim.expired ip in
      rw (sim.same_window, same) (filter_expired-filter_expired (h ip) e now window (omega arith))

  pub decides :
      (a : Attempt)
      → clock ≤ a.arrived
      → is_allowed (check rl a.ip a.arrived a.measured).0 ≡ allows limit window h a
  decides a later =
      is_allowed-check rl a.ip a.arrived a.measured sim.free
      ∙ rw
          (
            sim.same_limit,
            live-history a.ip a.arrived later,
            filter_expired-eq-select a.arrived window 0 clock (h a.ip) (sim.ordered a.ip),
          )
          refl

  module _ (a : Attempt) (later : clock ≤ a.arrived) (positive : 0 < limit) where
    abbrev checked : RateLimiter
    checked = (check rl a.ip a.arrived a.measured).1

    checked-attempts :
        (j : String)
        → (e : ℕ) × (e ≤ a.arrived) × (attempts checked j ≡ filter_expired (h j) e window)
    checked-attempts j = elim (Bool-cases (str_eq a.ip j)) [
      | inl same ↦ (
        a.arrived,
        omega arith,
        ground (
          arith,
          attempts-check rl a.ip j a.arrived a.measured sim.free,
          live-history a.ip a.arrived later,
          eq_iff a.ip j,
        ),
      )
      | inr other ↦
          let (e, before, kept) = sim.expired j in
          (
            e,
            omega arith,
            ground (arith, attempts-check rl a.ip j a.arrived a.measured sim.free, kept),
          )
    ]

    pub checked-Refines : Refines limit window a.arrived checked h
    checked-Refines =
        let (same, same') = check_settings rl a.ip a.arrived a.measured in
        record {
          distinct = check-HasDistinctKeys rl a.ip a.arrived a.measured sim.distinct;
          free =
              (check-ne-panics rl a.ip a.arrived a.measured sim.free
                (rw sim.same_limit positive)).2;
          same_limit = same ∙ sim.same_limit;
          same_window = same' ∙ sim.same_window;
          ordered =
              λ ip. Between-mono 0 clock 0 a.arrived (h ip) (omega arith) later (sim.ordered ip);
          expired = checked-attempts;
        }
