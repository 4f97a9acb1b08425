-- ===== src/Terminal/Idle.antt =====
-- When the idle watcher closes a connection.
use agentic_hive.Prelude.{
  ℕ, zero, suc, ◌+◌, ◌-◌, ◌≤◌, ◌<◌, ◌≡◌, refl, some, leb, inl, inr, Bool-cases, arith,
}
use agentic_hive.Terminal.{tick_interval, watch, second}

tick_interval_lem :
    (timeout : ℕ) → (1 ≤ tick_interval timeout) × (tick_interval timeout ≤ timeout + second)
unfolding tick_interval
tick_interval_lem timeout = (ground arith, ground arith)

module _ (timeout : ℕ) (last_activity : ℕ → ℕ) where
  -- With a timeout above 0, a connection is closed at a time only after an idle time of at least the timeout.
  pub watch-idle :
      (ticks prev t : ℕ)
      → 0 < timeout
      → watch timeout last_activity ticks prev ≡ some t
      → last_activity t + timeout ≤ t
  unfolding watch
  watch-idle zero prev t h e = cc
  watch-idle (suc ticks) prev t h e =
      ground (arith, watch-idle ticks (prev + tick_interval timeout) t h)

  -- A connection with no activity after a time, whose watcher has begun before the timeout has passed
  -- since then, is closed before one more tick than the timeout has passed; as many ticks as there are
  -- nanoseconds until the end of the timeout are enough.
  pub watch-closes :
      (ticks prev quiet : ℕ)
      → ((t : ℕ) → last_activity t ≤ quiet)
      → prev < quiet + timeout
      → quiet + timeout ≤ prev + ticks
      → (t : ℕ) × (watch timeout last_activity ticks prev ≡ some t)
        × (t < quiet + timeout + tick_interval timeout)
  unfolding watch
  watch-closes zero prev quiet still open' enough = absurd (omega arith)
  watch-closes (suc ticks) prev quiet still open' enough =
      let now = prev + tick_interval timeout in
      let (positive, bound) = tick_interval_lem timeout in
      elim (Bool-cases (leb timeout (now - last_activity now))) [
        | inl idle ↦ (now, rw idle refl, omega arith)
        | inr busy ↦
            let soon : now < quiet + timeout = ground (arith, still now) in
            let (t, closed, before) = watch-closes ticks now quiet still soon (omega arith) in
            (t, rw busy closed, before)
      ]
