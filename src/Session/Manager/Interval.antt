-- ===== src/Session/Manager/Interval.antt =====
-- The channel of the polling interval: `UpdateInterval`, and the goroutine of `StartPolling`, which takes
-- nothing from the channel during a round of polling. The channel has one place. A call first takes
-- out what is there, if anything is, and then puts its own value in, for which it waits until the
-- place is free. The calls here do not overlap. `main` starts the polling before it serves, or never.
mod Tests
use agentic_hive.Prelude.{ℕ, ◌≡◌, ◌⊎◌, inl, inr, refl, Option, none, some, arith, ap, sym, subst}

-- Where a call is: before its first and before its second step.
pub data Call : Type 0 where
  no_call : Call
  arrived drained : ℕ → Call

-- Where the goroutine is: in its `select`, in `pollAll`, or not there.
pub data Loop : Type 0 where
  listening in_round absent : Loop

pub record State : Type 0 where
  -- the place of the channel
  pub pending : Option ℕ
  pub call : Call
  pub loop : Loop
  -- the interval of the ticker
  pub interval : ℕ
  -- the value of the latest call, or the interval of the start
  pub latest : ℕ

abbrev pub begun : Loop → ℕ → State
begun loop interval = record {
  pending = none;
  call = no_call;
  loop = loop;
  interval = interval;
  latest = interval;
}

pub data Step (s : State) : State → Type 0 where
  calls : (d : ℕ) → s.call ≡ no_call → Step s (record s { call = arrived d; latest = d })
  drains : (d : ℕ) → s.call ≡ arrived d → Step s (record s { pending = none; call = drained d })
  sends :
      (d : ℕ)
      → s.call ≡ drained d
      → s.pending ≡ none
      → Step s (record s { pending = some d; call = no_call })
  resets :
      (d : ℕ)
      → s.loop ≡ listening
      → s.pending ≡ some d
      → Step s (record s { pending = none; interval = d })
  ticks : s.loop ≡ listening → Step s (record s { loop = in_round })
  round_ends : s.loop ≡ in_round → Step s (record s { loop = listening })
  -- `Stop`, or the end of the context
  stops : s.loop ≡ listening → Step s (record s { loop = absent })

pub data Reach (s : State) : State → Type 0 where
  at_start : Reach s s
  later : {t u : State} → Reach s t → Step t u → Reach s u

-- What holds of the channel, by where the call is.
abbrev pub Follows : Call → (pending : Option ℕ) → (interval latest : ℕ) → Type 0
Follows no_call pending interval latest =
    (pending ≡ some latest) ⊎ ((pending ≡ none) × (interval ≡ latest))
Follows (arrived d) pending interval latest = latest ≡ d
Follows (drained d) pending interval latest = (pending ≡ none) × (latest ≡ d)

abbrev pub IsFollowed : State → Type 0
IsFollowed s = Follows s.call s.pending s.interval s.latest

reset-Follows :
    (call : Call) (d interval latest : ℕ)
    → Follows call (some d) interval latest
    → Follows call none d latest
reset-Follows no_call d interval latest h = inr (refl, ground (arith, h))
reset-Follows (arrived e) d interval latest h = h
reset-Follows (drained e) d interval latest h = absurd (ground (arith, h))

Step-IsFollowed : {s t : State} → Step s t → IsFollowed s → IsFollowed t
Step-IsFollowed (calls d idle) h = refl
Step-IsFollowed {s} (drains d here) h =
    (refl, subst (λ c. Follows c s.pending s.interval s.latest) here h)
Step-IsFollowed {s} (sends d here free) h =
    let sent = subst (λ c. Follows c s.pending s.interval s.latest) here h in
    inl (ap some (sym sent.1))
Step-IsFollowed {s} (resets d on full) h =
    reset-Follows s.call d s.interval s.latest
      (subst (λ p. Follows s.call p s.interval s.latest) full h)
Step-IsFollowed (ticks on) h = h
Step-IsFollowed (round_ends on) h = h
Step-IsFollowed (stops on) h = h

-- Whether the goroutine listens, is in a round of polling or is not there: a call of `UpdateInterval`,
-- where no other is under way, never waits, since the place is free once it has drained the channel; and
-- when no call is under way, the value of the latest one is in the channel, or the channel is empty
-- and it is the interval of the ticker.
pub Reach-IsFollowed :
    (loop : Loop) (interval : ℕ) (s : State) → Reach (begun loop interval) s → IsFollowed s
Reach-IsFollowed loop interval s at_start = inr (refl, refl)
Reach-IsFollowed loop interval s (later {t} run step) =
    Step-IsFollowed step (Reach-IsFollowed loop interval t run)
