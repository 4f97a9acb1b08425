-- ===== src/Session/Manager/Interval/Tests.antt =====
-- Two settings updates during a round of polling.
use agentic_hive.Prelude.{refl, none}
use agentic_hive.Session.Manager.Interval.{
  State, drained, in_round, listening, begun, Reach, at_start, later, calls, drains, sends, ticks,
  IsFollowed, Reach-IsFollowed,
}

abbrev second : State
second = record { pending = none; call = drained 20; loop = in_round; interval = 30; latest = 20 }

second_run : Reach (begun listening 30) second
second_run =
    let busy = later at_start (ticks refl) in
    let first = later (later (later busy (calls 10 refl)) (drains 10 refl)) (sends 10 refl refl) in
    later (later first (calls 20 refl)) (drains 20 refl)

Reach-IsFollowed_example : IsFollowed second
Reach-IsFollowed_example = Reach-IsFollowed listening 30 second second_run
