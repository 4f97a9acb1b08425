-- ===== src/Pool/Handing/Tests.antt =====
-- Two calls of `Exec` that overlap, of which one stores its second client over the other's.
use agentic_hive.Prelude.{◌+◌, ◌≡◌, refl, true, [], ◌∷◌, lookup, any, ◌==◌, insert, delete}
use agentic_hive.Pool.{install, forget, reinstall}
use agentic_hive.Pool.Counting.{Exceeds}
use agentic_hive.Pool.Interleaving.{
  dialling, connected, holding, dialling_again, connected_again, System, dials, installs, forgets,
  dials_again, reinstalls, finds, misses, goes_on, Reach, at_start, later, replaced, pending,
  counting, counting_again, counts, Reach-Exceeds,
}
use agentic_hive.Pool.Owning.{stored, carried}
use agentic_hive.Pool.Handing.{start, lookup-IsOpen}

-- Two calls that hold the client 3; the first forgets it.
abbrev one_forgot : System
one_forgot = record {
  pool = record { conns = []; raised = 1; lowered = 1; opened = 3 ∷ [] };
  calls = holding "v1" 3 ∷ dialling_again "v1" ∷ [];
}

one_forgot_run : Reach start one_forgot
unfolding install forget lookup insert delete
one_forgot_run =
    let asked = later at_start (misses "v1" refl) in
    let dialled_3 = later asked (goes_on [] [] (dialling "v1") _ refl (dials "v1" 3 refl)) in
    let stored_3 = later dialled_3 (goes_on [] [] (connected "v1" 3) _ refl (installs "v1" 3)) in
    let held = later stored_3 (goes_on [] [] (counting "v1" 3) _ refl (counts "v1" 3)) in
    let held_twice = later held (finds "v1" 3 refl) in
    later held_twice (goes_on (holding "v1" 3 ∷ []) [] (holding "v1" 3) _ refl (forgets "v1" 3))

-- The other makes the client 4, and the first stores 5 over it; neither has incremented the gauge.
abbrev one_over : System
one_over = record {
  pool = record { conns = ("v1", 5) ∷ []; raised = 1; lowered = 1; opened = 5 ∷ 4 ∷ 3 ∷ [] };
  calls = counting "v1" 4 ∷ holding "v1" 3 ∷ counting_again ∷ [];
}

one_over_run : Reach start one_over
unfolding install reinstall lookup insert
one_over_run =
    let again = dialling_again "v1" in
    let busy = holding "v1" 3 in
    let asked = later one_forgot_run (misses "v1" refl) in
    let dialled_4 =
      later asked (goes_on [] (busy ∷ again ∷ []) (dialling "v1") _ refl (dials "v1" 4 refl)) in
    let stored_4 =
      later dialled_4
        (goes_on [] (busy ∷ again ∷ []) (connected "v1" 4) _ refl (installs "v1" 4)) in
    let held = counting "v1" 4 in
    let dialled_5 =
      later stored_4 (goes_on (held ∷ busy ∷ []) [] again _ refl (dials_again "v1" 5 refl)) in
    later dialled_5
      (goes_on (held ∷ busy ∷ []) [] (connected_again "v1" 5) _ refl (reinstalls "v1" 5))

start-counted : Exceeds (pending start.calls) 0 start.pool
unfolding pending
start-counted = record { distinct = tt; counted = refl }

Reach-Exceeds_example : Exceeds (pending one_over.calls) (replaced one_over_run) one_over.pool
Reach-Exceeds_example = Reach-Exceeds one_over_run start-counted

lookup-IsOpen_example :
    (any (λ d. d == 5) one_over.pool.opened ≡ true)
    × (stored 5 one_over.pool.conns + carried 5 one_over.calls ≡ 1)
unfolding lookup
lookup-IsOpen_example = lookup-IsOpen one_over_run "v1" 5 refl
