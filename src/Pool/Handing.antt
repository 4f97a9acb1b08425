-- ===== src/Pool/Handing.antt =====
-- internal/sshpool/pool.go: the clients that the pool hands to its callers, whatever calls overlap.
mod Tests
use agentic_hive.Prelude.{
  ℕ, ◌+◌, ◌≡◌, sym, subst, refl, String, true, some, List, [], ◌∷◌, ◌++◌, arith, lookup, any, ◌==◌,
  HasDistinctKeys,
}
use agentic_hive.Pool.{Pool, new_pool}
use agentic_hive.Pool.Counting.{Exceeds, IsCounted}
use agentic_hive.Pool.Interleaving.{
  Place, System, Step, finds, misses, goes_on, removes, closes, Reach, at_start, later, Moves,
  pending, Reach-Exceeds,
}
use agentic_hive.Pool.Owning.{
  stored, carried, is_open, Owned, owners, carried-append, stored-lookup, Owned-same, Moves-Owned,
  remove-Owned, close-Owned,
}

-- The calls before and after, and those in the middle.
module _ (d : ℕ) (before after : List Place) where
  carried-middle :
      (middle : List Place)
      → carried d (before ++ middle ++ after)
        ≡ owners middle (λ e. carried e before + carried e after) d
  unfolding owners
  carried-middle middle =
      omega (arith, carried-append d (before ++ middle) after, carried-append d before middle)

  carried-place :
      (place : Place)
      → carried d (before ++ place ∷ after)
        ≡ owners (place ∷ []) (λ e. carried e before + carried e after) d
  unfolding owners
  carried-place place =
      let at_place : carried d (place ∷ after) ≡ carried d (place ∷ []) + carried d after =
        carried-append d (place ∷ []) after in
      omega (arith, at_place, carried-append d before (place ∷ after))

HasOwners : System → Type 0
HasOwners s = Owned s.pool (λ d. carried d s.calls)

goes_on-HasOwners :
    (before after : List Place) (place : Place) (next : List Place) (p q : Pool)
    → Moves p place next q
    → Owned p (λ d. carried d (before ++ place ∷ after))
    → Owned q (λ d. carried d (before ++ next ++ after))
goes_on-HasOwners before after place next p q move v =
    Owned-same _ _ q (λ d. sym (carried-middle d before after next))
      (Moves-Owned _ move (Owned-same _ _ p (λ d. carried-place d before after place) v))

Step-HasOwners :
    {s t : System} → Step s t → HasDistinctKeys s.pool.conns → HasOwners s → HasOwners t
unfolding HasOwners carried
Step-HasOwners (finds id c there) distinct v = v
Step-HasOwners (misses id absent) distinct v = v
Step-HasOwners {s} {t} (goes_on before after place next at_place move) distinct v =
    goes_on-HasOwners before after place next s.pool t.pool move
      (subst (λ calls. Owned s.pool (λ d. carried d calls)) at_place v)
Step-HasOwners {s} (removes id) distinct v = remove-Owned _ id s.pool v
Step-HasOwners {s} closes distinct v = close-Owned _ s.pool distinct v

-- The pool as `New` makes it, and no call.
abbrev pub start : System
start = record { pool = new_pool; calls = [] }

start-counted : Exceeds (pending start.calls) 0 start.pool
unfolding pending
start-counted = record { distinct = tt; counted = refl }

start-HasOwners : HasOwners start
unfolding HasOwners Owned stored carried is_open
start-HasOwners d = omega arith

Reach-HasOwners : {t : System} → Reach start t → HasOwners t
Reach-HasOwners at_start = start-HasOwners
Reach-HasOwners (later run step) =
    Step-HasOwners step (Reach-Exceeds run start-counted).distinct (Reach-HasOwners run)

-- In every state that a new pool comes to by whatever steps of overlapping calls, if each client that
-- is dialled is none of those that are open: a client that is in the pool is open, it is in the pool
-- for one server only, and no call is still to store it.
pub lookup-IsOpen :
    {t : System} (run : Reach start t) (id : String) (c : ℕ)
    → lookup id t.pool.conns ≡ some c
    → (any (λ d. d == c) t.pool.opened ≡ true) × (stored c t.pool.conns + carried c t.calls ≡ 1)
unfolding HasOwners Owned is_open
lookup-IsOpen {t} run id c there =
    let owned = Reach-HasOwners run c in
    let once = stored-lookup id c t.pool.conns there in
    (ground (arith, owned, once), ground (arith, owned, once))
