-- ===== src/Pool/Interleaving.antt =====
-- internal/sshpool/pool.go with several goroutines in it: `Exec`, `Session`, `Remove` and `Close` hold
-- the mutex for a look at the connections or a change of them, and not while they dial or run a
-- command; the increment of the gauge after a store is a step of its own, as the mutex is released
-- before it.
use agentic_hive.Prelude.{
  ℕ, ◌+◌, ◌≡◌, ◌∙◌, refl, subst, sym, ap, String, Bool, true, false, none, some, List, [], ◌∷◌,
  ◌++◌, arith, lookup, any, ◌==◌, length, HasDistinctKeys,
}
use agentic_hive.Pool.{Pool, dialled, raise, install, forget, reinstall, remove, close}
use agentic_hive.Pool.Counting.{
  Exceeds, due, over_at, raise-Exceeds, install-Exceeds, forget-Exceeds, remove-Exceeds,
  reinstall-Exceeds, dialled-Exceeds, close_empties,
}

-- Where a goroutine is, between two critical sections of its call.
pub data Place : Type 0 where
  dialling : String → Place
  connected : String → ℕ → Place
  -- The client is stored, and the gauge is not incremented.
  counting : String → ℕ → Place
  holding : String → ℕ → Place
  dialling_again : String → Place
  connected_again : String → ℕ → Place
  counting_again : Place

pub record System : Type 0 where
  pub pool : Pool
  pub calls : List Place

-- Where `getOrConnect` goes on after its second critical section.
abbrev pub installed_at : String → ℕ → Bool → Place
installed_at id c true = counting id c
installed_at id c false = holding id c

-- One step of a call, which goes on at other places (one, or none where it ends), with the pool.
pub data Moves (p : Pool) : Place → List Place → Pool → Type 0 where
  -- The client that the SSH library returns is a new one.
  dials :
      (id : String) (c : ℕ)
      → any (λ d. d == c) p.opened ≡ false
      → Moves p (dialling id) (connected id c ∷ []) (dialled c p)
  dial_fails : (id : String) → Moves p (dialling id) [] p
  installs :
      (id : String) (c : ℕ)
      → Moves p
          (connected id c)
          (installed_at id (install id c p).0 (install id c p).1 ∷ [])
          (install id c p).2
  counts : (id : String) (c : ℕ) → Moves p (counting id c) (holding id c ∷ []) (raise p)
  -- The client gives a session, or it is `Session` that gets none.
  ends : (id : String) (c : ℕ) → Moves p (holding id c) [] p
  forgets : (id : String) (c : ℕ) → Moves p (holding id c) (dialling_again id ∷ []) (forget id p)
  dials_again :
      (id : String) (c : ℕ)
      → any (λ d. d == c) p.opened ≡ false
      → Moves p (dialling_again id) (connected_again id c ∷ []) (dialled c p)
  redial_fails : (id : String) → Moves p (dialling_again id) [] p
  reinstalls :
      (id : String) (c : ℕ)
      → Moves p (connected_again id c) (counting_again ∷ []) (reinstall id c p)
  -- The call has no further effect on the pool, whether the client gives a session or not.
  counts_again : Moves p counting_again [] (raise p)

pub data Step (s : System) : System → Type 0 where
  finds :
      (id : String) (c : ℕ)
      → lookup id s.pool.conns ≡ some c
      → Step s (record { pool = s.pool; calls = holding id c ∷ s.calls })
  misses :
      (id : String)
      → lookup id s.pool.conns ≡ none
      → Step s (record { pool = s.pool; calls = dialling id ∷ s.calls })
  goes_on :
      {p : Pool} (before after : List Place) (place : Place) (next : List Place)
      → s.calls ≡ before ++ place ∷ after
      → Moves s.pool place next p
      → Step s (record { pool = p; calls = before ++ next ++ after })
  removes : (id : String) → Step s (record { pool = remove id s.pool; calls = s.calls })
  closes : Step s (record { pool = close s.pool; calls = s.calls })

pub data Reach (s : System) : System → Type 0 where
  at_start : Reach s s
  later : {t u : System} → Reach s t → Step t u → Reach s u

moves_over : {p q : Pool} {place : Place} {next : List Place} → Moves p place next q → ℕ → ℕ
unfolding over_at
moves_over {p} (reinstalls id c) n = over_at id p n
moves_over other n = n

step_over : {s t : System} → Step s t → ℕ → ℕ
unfolding moves_over
step_over (goes_on before after place next at_place move) n = moves_over move n
step_over other n = n

-- How often that came about.
unfoldable pub replaced : {s t : System} → Reach s t → ℕ
unfolding step_over
replaced at_start = 0
replaced (later run step) = step_over step (replaced run)

-- How many calls have stored a client and have still to increment the gauge.
unfoldable pub pending : List Place → ℕ
pending [] = 0
pending (counting id c ∷ ps) = 1 + pending ps
pending (counting_again ∷ ps) = 1 + pending ps
pending (other ∷ ps) = pending ps

pending-append : (ps qs : List Place) → pending (ps ++ qs) ≡ pending ps + pending qs
unfolding pending
pending-append [] qs = omega arith
pending-append (counting id c ∷ ps) qs = omega (arith, pending-append ps qs)
pending-append (counting_again ∷ ps) qs = omega (arith, pending-append ps qs)
pending-append (dialling id ∷ ps) qs = pending-append ps qs
pending-append (connected id c ∷ ps) qs = pending-append ps qs
pending-append (holding id c ∷ ps) qs = pending-append ps qs
pending-append (dialling_again id ∷ ps) qs = pending-append ps qs
pending-append (connected_again id c ∷ ps) qs = pending-append ps qs

pending-middle :
    (before middle after : List Place)
    → pending (before ++ middle ++ after) ≡ pending middle + (pending before + pending after)
pending-middle before middle after =
    omega (arith, pending-append (before ++ middle) after, pending-append before middle)

pending-place :
    (before after : List Place) (place : Place)
    → pending (before ++ place ∷ after) ≡ pending (place ∷ []) + (pending before + pending after)
pending-place before after place =
    let at_place : pending (place ∷ after) ≡ pending (place ∷ []) + pending after =
      pending-append (place ∷ []) after in
    omega (arith, at_place, pending-append before (place ∷ after))

Exceeds-same : {k l n : ℕ} (p : Pool) → k ≡ l → Exceeds k n p → Exceeds l n p
Exceeds-same p same v = record { distinct = v.distinct; counted = omega (arith, v.counted, same) }

pending-installed_at :
    (id : String) (c rest : ℕ) (new : Bool)
    → due new + rest ≡ pending (installed_at id c new ∷ []) + rest
unfolding pending
pending-installed_at id c rest true = refl
pending-installed_at id c rest false = refl

Moves-Exceeds :
    {n : ℕ} {p q : Pool} {place : Place} {next : List Place} (rest : ℕ)
    (move : Moves p place next q)
    → Exceeds (pending (place ∷ []) + rest) n p
    → Exceeds (pending next + rest) (moves_over move n) q
unfolding moves_over pending
Moves-Exceeds {n} {p} rest (dials id c new) v = dialled-Exceeds c p v
Moves-Exceeds rest (dial_fails id) v = v
Moves-Exceeds {n} {p} rest (installs id c) v =
    Exceeds-same _ (pending-installed_at id (install id c p).0 rest (install id c p).1)
      (install-Exceeds {k = rest} id c p (Exceeds-same p (omega arith) v))
Moves-Exceeds {n} {p} rest (counts id c) v =
    Exceeds-same _ (omega arith) (raise-Exceeds {k = rest} p (Exceeds-same p (omega arith) v))
Moves-Exceeds rest (ends id c) v = v
Moves-Exceeds {n} {p} rest (forgets id c) v = forget-Exceeds id p v
Moves-Exceeds {n} {p} rest (dials_again id c new) v = dialled-Exceeds c p v
Moves-Exceeds rest (redial_fails id) v = v
Moves-Exceeds {n} {p} rest (reinstalls id c) v =
    Exceeds-same _ (omega arith) (reinstall-Exceeds id c p v)
Moves-Exceeds {n} {p} rest counts_again v =
    Exceeds-same _ (omega arith) (raise-Exceeds {k = rest} p (Exceeds-same p (omega arith) v))

close-Exceeds : {k n : ℕ} (p : Pool) → Exceeds k n p → Exceeds k n (close p)
close-Exceeds p v =
    let (no_conns, counted) = close_empties p v in
    record {
      distinct = subst HasDistinctKeys (sym no_conns) tt;
      counted = omega (arith, counted, ap length no_conns);
    }

Step-Exceeds :
    {n : ℕ} {s t : System} (step : Step s t)
    → Exceeds (pending s.calls) n s.pool
    → Exceeds (pending t.calls) (step_over step n) t.pool
unfolding step_over pending
Step-Exceeds (finds id c there) v = v
Step-Exceeds (misses id absent) v = v
Step-Exceeds {n} {s} (goes_on before after place next at_place move) v =
    Exceeds-same _ (sym (pending-middle before next after)) (
      Moves-Exceeds (pending before + pending after) move
        (Exceeds-same s.pool (ap pending at_place ∙ pending-place before after place) v))
Step-Exceeds {n} {s} (removes id) v = remove-Exceeds id s.pool v
Step-Exceeds {n} {s} closes v = close-Exceeds s.pool v

-- From a pool and calls that count right, whatever steps are taken in whatever order: each server has
-- at most one connection in the pool; and the increments of the gauge, with those of the calls that
-- have stored a client and not come to the increment, are as many as its decrements, the connections in
-- the pool, and the times that a second connection was stored over one.
pub Reach-Exceeds :
    {s t : System} (run : Reach s t)
    → Exceeds (pending s.calls) 0 s.pool
    → Exceeds (pending t.calls) (replaced run) t.pool
unfolding replaced
Reach-Exceeds at_start v = v
Reach-Exceeds (later run step) v = Step-Exceeds step (Reach-Exceeds run v)
