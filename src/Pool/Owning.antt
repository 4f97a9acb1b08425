-- ===== src/Pool/Owning.antt =====
-- Who owns the open clients of internal/sshpool/pool.go while several goroutines are in it: the pool, or
-- the call that has just dialled one and has not stored it.
use agentic_hive.Prelude.{
  ℕ, ◌+◌, ◌≤◌, ◌≡◌, refl, String, Bool, true, false, not, ◌&&◌, some, List, [], ◌∷◌, ◌++◌, inl, inr,
  arith, lookup, insert, delete, any, ◌==◌, HasDistinctKeys, if◌then◌else◌, Option-cases,
}
use agentic_hive.Pool.{
  Pool, dialled, raise, install, forget, reinstall, remove, close, close_each, without,
}
use agentic_hive.Pool.Counting.{lookup-head, delete-head}
use agentic_hive.Pool.Interleaving.{
  Place, dialling, connected, holding, dialling_again, connected_again, counting, counting_again,
  counts, counts_again, installed_at, Moves, dials, dial_fails, installs, ends, forgets,
  dials_again, redial_fails, reinstalls,
}

-- For how many servers a client is stored.
unfoldable pub stored : ℕ → List (String × ℕ) → ℕ
stored d [] = 0
stored d ((id, c) ∷ m) = if c == d then 1 + stored d m else stored d m

-- How many calls have it and have not stored it.
unfoldable pub carried : ℕ → List Place → ℕ
carried d [] = 0
carried d (connected id c ∷ ps) = if c == d then 1 + carried d ps else carried d ps
carried d (connected_again id c ∷ ps) = if c == d then 1 + carried d ps else carried d ps
carried d (other ∷ ps) = carried d ps

with_one : ℕ → (ℕ → ℕ) → ℕ → ℕ
with_one c extra d = (if c == d then 1 else 0) + extra d

unfoldable pub is_open : ℕ → List ℕ → ℕ
is_open d cs = if any (λ e. e == d) cs then 1 else 0

-- Each client has one owner at most, and is open while it has one. `extra` are other owners.
unfoldable pub Owned : (p : Pool) (extra : ℕ → ℕ) → Type 0
Owned p extra = (d : ℕ) → stored d p.conns + extra d ≤ is_open d p.opened

pub carried-append :
    (d : ℕ) (ps qs : List Place) → carried d (ps ++ qs) ≡ carried d ps + carried d qs
unfolding carried
carried-append d [] qs = omega arith
carried-append d (connected id c ∷ ps) qs = ground (arith, carried-append d ps qs)
carried-append d (connected_again id c ∷ ps) qs = ground (arith, carried-append d ps qs)
carried-append d (dialling id ∷ ps) qs = carried-append d ps qs
carried-append d (holding id c ∷ ps) qs = carried-append d ps qs
carried-append d (dialling_again id ∷ ps) qs = carried-append d ps qs
carried-append d (counting id c ∷ ps) qs = carried-append d ps qs
carried-append d (counting_again ∷ ps) qs = carried-append d ps qs

stored-insert :
    (d : ℕ) (id : String) (c : ℕ) (m : List (String × ℕ))
    → stored d (insert id c m) ≤ (if c == d then 1 else 0) + stored d m
unfolding stored insert
stored-insert d id c [] = ground arith
stored-insert d id c ((j, e) ∷ m) = ground (arith, stored-insert d id c m)

stored-delete_le :
    (d : ℕ) (id : String) (m : List (String × ℕ)) → stored d (delete id m) ≤ stored d m
unfolding stored delete
stored-delete_le d id [] = omega arith
stored-delete_le d id ((j, e) ∷ m) = ground (arith, stored-delete_le d id m)

stored-delete :
    (d : ℕ) (id : String) (c : ℕ) (m : List (String × ℕ))
    → lookup id m ≡ some c
    → (if c == d then 1 else 0) + stored d (delete id m) ≤ stored d m
unfolding stored delete lookup
stored-delete d id c [] there = cc
stored-delete d id c ((j, e) ∷ m) there =
    ground (arith, stored-delete d id c m, stored-delete_le d id m)

pub stored-lookup :
    (id : String) (c : ℕ) (m : List (String × ℕ)) → lookup id m ≡ some c → 1 ≤ stored c m
unfolding stored lookup
stored-lookup id c [] there = cc
stored-lookup id c ((j, e) ∷ m) there = ground (arith, stored-lookup id c m)

any-without :
    (d c : ℕ) (cs : List ℕ)
    → any (λ e. e == d) (without c cs) ≡ (any (λ e. e == d) cs && not (c == d))
any-without d c [] = refl
any-without d c (e ∷ cs) = ground (arith, any-without d c cs)

module _ (extra : ℕ → ℕ) where
  dialled-Owned :
      (c : ℕ) (p : Pool)
      → any (λ d. d == c) p.opened ≡ false
      → Owned p extra
      → Owned (dialled c p) (with_one c extra)
  unfolding Owned with_one is_open
  dialled-Owned c p new v d = ground (arith, v d, new)

  install-Owned :
      (id : String) (c : ℕ) (p : Pool) → Owned p (with_one c extra) → Owned (install id c p).2 extra
  unfolding Owned with_one is_open install
  install-Owned id c p v d =
      ground (arith, v d, stored-insert d id c p.conns, any-without d c p.opened)

  raise-Owned : (p : Pool) → Owned p extra → Owned (raise p) extra
  unfolding Owned
  raise-Owned p v d = v d

  forget-Owned : (id : String) (p : Pool) → Owned p extra → Owned (forget id p) extra
  unfolding Owned forget
  forget-Owned id p v d = ground (arith, v d, stored-delete_le d id p.conns)

  reinstall-Owned :
      (id : String) (c : ℕ) (p : Pool) → Owned p (with_one c extra) → Owned (reinstall id c p) extra
  unfolding Owned with_one reinstall
  reinstall-Owned id c p v d = omega (arith, v d, stored-insert d id c p.conns)

  taken_out :
      (id : String) (c lowered : ℕ) (p : Pool)
      → lookup id p.conns ≡ some c
      → Owned p extra
      → Owned
          (record p { conns = delete id p.conns; lowered = lowered; opened = without c p.opened })
          extra
  unfolding Owned is_open
  taken_out id c lowered p there v d =
      ground (arith, v d, stored-delete d id c p.conns there, any-without d c p.opened)

  pub remove-Owned : (id : String) (p : Pool) → Owned p extra → Owned (remove id p) extra
  unfolding remove
  remove-Owned id p v = elim (Option-cases (lookup id p.conns)) [
    | inl absent ↦ rw (absent, remove) v
    | inr (c, there) ↦ rw (there, remove) (taken_out id c _ p there v)
  ]

  close_each-Owned :
      (m : List (String × ℕ)) (p : Pool)
      → p.conns ≡ m
      → HasDistinctKeys m
      → Owned p extra
      → Owned (close_each m p) extra
  unfolding close_each
  close_each-Owned [] p e distinct v = v
  close_each-Owned ((id, c) ∷ rest) p e distinct v =
      let there : lookup id p.conns ≡ some c = rw (e) (lookup-head id c rest) in
      close_each-Owned rest
        (record p {
          conns = delete id p.conns;
          lowered = p.lowered + 1;
          opened = without c p.opened;
        })
        (rw (e) (delete-head id c rest distinct)) distinct.1 (taken_out id c _ p there v)

  pub close-Owned : (p : Pool) → HasDistinctKeys p.conns → Owned p extra → Owned (close p) extra
  unfolding close
  close-Owned p distinct v = close_each-Owned p.conns p refl distinct v

-- The owners that are the same come to the same.
pub Owned-same :
    (extra extra' : ℕ → ℕ) (p : Pool)
    → ((d : ℕ) → extra d ≡ extra' d)
    → Owned p extra
    → Owned p extra'
unfolding Owned
Owned-same extra extra' p same v d = omega (arith, v d, same d)

-- The calls at the places, and those that `rest` counts.
unfoldable pub owners : List Place → (ℕ → ℕ) → ℕ → ℕ
owners places rest d = carried d places + rest d

carried-installed_at :
    (id : String) (c : ℕ) (new : Bool) (rest : ℕ → ℕ) (d : ℕ)
    → rest d ≡ carried d (installed_at id c new ∷ []) + rest d
unfolding carried
carried-installed_at id c true rest d = omega arith
carried-installed_at id c false rest d = omega arith

pub Moves-Owned :
    {p q : Pool} {place : Place} {next : List Place} (rest : ℕ → ℕ)
    → Moves p place next q
    → Owned p (owners (place ∷ []) rest)
    → Owned q (owners next rest)
unfolding owners carried with_one
Moves-Owned {p} rest (dials id c new) v =
    Owned-same _ _ _ (λ d. ground arith) (dialled-Owned _ c p new v)
Moves-Owned rest (dial_fails id) v = v
Moves-Owned {p} rest (installs id c) v =
    Owned-same _ _ _ (carried-installed_at id (install id c p).0 (install id c p).1 rest)
      (install-Owned _ id c p (Owned-same _ _ p (λ d. ground arith) v))
Moves-Owned {p} rest (counts id c) v = raise-Owned _ p v
Moves-Owned rest (ends id c) v = v
Moves-Owned {p} rest (forgets id c) v = forget-Owned _ id p v
Moves-Owned {p} rest (dials_again id c new) v =
    Owned-same _ _ _ (λ d. ground arith) (dialled-Owned _ c p new v)
Moves-Owned rest (redial_fails id) v = v
Moves-Owned {p} rest (reinstalls id c) v =
    reinstall-Owned _ id c p (Owned-same _ _ p (λ d. ground arith) v)
Moves-Owned {p} rest counts_again v = raise-Owned _ p v
