-- ===== src/Pool/Counting.antt =====
-- That the gauge counts the connections of the pool: each critical section.
use agentic_hive.Prelude.{
  ℕ, ◌+◌, Bool, true, false, String, ◌≡◌, refl, ap, inl, inr, none, some, List, [], ◌∷◌, arith,
  lookup, delete, lookup-delete, Option-cases, length, HasDistinctKeys, insert-HasDistinctKeys,
  delete-HasDistinctKeys, length-insert_new, length-insert_old, length-delete, lookup-IsFresh,
  delete_absent, str_eq_refl, subst,
}
use agentic_hive.Pool.{
  Pool, dialled, raise, install, forget, reinstall, remove, close, close_each, without,
}

-- The pool has one connection for each server, and the gauge counts `over` more than there are, once
-- the increments that are pending have been made.
pub record Exceeds (pending over : ℕ) (p : Pool) : Type 0 where
  pub distinct : HasDistinctKeys p.conns
  pub counted : p.raised + pending ≡ p.lowered + over + length p.conns

-- The gauge counts the connections of the pool, one for each server.
abbrev pub IsCounted : Pool → Type 0
IsCounted p = Exceeds 0 0 p

-- The increment that is due after a client has been stored.
abbrev pub due : Bool → ℕ
due true = 1
due false = 0

pub raise-Exceeds : {k n : ℕ} (p : Pool) → Exceeds (1 + k) n p → Exceeds k n (raise p)
raise-Exceeds p v = record { distinct = v.distinct; counted = omega (arith, v.counted) }

pub install-Exceeds :
    {k n : ℕ} (id : String) (c : ℕ) (p : Pool)
    → Exceeds k n p
    → Exceeds (due (install id c p).1 + k) n (install id c p).2
unfolding install
install-Exceeds id c p v = ground (
  arith,
  length-insert_new id c p.conns,
  insert-HasDistinctKeys id c p.conns v.distinct,
  v.counted,
)

-- What a second connection that is stored over one makes the gauge count too much.
unfoldable pub over_at : String → Pool → ℕ → ℕ
over_at id p n = elim (lookup id p.conns) [ none ↦ n | some c ↦ 1 + n ]

pub reinstall-Exceeds :
    {k n : ℕ} (id : String) (c : ℕ) (p : Pool)
    → Exceeds k n p
    → Exceeds (1 + k) (over_at id p n) (reinstall id c p)
unfolding reinstall over_at
reinstall-Exceeds {k} {n} id c p v = elim (Option-cases (lookup id p.conns)) [
  | inl absent ↦
      rw (absent, over_at)
        (record {
          distinct = insert-HasDistinctKeys id c p.conns v.distinct;
          counted = omega (arith, length-insert_new id c p.conns absent, v.counted);
        })
  | inr (d, there) ↦
      rw (there, over_at)
        (record {
          distinct = insert-HasDistinctKeys id c p.conns v.distinct;
          counted = omega (arith, length-insert_old id c d p.conns there, v.counted);
        })
]

-- One connection less, on the gauge too.
dropped :
    {k n : ℕ} (id : String) (c : ℕ) (opened : List ℕ) (p : Pool)
    → lookup id p.conns ≡ some c
    → Exceeds k n p
    → Exceeds k n (record p { conns = delete id p.conns; lowered = p.lowered + 1; opened = opened })
dropped id c opened p there v = record {
  distinct = delete-HasDistinctKeys id p.conns v.distinct;
  counted = omega (arith, length-delete id c p.conns v.distinct there, v.counted);
}

pub forget-Exceeds : {k n : ℕ} (id : String) (p : Pool) → Exceeds k n p → Exceeds k n (forget id p)
unfolding forget
forget-Exceeds id p v = elim (Option-cases (lookup id p.conns)) [
  | inl absent ↦ rw (absent, forget) v
  | inr (c, there) ↦ rw (there, forget) (dropped id c p.opened p there v)
]

pub remove-Exceeds : {k n : ℕ} (id : String) (p : Pool) → Exceeds k n p → Exceeds k n (remove id p)
unfolding remove
remove-Exceeds id p v = elim (Option-cases (lookup id p.conns)) [
  | inl absent ↦ rw (absent, remove) v
  | inr (c, there) ↦ rw (there, remove) (dropped id c _ p there v)
]

pub lookup-forget : (id : String) (p : Pool) → lookup id (forget id p).conns ≡ none
unfolding forget
lookup-forget id p = elim (Option-cases (lookup id p.conns)) [
  | inl absent ↦ rw (absent, forget) absent
  | inr (c, there) ↦
      rw (there, forget) (ground (arith, lookup-delete id id p.conns, str_eq_refl id))
]

pub lookup-head :
    (id : String) (c : ℕ) (rest : List (String × ℕ)) → lookup id ((id, c) ∷ rest) ≡ some c
unfolding lookup
lookup-head id c rest = rw (str_eq_refl id) refl

pub delete-head :
    (id : String) (c : ℕ) (rest : List (String × ℕ))
    → HasDistinctKeys ((id, c) ∷ rest)
    → delete id ((id, c) ∷ rest) ≡ rest
unfolding delete
delete-head id c rest (f, d) =
    rw (str_eq_refl id) (delete_absent id rest (lookup-IsFresh id rest f))

close_each-empties :
    {k n : ℕ} (m : List (String × ℕ)) (p : Pool)
    → p.conns ≡ m
    → Exceeds k n p
    → ((close_each m p).conns ≡ []) × ((close_each m p).raised + k ≡ (close_each m p).lowered + n)
unfolding close_each
close_each-empties [] p e v = (e, omega (arith, v.counted, ap length e))
close_each-empties ((id, c) ∷ rest) p e v =
    let there : lookup id p.conns ≡ some c = rw (e) (lookup-head id c rest) in
    close_each-empties rest
      (record p { conns = delete id p.conns; lowered = p.lowered + 1; opened = without c p.opened })
      (rw (e) (delete-head id c rest (subst HasDistinctKeys e v.distinct)))
      (dropped id c (without c p.opened) p there v)

-- Closing the pool leaves no connection, and the gauge at 0, but for what is pending and what it
-- counts too much.
pub close_empties :
    {k n : ℕ} (p : Pool)
    → Exceeds k n p
    → ((close p).conns ≡ []) × ((close p).raised + k ≡ (close p).lowered + n)
unfolding close
close_empties p v = close_each-empties p.conns p refl v

pub dialled-Exceeds : {k n : ℕ} (c : ℕ) (p : Pool) → Exceeds k n p → Exceeds k n (dialled c p)
dialled-Exceeds c p v = record { distinct = v.distinct; counted = v.counted }
