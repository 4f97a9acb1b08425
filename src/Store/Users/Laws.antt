-- ===== src/Store/Users/Laws.antt =====
-- Names, identifiers and subjects stay unique, and what signing in by OIDC leaves in the table.
use text.Mathlib.Text.{◌==◌}
use agentic_hive.Prelude.{
  ℕ, ◌≡◌, refl, Bool, true, false, not, ◌&&◌, List, [], ◌∷◌, ◌++◌, map, String, arith, select, any,
  Option, none, some, Result, ok, err, eq_iff, Bool-cases, ◌⊎◌, inl, inr,
}
use agentic_hive.Store.{User, Store, Engine, StoreError, insert_user, constraint, engine_failure}
use agentic_hive.Store.Unique.{Unique, Unique-append, Unique-select}
use agentic_hive.Store.Users.{
  untimed, local_user, clashes, subject_eq, create_user, delete_user_by_id, upsert_oidc_user,
  update_oidc, upsert_found, update_row, name_taken, insert_row, first, has_subject,
}

str_eq_comm : (s t : String) → (s == t) ≡ (t == s)
str_eq_comm s t = ground (arith, eq_iff s t, eq_iff t s)

subject_eq_comm : (s t : Option String) → subject_eq s t ≡ subject_eq t s
subject_eq_comm none none = refl
subject_eq_comm none (some t) = refl
subject_eq_comm (some s) none = refl
subject_eq_comm (some s) (some t) = str_eq_comm s t

clashes_comm : (u v : User) → clashes u v ≡ clashes v u
clashes_comm u v =
    rw
      (
        str_eq_comm u.id v.id,
        str_eq_comm u.username v.username,
        subject_eq_comm u.oidc_subject v.oidc_subject,
      )
      refl

insert_row-Unique :
    (fails : Bool) (u : User) (s : Store)
    → Unique clashes s.users
    → Unique clashes (insert_row fails u s).1.users
unfolding insert_row
insert_row-Unique fails u s h = ground (
  arith,
  λ (free : any (clashes u) s.users ≡ false). Unique-append clashes u s.users clashes_comm free h,
)

module _ (id username role : String) (now : ℕ) where
  abbrev updated : User → User
  updated = update_row id username role now

  abbrev taken : User → Bool
  taken u = not (u.id == id) && u.username == username

  clashes-updated :
      (u v : User)
      → clashes u v ≡ false
      → taken u ≡ false
      → taken v ≡ false
      → clashes (updated u) (updated v) ≡ false
  clashes-updated u v h k l = ground (
    arith,
    eq_iff u.id v.id,
    eq_iff u.id id,
    eq_iff v.id id,
    eq_iff u.username username,
    eq_iff v.username username,
    eq_iff username v.username,
  )

  -- A row that clashed with none before the update clashes with none after it.
  any-updated :
      (u : User) (vs : List User)
      → any (clashes u) vs ≡ false
      → taken u ≡ false
      → any taken vs ≡ false
      → any (clashes (updated u)) (map updated vs) ≡ false
  any-updated u [] h k l = refl
  any-updated u (v ∷ vs) h k l =
      rw (clashes-updated u v (ground arith) k (ground arith))
        (any-updated u vs (ground arith) k (ground arith))

  updated-Unique :
      (us : List User) → any taken us ≡ false → Unique clashes us → Unique clashes (map updated us)
  updated-Unique [] free h = tt
  updated-Unique (u ∷ us) free (f, h) =
      (any-updated u us f (ground arith) (ground arith), updated-Unique us (ground arith) h)

module _ (db : Engine) where
  pub create_user-Unique :
      (id username password_hash role : String) (now : ℕ) (s : Store)
      → Unique clashes s.users
      → Unique clashes (create_user db id username password_hash role now s).1.users
  unfolding create_user
  create_user-Unique id username password_hash role now s h = search insert_row-Unique

  pub delete_user_by_id-Unique :
      (id : String) (s : Store)
      → Unique clashes s.users
      → Unique clashes (delete_user_by_id db id s).1.users
  unfolding delete_user_by_id
  delete_user_by_id-Unique id s h =
      ground (arith, Unique-select clashes (λ (u : User). not (u.id == id)) s.users h)

  update_oidc-Unique :
      (u : User) (username role : String) (now : ℕ) (s : Store)
      → Unique clashes s.users
      → Unique clashes (update_oidc db u username role now s).1.users
  unfolding update_oidc
  update_oidc-Unique u username role now s h = ground (
    arith,
    λ (free : name_taken u.id username s.users ≡ false).
        updated-Unique u.id username role now s.users free h,
  )

  upsert_found-Unique :
      (r : Result StoreError User) (id subject username role : String) (now : ℕ) (s : Store)
      → Unique clashes s.users
      → Unique clashes (upsert_found db r id subject username role now s).1.users
  unfolding upsert_found
  upsert_found-Unique (ok u) id subject username role now s h =
      update_oidc-Unique u username role now s h
  upsert_found-Unique (err e) id subject username role now s h = search insert_row-Unique

  -- On every branch `upsert_oidc_user` keeps identifiers, names and OIDC subjects of the users
  -- unique.
  pub upsert_oidc_user-Unique :
      (id subject username role : String) (now : ℕ) (s : Store)
      → Unique clashes s.users
      → Unique clashes (upsert_oidc_user db id subject username role now s).1.users
  unfolding upsert_oidc_user
  upsert_oidc_user-Unique id subject username role now s h = ground (
    arith,
    upsert_found-Unique (first (select (has_subject subject) s.users)) id subject username role now
        s h,
  )

  -- An insertion fails and changes nothing, or adds the row at the end.
  abbrev pub Inserts : User → Store → Result StoreError User × Store → Type 0
  Inserts u s r =
      ((e : StoreError) × (r ≡ (err e, s)))
      ⊎ (r ≡ (ok (untimed u), record s { users = s.users ++ u ∷ [] }))

  insert_row-Inserts : (fails : Bool) (u : User) (s : Store) → Inserts u s (insert_row fails u s)
  unfolding insert_row
  insert_row-Inserts true u s = inl (engine_failure, refl)
  insert_row-Inserts false u s = elim (Bool-cases (any (clashes u) s.users)) [
    | inl taken ↦ inl (constraint, rw taken)
    | inr free ↦ inr (rw free)
  ]

  pub create_user-Inserts :
      (id username password_hash role : String) (now : ℕ) (s : Store)
      → Inserts
          (local_user id username password_hash role now)
          s
          (create_user db id username password_hash role now s)
  unfolding create_user
  create_user-Inserts id username password_hash role now s =
      insert_row-Inserts (db insert_user) (local_user id username password_hash role now) s
