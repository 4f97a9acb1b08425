-- ===== src/Prelude/Assoc.antt =====
-- Maps keyed by texts, as association lists: Go's maps and the tables with a text primary key.
use Prim.Native.String.{String}
use mathlib.Core.Path.{◌≡◌, refl}
use mathlib.Core.Logic.{◌≢◌}
use mathlib.Core.Bool.{true, false}
use mathlib.Core.Option.{Option, none, some}
use mathlib.Core.List.{List, [], ◌∷◌}
use native.Mathlib.Omega.{arith}
use text.Mathlib.Text.{◌==◌}
use text.Mathlib.TextEquality.{eq_iff}
use agentic_hive.Prelude.Tests.{if◌then◌else◌}
use agentic_hive.Prelude.Lists.{All, length}
use Prim.Native.Nat.{suc}

pub str_eq_refl : (k : String) → (k == k) ≡ true
str_eq_refl k = (eq_iff k k).1 refl

pub str_ne : (j k : String) → j ≢ k → (j == k) ≡ false
str_ne j k h = ground (arith, eq_iff j k)

module _ {ℓ} {V : Type ℓ} where
  -- The value of the first entry under the key.
  unfoldable pub lookup : (key : String) → List (String × V) → Option V
  lookup key [] = none
  lookup key ((here, found) ∷ rest) = if here == key then some found else lookup key rest

  -- The first entry under the key is replaced; a new key goes to the end.
  unfoldable pub insert : (key : String) → (new : V) → List (String × V) → List (String × V)
  insert key new [] = (key, new) ∷ []
  insert key new ((here, old) ∷ rest) =
      let untouched = insert key new rest in
      if here == key then (here, new) ∷ rest else (here, old) ∷ untouched

  unfoldable pub delete : String → List (String × V) → List (String × V)
  delete k [] = []
  delete k ((j, w) ∷ m) = if j == k then delete k m else (j, w) ∷ delete k m

  pub lookup-insert :
      (key other : String) (new : V) (entries : List (String × V))
      → lookup other (insert key new entries)
        ≡ (if key == other then some new else lookup other entries)
  unfolding lookup insert
  lookup-insert key other new [] = refl
  lookup-insert key other new ((here, old) ∷ rest) = ground (
    arith,
    lookup-insert key other new rest,
    eq_iff here key,
    eq_iff here other,
    eq_iff key other,
  )

  pub lookup-insert_self :
      (k : String) (v : V) (m : List (String × V)) → lookup k (insert k v m) ≡ some v
  lookup-insert_self k v m = ground (arith, lookup-insert k k v m, str_eq_refl k)

  pub lookup-insert_ne :
      (k j : String) (v : V) (m : List (String × V)) → k ≢ j → lookup j (insert k v m) ≡ lookup j m
  lookup-insert_ne k j v m h = ground (arith, lookup-insert k j v m, str_ne k j h)

  pub lookup-delete :
      (k j : String) (m : List (String × V))
      → lookup j (delete k m) ≡ (if k == j then none else lookup j m)
  unfolding lookup delete
  lookup-delete k j [] = ground arith
  lookup-delete k j ((i, w) ∷ m) =
      ground (arith, eq_iff k j, eq_iff i k, eq_iff i j, lookup-delete k j m)

  -- No key stands twice.
  abbrev pub IsFresh : String → List (String × V) → Type 0
  IsFresh k m = All (λ e. e.0 ≢ k) m

  abbrev pub HasDistinctKeys : List (String × V) → Type 0
  HasDistinctKeys [] = Unit
  HasDistinctKeys ((k, v) ∷ m) = IsFresh k m × HasDistinctKeys m

  pub lookup-IsFresh : (k : String) (m : List (String × V)) → IsFresh k m → lookup k m ≡ none
  unfolding lookup
  lookup-IsFresh k [] h = refl
  lookup-IsFresh k ((j, w) ∷ m) (p, h) = ground (arith, eq_iff j k, lookup-IsFresh k m h)

  pub insert-IsFresh :
      (k j : String) (v : V) (m : List (String × V))
      → k ≢ j
      → IsFresh j m
      → IsFresh j (insert k v m)
  unfolding insert
  insert-IsFresh k j v [] p h = (p, tt)
  insert-IsFresh k j v ((i, w) ∷ m) p (q, h) =
      ground (arith, eq_iff i k, insert-IsFresh k j v m p h)

  pub insert-HasDistinctKeys :
      (k : String) (v : V) (m : List (String × V))
      → HasDistinctKeys m
      → HasDistinctKeys (insert k v m)
  unfolding insert
  insert-HasDistinctKeys k v [] h = (tt, tt)
  insert-HasDistinctKeys k v ((i, w) ∷ m) (f, h) =
      ground (
        arith,
        eq_iff i k,
        insert-HasDistinctKeys k v m h,
        λ (p : k ≢ i). insert-IsFresh k i v m p f,
      )

  pub delete-IsFresh : (k j : String) (m : List (String × V)) → IsFresh j m → IsFresh j (delete k m)
  unfolding delete
  delete-IsFresh k j [] h = h
  delete-IsFresh k j ((i, w) ∷ m) (p, h) = ground (arith, delete-IsFresh k j m h)

  pub delete-HasDistinctKeys :
      (k : String) (m : List (String × V)) → HasDistinctKeys m → HasDistinctKeys (delete k m)
  unfolding delete
  delete-HasDistinctKeys k [] h = h
  delete-HasDistinctKeys k ((i, w) ∷ m) (f, h) =
      ground (arith, delete-HasDistinctKeys k m h, delete-IsFresh k i m f)

  pub length-insert_new :
      (k : String) (v : V) (m : List (String × V))
      → lookup k m ≡ none
      → length (insert k v m) ≡ suc (length m)
  unfolding lookup insert
  length-insert_new k v [] h = refl
  length-insert_new k v ((j, w) ∷ m) h = ground (arith, length-insert_new k v m)

  pub length-insert_old :
      (k : String) (v w : V) (m : List (String × V))
      → lookup k m ≡ some w
      → length (insert k v m) ≡ length m
  unfolding lookup insert
  length-insert_old k v w [] h = cc
  length-insert_old k v w ((j, u) ∷ m) h = ground (arith, length-insert_old k v w m)

  pub delete_absent : (k : String) (m : List (String × V)) → lookup k m ≡ none → delete k m ≡ m
  unfolding lookup delete
  delete_absent k [] h = refl
  delete_absent k ((j, w) ∷ m) h = ground (arith, delete_absent k m)

  pub length-delete :
      (k : String) (w : V) (m : List (String × V))
      → HasDistinctKeys m
      → lookup k m ≡ some w
      → suc (length (delete k m)) ≡ length m
  unfolding lookup delete
  length-delete k w [] d h = cc
  length-delete k w ((j, u) ∷ m) (f, d) h =
      ground (arith, eq_iff j k, length-delete k w m d, lookup-IsFresh j m f, delete_absent j m)
