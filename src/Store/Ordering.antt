-- ===== src/Store/Ordering.antt =====
-- `ORDER BY`, as a stable insertion sort. (SQL leaves the order of rows with equal keys open; the
-- theorems about ordered results hold of the sorted list as a multiset or of its order alone.)
use mathlib.Core.List.{Perm}
use mathlib.Core.List.Perm
use agentic_hive.Prelude.{
  ℕ, zero, suc, take, drop, ◌≡◌, refl, Bool, true, false, List, [], ◌∷◌, arith, if◌then◌else◌,
  length, All,
}

module _ {ℓ} {A : Type ℓ} (before : A → A → Bool) where
  insert_row : A → List A → List A
  insert_row x [] = x ∷ []
  insert_row x (y ∷ ys) = if before x y then x ∷ y ∷ ys else y ∷ insert_row x ys

  unfoldable pub order_by : List A → List A
  unfolding insert_row
  order_by [] = []
  order_by (x ∷ xs) = insert_row x (order_by xs)

  insert_row-perm : (x : A) (ys : List A) → Perm (insert_row x ys) (x ∷ ys)
  unfolding insert_row
  insert_row-perm x [] = Perm.refl (x ∷ [])
  insert_row-perm x (y ∷ ys) =
      let rest = Perm.trans (Perm.cons y (insert_row-perm x ys)) (Perm.swap x y ys) in
      ground (arith, rest, Perm.refl (x ∷ y ∷ ys))

  -- An ordered result has the rows of the query.
  pub order_by-perm : (xs : List A) → Perm (order_by xs) xs
  unfolding order_by
  order_by-perm [] = Perm.refl []
  order_by-perm (x ∷ xs) =
      Perm.trans (insert_row-perm x (order_by xs)) (Perm.cons x (order_by-perm xs))

  length-insert_row : (x : A) (ys : List A) → length (insert_row x ys) ≡ length (x ∷ ys)
  unfolding insert_row
  length-insert_row x [] = refl
  length-insert_row x (y ∷ ys) = ground (arith, length-insert_row x ys)

  pub length-order_by : (xs : List A) → length (order_by xs) ≡ length xs
  unfolding order_by
  length-order_by [] = refl
  length-order_by (x ∷ xs) = ground (arith, length-insert_row x (order_by xs), length-order_by xs)

  insert_row-All {κ} :
      (P : A → Type κ) (x : A) (ys : List A) → P x → All P ys → All P (insert_row x ys)
  unfolding insert_row
  insert_row-All P x [] p h = (p, tt)
  insert_row-All P x (y ∷ ys) p (q, h) = ground (arith, insert_row-All P x ys p h)

  pub order_by-All {κ} : (P : A → Type κ) (xs : List A) → All P xs → All P (order_by xs)
  unfolding order_by
  order_by-All P [] h = h
  order_by-All P (x ∷ xs) (p, h) = insert_row-All P x (order_by xs) p (order_by-All P xs h)

  -- No row stands before one that has to come first.
  abbrev pub IsOrdered : List A → Type ℓ
  IsOrdered [] = Unit
  IsOrdered (x ∷ []) = Unit
  IsOrdered (x ∷ y ∷ ys) = (before x y ≡ true) × IsOrdered (y ∷ ys)

module _ {ℓ} {A : Type ℓ} (before : A → A → Bool)
    (total : (x y : A) → before x y ≡ false → before y x ≡ true) where
  insert_row-IsOrdered :
      (x : A) (ys : List A) → IsOrdered before ys → IsOrdered before (insert_row before x ys)
  unfolding insert_row
  insert_row-IsOrdered x [] h = tt
  insert_row-IsOrdered x (y ∷ []) h = ground (arith, total x y)
  insert_row-IsOrdered x (y ∷ z ∷ zs) (p, h) =
      let rest = insert_row-IsOrdered x (z ∷ zs) h in ground (arith, rest, total x y, p, h)

  pub order_by-IsOrdered : (xs : List A) → IsOrdered before (order_by before xs)
  unfolding order_by
  order_by-IsOrdered [] = tt
  order_by-IsOrdered (x ∷ xs) = insert_row-IsOrdered x (order_by before xs) (order_by-IsOrdered xs)

module _ {ℓ} {A : Type ℓ} (before : A → A → Bool) where
  pub take-IsOrdered : (n : ℕ) (xs : List A) → IsOrdered before xs → IsOrdered before (take n xs)
  take-IsOrdered zero xs h = tt
  take-IsOrdered (suc n) [] h = tt
  take-IsOrdered (suc n) (x ∷ []) h = take-one n
    where
      take-one : (m : ℕ) → IsOrdered before (x ∷ take m [])
      take-one zero = tt
      take-one (suc m) = tt
  take-IsOrdered (suc zero) (x ∷ y ∷ ys) h = tt
  take-IsOrdered (suc (suc n)) (x ∷ y ∷ ys) (p, h) = (p, take-IsOrdered (suc n) (y ∷ ys) h)

  pub drop-IsOrdered : (n : ℕ) (xs : List A) → IsOrdered before xs → IsOrdered before (drop n xs)
  drop-IsOrdered zero xs h = h
  drop-IsOrdered (suc n) [] h = tt
  drop-IsOrdered (suc n) (x ∷ []) h = drop-IsOrdered n [] tt
  drop-IsOrdered (suc n) (x ∷ y ∷ ys) (p, h) = drop-IsOrdered n (y ∷ ys) h
