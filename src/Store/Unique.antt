-- ===== src/Store/Unique.antt =====
-- UNIQUE columns: no two rows of a table clash.
use agentic_hive.Prelude.{
  ◌≡◌, refl, ◌∙◌, Bool, false, ◌||◌, List, [], ◌∷◌, ◌++◌, map, arith, select, any,
}

module _ {ℓ} {A : Type ℓ} where
  pub any-append : (p : A → Bool) (xs ys : List A) → any p (xs ++ ys) ≡ (any p xs || any p ys)
  any-append p [] ys = refl
  any-append p (x ∷ xs) ys = ground (arith, any-append p xs ys)

  pub any-select : (p q : A → Bool) (xs : List A) → any p xs ≡ false → any p (select q xs) ≡ false
  any-select p q [] h = refl
  any-select p q (x ∷ xs) h = ground (arith, any-select p q xs)

  pub any-map {κ} :
      {B : Type κ} (p : B → Bool) (q : A → Bool) (f : A → B) (xs : List A)
      → ((x : A) → p (f x) ≡ q x)
      → any p (map f xs) ≡ any q xs
  any-map p q f [] h = refl
  any-map p q f (x ∷ xs) h = rw (h x, any-map p q f xs h)

module _ {ℓ} {A : Type ℓ} (clash : A → A → Bool) where
  abbrev pub Unique : List A → Type 0
  Unique [] = Unit
  Unique (x ∷ xs) = (any (clash x) xs ≡ false) × Unique xs

  pub Unique-append :
      (u : A) (xs : List A)
      → ((x y : A) → clash x y ≡ clash y x)
      → any (clash u) xs ≡ false
      → Unique xs
      → Unique (xs ++ u ∷ [])
  Unique-append u [] symm h k = (refl, tt)
  Unique-append u (x ∷ xs) symm h (f, k) = (
    ground (arith, any-append (clash x) xs (u ∷ []), symm u x),
    Unique-append u xs symm (ground arith) k,
  )

  pub Unique-select : (q : A → Bool) (xs : List A) → Unique xs → Unique (select q xs)
  Unique-select q [] h = h
  Unique-select q (x ∷ xs) (f, h) =
      ground (arith, Unique-select q xs h, any-select (clash x) q xs f)

  pub Unique-map :
      (f : A → A) (xs : List A)
      → ((x y : A) → clash (f x) (f y) ≡ clash x y)
      → Unique xs
      → Unique (map f xs)
  Unique-map f [] same h = h
  Unique-map f (x ∷ xs) same (p, h) =
      (any-map (clash (f x)) (clash x) f xs (same x) ∙ p, Unique-map f xs same h)
