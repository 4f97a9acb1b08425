-- ===== src/Text/Searching.antt =====
-- Where `before`, `cut` and `cut_last` split a text, and what `has_suffix` tells.
use agentic_hive.Prelude.{
  ℕ, ◌≡◌, refl, ap, sym, subst, ◌↔◌, inl, inr, true, false, none, some, [], ◌∷◌, ◌++◌, arith,
  Bool-cases, ==_iff,
}
use agentic_hive.Text.{Text, contains, before, cut, cut_last, eq_text, has_suffix}

pub contains-before : (x : ℕ) (s : Text) → contains x (before x s) ≡ false
unfolding contains before
contains-before x [] = refl
contains-before x (c ∷ s) = ground (arith, contains-before x s)

pub before-contains : (x : ℕ) (s : Text) → contains x s ≡ false → before x s ≡ s
unfolding contains before
before-contains x [] h = refl
before-contains x (c ∷ s) h = ground (arith, before-contains x s)

-- A text whose first `x` ends its first part is cut there.
pub cut-append : (x : ℕ) (l r : Text) → contains x l ≡ false → cut x (l ++ x ∷ r) ≡ some (l, r)
unfolding contains cut
cut-append x [] r h = ground arith
cut-append x (c ∷ l) r h = ground (arith, cut-append x l r)

pub cut-contains : (x : ℕ) (s : Text) → contains x s ≡ false → cut x s ≡ none
unfolding contains cut
cut-contains x [] h = refl
cut-contains x (c ∷ s) h = ground (arith, cut-contains x s)

pub cut_last-contains : (x : ℕ) (s : Text) → contains x s ≡ false → cut_last x s ≡ none
unfolding contains cut_last
cut_last-contains x [] h = refl
cut_last-contains x (c ∷ s) h = ground (arith, cut_last-contains x s)

-- A text is cut before the part with no `x` that ends it.
pub cut_last-append :
    (x : ℕ) (l r : Text) → contains x r ≡ false → cut_last x (l ++ x ∷ r) ≡ some (l, r)
unfolding cut_last
cut_last-append x [] r h = ground (arith, cut_last-contains x r h)
cut_last-append x (c ∷ l) r h = ground (arith, cut_last-append x l r h)

pub contains-append :
    (x : ℕ) (l r : Text) → contains x l ≡ false → contains x r ≡ false → contains x (l ++ r) ≡ false
unfolding contains
contains-append x [] r h k = k
contains-append x (c ∷ l) r h k = ground (arith, contains-append x l r)

eq_text_iff_to : (s t : Text) → eq_text s t ≡ true → s ≡ t
unfolding eq_text
eq_text_iff_to [] [] h = refl
eq_text_iff_to [] (d ∷ t) h = cc
eq_text_iff_to (c ∷ s) [] h = cc
eq_text_iff_to (c ∷ s) (d ∷ t) h = ground (arith, eq_text_iff_to s t, ==_iff c d)

eq_text_refl : (s : Text) → eq_text s s ≡ true
unfolding eq_text
eq_text_refl [] = refl
eq_text_refl (c ∷ s) = ground (arith, eq_text_refl s, ==_iff c c)

has_suffix_to : (p s : Text) → has_suffix p s ≡ true → (l : Text) × (s ≡ l ++ p)
unfolding has_suffix
has_suffix_to [] [] h = ([], refl)
has_suffix_to (c ∷ p) [] h = cc
has_suffix_to p (c ∷ s) h = elim (Bool-cases (eq_text p (c ∷ s))) [
  | inl whole ↦ ([], sym (eq_text_iff_to p (c ∷ s) whole))
  | inr part ↦ let (l, e) = has_suffix_to p s (ground arith) in (c ∷ l, ap (λ t. c ∷ t) e)
]

has_suffix-append : (l p : Text) → has_suffix p (l ++ p) ≡ true
unfolding has_suffix
has_suffix-append [] [] = refl
has_suffix-append [] (c ∷ p) = rw (eq_text_refl (c ∷ p)) refl
has_suffix-append (c ∷ l) p = ground (arith, has_suffix-append l p)

-- A text ends in the other exactly if it is something before it.
pub has_suffix_iff : (p s : Text) → (has_suffix p s ≡ true) ↔ ((l : Text) × (s ≡ l ++ p))
has_suffix_iff p s = (
  has_suffix_to p s,
  λ (l, e). subst (λ t. has_suffix p t ≡ true) (sym e) (has_suffix-append l p),
)
