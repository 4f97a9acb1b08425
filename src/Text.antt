-- ===== src/Text.antt =====
-- Texts that the program walks, as lists of code points, with what it uses of Go's `strings`.
-- A text that is only compared is a native `String`; `codes` goes from that to its code points.
pub mod Searching
pub mod Numbers
pub mod Quote
use Prim.Native.Char.{code}
use agentic_hive.Prelude.{
  ℕ, zero, suc, ◌≤◌, ◌≡◌, refl, Bool, true, false, ◌&&◌, ◌||◌, not, String, List, [], ◌∷◌, ◌++◌,
  Option, none, some, ltb, leb, ◌==◌, if◌then◌else◌,
}

abbrev pub Text : Type 0
Text = List ℕ

abbrev pub codes : String → Text
codes String.[] = []
codes (String.◌∷◌ c s) = code c ∷ codes s

-- `unicode.IsSpace`.
unfoldable pub is_space : ℕ → Bool
is_space c =
    (leb 9 c && leb c 13)
    || c == 32
    || c == 133
    || c == 160
    || c == 5760
    || (leb 8192 c && leb c 8202)
    || c == 8232
    || c == 8233
    || c == 8239
    || c == 8287
    || c == 12288

unfoldable pub trim_left : Text → Text
trim_left [] = []
trim_left (c ∷ s) = let rest = trim_left s in if is_space c then rest else c ∷ s

abbrev pub is_nil : Text → Bool
is_nil [] = true
is_nil (c ∷ s) = false

-- A space goes if only spaces follow it.
unfoldable pub trim_right : Text → Text
trim_right [] = []
trim_right (c ∷ s) = let rest = trim_right s in if is_space c && is_nil rest then [] else c ∷ rest

-- `strings.TrimSpace`.
unfoldable pub trim_space : Text → Text
unfolding trim_left trim_right is_space
trim_space s = trim_right (trim_left s)

unfoldable pub contains : ℕ → Text → Bool
contains x [] = false
contains x (c ∷ s) = c == x || contains x s

-- What stands before the first `x`, all of it if there is none.
unfoldable pub before : ℕ → Text → Text
before x [] = []
before x (c ∷ s) = if c == x then [] else c ∷ before x s

abbrev pub push_left : ℕ → Option (Text × Text) → Option (Text × Text)
push_left c none = none
push_left c (some (l, r)) = some (c ∷ l, r)

-- What stands before and after the first `x`.
unfoldable pub cut : ℕ → Text → Option (Text × Text)
cut x [] = none
cut x (c ∷ s) = if c == x then some ([], s) else push_left c (cut x s)

-- What stands before and after the last `x`.
unfoldable pub cut_last : ℕ → Text → Option (Text × Text)
cut_last x [] = none
cut_last x (c ∷ s) = elim (cut_last x s) [
  | some (l, r) ↦ some (c ∷ l, r)
  | none ↦ if c == x then some ([], s) else none
]

-- `strings.Split` at one character.
abbrev push_first : ℕ → List Text → List Text
push_first c [] = (c ∷ []) ∷ []
push_first c (s ∷ rest) = (c ∷ s) ∷ rest

unfoldable pub split : ℕ → Text → List Text
split x [] = [] ∷ []
split x (c ∷ s) = let rest = split x s in if c == x then [] ∷ rest else push_first c rest

-- `strings.SplitN` at one character, into at most `suc n` pieces.
unfoldable pub split_n : (n : ℕ) → ℕ → Text → List Text
unfolding cut
split_n zero x s = s ∷ []
split_n (suc n) x s = elim (cut x s) [ none ↦ s ∷ [] | some (l, r) ↦ l ∷ split_n n x r ]

-- `strings.Contains`.
has_prefix : Text → Text → Bool
has_prefix [] s = true
has_prefix (p ∷ ps) [] = false
has_prefix (p ∷ ps) (c ∷ s) = p == c && has_prefix ps s

unfoldable pub contains_text : Text → Text → Bool
unfolding has_prefix
contains_text p [] = is_nil p
contains_text p (c ∷ s) = has_prefix p (c ∷ s) || contains_text p s

eq_text : Text → Text → Bool
eq_text [] [] = true
eq_text [] (d ∷ t) = false
eq_text (c ∷ s) [] = false
eq_text (c ∷ s) (d ∷ t) = c == d && eq_text s t

-- `strings.HasSuffix`.
unfoldable pub has_suffix : Text → Text → Bool
unfolding eq_text
has_suffix p [] = is_nil p
has_suffix p (c ∷ s) = eq_text p (c ∷ s) || has_suffix p s
