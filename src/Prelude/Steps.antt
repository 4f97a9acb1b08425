-- ===== src/Prelude/Steps.antt =====
-- Systems of several goroutines: what comes in whatever order their steps are taken.
use Prim.Native.Nat.{ℕ, zero, suc, ◌<◌}
use mathlib.Core.Logic.{◌⊎◌, inl, inr}
use native.Mathlib.Omega.{arith}

-- Whatever step is taken, a state of `P` comes: it is here, or one of the program's own steps can be
-- taken, and every step, its own or another, leads to where it comes.
pub data Inevitable {S : Type 0} (Own Step : S → S → Type 0) (P : S → Type 0) : S → Type 0 where
  here : {s : S} → P s → Inevitable Own Step P s
  onward :
      {s t : S} → Own s t → ((u : S) → Step s u → Inevitable Own Step P u) → Inevitable Own Step P s

module _ {S : Type 0} (Own Step : S → S → Type 0) (P I : S → Type 0) (measure : S → ℕ)
    (lowers : (s t : S) → Step s t → measure t < measure s)
    (preserves : (s t : S) → Step s t → I s → I t)
    (progress : (s : S) → I s → P s ⊎ ((t : S) × Own s t)) where
  go_on :
      (s : S)
      → ((u : S) → Step s u → Inevitable Own Step P u)
      → P s ⊎ ((t : S) × Own s t)
      → Inevitable Own Step P s
  go_on s rest (inl there) = here there
  go_on s rest (inr (t, can)) = onward can rest

  on_fuel : (fuel : ℕ) (s : S) → measure s < fuel → I s → Inevitable Own Step P s
  on_fuel zero s h i = absurd (omega arith)
  on_fuel (suc fuel) s h i =
      go_on s (λ u step. on_fuel fuel u (omega (arith, lowers s u step)) (preserves s u step i))
        (progress s i)

  -- Every step lowers the measure, and the program is never stuck before `P`.
  pub measured-Inevitable : (s : S) → I s → Inevitable Own Step P s
  measured-Inevitable s i = on_fuel (suc (measure s)) s (omega arith) i
