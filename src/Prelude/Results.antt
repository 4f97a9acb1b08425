-- ===== src/Prelude/Results.antt =====
-- Go's pair of a value and an error, as one value; `E` is the part of the error that callers see.

pub data Result {ℓ κ} (E : Type κ) (A : Type ℓ) : Type (ℓ ⊔ κ) where
  ok : A → Result E A
  err : E → Result E A
