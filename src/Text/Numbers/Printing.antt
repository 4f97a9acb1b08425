-- ===== src/Text/Numbers/Printing.antt =====
-- A number that is printed reads as itself.
use agentic_hive.Prelude.{
  ℕ, zero, suc, ◌+◌, ◌-◌, ◌*◌, ◌/◌, ◌%◌, ◌^◌, ◌≤◌, ◌<◌, ◌≡◌, refl, ◌∙◌, true, false, [], ◌∷◌, arith,
  ltb, ◌==◌, Bool-cases, ltb→lt, lt→ltb, ap, inl, inr,
}
use agentic_hive.Text.{Text}
use agentic_hive.Text.Numbers.{
  pos, is_digit, digits_from, unsigned, positive, parse_int, digits_onto, format_number,
}

digits_from-digit :
    (m d : ℕ) (rest : Text)
    → d < 10
    → m * 10 + d < 2 ^ 64
    → digits_from m ((b'0' + d) ∷ rest) ≡ digits_from (m * 10 + d) rest
unfolding digits_from
digits_from-digit m d rest small fits =
    let is : is_digit (b'0' + d) ≡ true = ground arith in
    let same : m * 10 + (b'0' + d - b'0') ≡ m * 10 + d = omega arith in
    rw (is, same, lt→ltb (m * 10 + d) (2 ^ 64) fits) refl

-- The value of a text that is read behind a number.
digits_onto-read :
    (fuel n : ℕ) (rest : Text)
    → n < 10 ^ fuel
    → n < 2 ^ 64
    → 0 < fuel
    → digits_from 0 (digits_onto fuel n rest) ≡ digits_from n rest
unfolding digits_onto
digits_onto-read zero n rest h l k = absurd (omega arith)
digits_onto-read (suc fuel) n rest h l k = elim (Bool-cases (ltb n 10)) [
  | inl one ↦ rw one (
      digits_from-digit 0 n rest (ltb→lt n 10 one) (omega arith)
      ∙ ap (λ x. digits_from x rest) (omega arith))
  | inr more ↦
      let big : 10 ≤ n = ground arith in
      let some_fuel : 0 < fuel = positive_fuel fuel n big h in
      rw more (
        digits_onto-read fuel (n / 10) ((b'0' + n % 10) ∷ rest) (fewer fuel n h) (omega arith)
          some_fuel
        ∙ digits_from-digit (n / 10) (n % 10) rest (omega arith) (omega arith)
        ∙ ap (λ x. digits_from x rest) (omega arith))
]
  where
    positive_fuel : (fuel n : ℕ) → 10 ≤ n → n < 10 ^ suc fuel → 0 < fuel
    positive_fuel zero n big h = absurd (omega arith)
    positive_fuel (suc fuel) n big h = omega arith

    fewer : (fuel n : ℕ) → n < 10 ^ suc fuel → n / 10 < 10 ^ fuel
    fewer fuel n h =
        let step : 10 ^ suc fuel ≡ 10 * 10 ^ fuel = omega arith in omega (arith, h, step)

-- A printed number is not empty and starts with a digit, so it has no sign.
starts_with_digit :
    (fuel n : ℕ) (rest : Text)
    → 0 < fuel
    → (c : ℕ) × (s : Text) × (digits_onto fuel n rest ≡ c ∷ s) × (is_digit c ≡ true)
unfolding digits_onto
starts_with_digit zero n rest k = absurd (omega arith)
starts_with_digit (suc zero) n rest k = elim (Bool-cases (ltb n 10)) [
  | inl one ↦ rw one (b'0' + n, rest, refl, ground (arith, one))
  | inr more ↦ rw more (b'0' + n % 10, rest, refl, ground arith)
]
starts_with_digit (suc (suc fuel)) n rest k = elim (Bool-cases (ltb n 10)) [
  | inl one ↦ rw one (b'0' + n, rest, refl, ground (arith, one))
  | inr more ↦
      rw more (starts_with_digit (suc fuel) (n / 10) ((b'0' + n % 10) ∷ rest) (omega arith))
]

-- What is printed for a number of 63 bits is read as that number, without an error.
pub parse_int-format_number : (n : ℕ) → n < 2 ^ 63 → parse_int (format_number n) ≡ (pos n, true)
unfolding format_number parse_int
parse_int-format_number n h =
    let (c, s, starts, digit) = starts_with_digit 20 n [] (omega arith) in
    let read = digits_onto-read 20 n [] (omega arith) (omega arith) (omega arith) in
    rw starts (finish c s digit (rw starts at read) h)
  where
    finish :
        (c : ℕ) (s : Text)
        → is_digit c ≡ true
        → digits_from 0 (c ∷ s) ≡ digits_from n []
        → n < 2 ^ 63
        → parse_int (c ∷ s) ≡ (pos n, true)
    finish c s digit read h =
        let minus : (c == b'-') ≡ false = ground arith in
        let plus : (c == b'+') ≡ false = ground arith in
        unfold unsigned in
        unfold digits_from in rw (minus, plus) (ap positive read ∙ rw (lt→ltb n (2 ^ 63) h) refl)
