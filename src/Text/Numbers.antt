-- ===== src/Text/Numbers.antt =====
-- Numbers in texts: `strconv.ParseInt` and `strconv.Atoi` in base 10 and 64 bits, and the `%d` of fmt.
pub mod Printing
use agentic_hive.Prelude.{
  ℕ, zero, suc, ◌+◌, ◌-◌, ◌*◌, ◌/◌, ◌%◌, ◌^◌, Bool, true, false, ◌&&◌, String, List, [], ◌∷◌,
  Option, none, some, ltb, leb, ◌==◌, if◌then◌else◌,
}
use agentic_hive.Text.{Text, codes}

pub data ℤ : Type 0 where
  pos : ℕ → ℤ
  negsuc : ℕ → ℤ

abbrev pub is_digit : ℕ → Bool
is_digit c = leb b'0' c && leb c b'9'

-- `ParseUint` stops at the first character that is no digit, and at the first digit that takes the
-- number out of 64 bits.
pub data Digits : Type 0 where
  digits : ℕ → Digits
  syntax_error : Digits
  range_error : Digits

unfoldable pub digits_from : ℕ → Text → Digits
digits_from n [] = digits n
digits_from n (c ∷ s) =
    let next = n * 10 + (c - b'0') in
    let rest = digits_from next s in
    if is_digit c then (if ltb next (2 ^ 64) then rest else range_error) else syntax_error

unfoldable pub unsigned : Text → Digits
unfolding digits_from
unsigned [] = syntax_error
unsigned (c ∷ s) = digits_from 0 (c ∷ s)

abbrev pub negate : ℕ → ℤ
negate zero = pos 0
negate (suc n) = negsuc n

-- The value and whether it comes without an error: a number out of range gives the nearest one.
abbrev pub positive : Digits → ℤ × Bool
positive syntax_error = (pos 0, false)
positive range_error = (pos (2 ^ 63 - 1), false)
positive (digits n) = if ltb n (2 ^ 63) then (pos n, true) else (pos (2 ^ 63 - 1), false)

abbrev pub negative : Digits → ℤ × Bool
negative syntax_error = (pos 0, false)
negative range_error = (negate (2 ^ 63), false)
negative (digits n) = if leb n (2 ^ 63) then (negate n, true) else (negate (2 ^ 63), false)

unfoldable pub parse_int : Text → ℤ × Bool
unfolding unsigned
parse_int [] = (pos 0, false)
parse_int (c ∷ s) =
    if c == b'-'
    then negative (unsigned s)
    else if c == b'+'
    then positive (unsigned s)
    else positive (unsigned (c ∷ s))

abbrev pub without_error : ℤ × Bool → Option ℤ
without_error (n, true) = some n
without_error (n, false) = none

unfoldable pub atoi : String → Option ℤ
unfolding parse_int
atoi s = without_error (parse_int (codes s))

-- The decimal digits of a number, the last one in front of `rest`; twenty are enough for 64 bits.
unfoldable pub digits_onto : (fuel n : ℕ) → Text → Text
digits_onto zero n rest = rest
digits_onto (suc fuel) n rest =
    let more = digits_onto fuel (n / 10) ((b'0' + n % 10) ∷ rest) in
    if ltb n 10 then (b'0' + n) ∷ rest else more

unfoldable pub format_number : ℕ → Text
unfolding digits_onto
format_number n = digits_onto 20 n []

unfoldable pub format_int : ℤ → Text
unfolding format_number
format_int (pos n) = format_number n
format_int (negsuc n) = b'-' ∷ format_number (suc n)
