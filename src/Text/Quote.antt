-- ===== src/Text/Quote.antt =====
-- `%q` of fmt for a string: Go's quoting. The tables of printable characters beyond ASCII are an
-- argument.
use Prim.Native.Char.{Char, code}
use Prim.Native.String.{◌++◌, slice}
use agentic_hive.Prelude.{
  ℕ, zero, suc, ◌+◌, ◌/◌, ◌%◌, Bool, ◌&&◌, String, leb, ltb, ◌==◌, if◌then◌else◌,
}

-- The last `width` hexadecimal digits of a number.
hex : (width n : ℕ) → String
hex zero n = ""
hex (suc width) n = hex width (n / 16) ++ slice "0123456789abcdef" (n % 16) (n % 16 + 1)

module _ (is_print : ℕ → Bool) where
  abbrev printable : ℕ → Bool
  printable n = if ltb n 128 then leb 32 n && leb n 126 else is_print n

  abbrev control : ℕ → String
  control n =
      if n == 7
      then "\\a"
      else if n == 8
      then "\\b"
      else if n == 12
      then "\\f"
      else if n == 10
      then "\\n"
      else if n == 13
      then "\\r"
      else if n == 9
      then "\\t"
      else if n == 11
      then "\\v"
      else if ltb n 128
      then "\\x" ++ hex 2 n
      else if ltb n 65536
      then "\\u" ++ hex 4 n
      else "\\U" ++ hex 8 n

  quoted_char : Char → String
  unfolding hex
  quoted_char c =
      let n = code c in
      if n == b'"'
      then "\\\""
      else if n == b'\\'
      then "\\\\"
      else if printable n
      then String.◌∷◌ c ""
      else control n

  quoted_body : String → String
  unfolding quoted_char
  quoted_body String.[] = ""
  quoted_body (String.◌∷◌ c s) = quoted_char c ++ quoted_body s

  unfoldable pub quote : String → String
  unfolding quoted_body
  quote s = "\"" ++ (quoted_body s ++ "\"")
