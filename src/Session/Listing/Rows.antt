-- ===== src/Session/Listing/Rows.antt =====
-- The rows that tmux prints, and what their characters are.
use agentic_hive.Prelude.{
  ℕ, zero, suc, ◌+◌, ◌/◌, ◌%◌, ◌^◌, ◌<◌, ◌≡◌, refl, Bool, true, false, ◌&&◌, ◌||◌, List, [], ◌∷◌,
  ◌++◌, arith, ◌==◌,
}
use agentic_hive.Text.{Text, is_space, contains}
use agentic_hive.Text.Numbers.{pos, digits_onto, format_number}
use agentic_hive.Store.{Server}
use agentic_hive.Session.{is_safe_char, all_safe, is_safe_name}
use agentic_hive.Session.Listing.{Session, since, format_idle, ssh_command_of}

-- A session of the remote host; the times are seconds.
pub record Row : Type 0 where
  pub name : Text
  pub created : ℕ
  pub windows : ℕ
  pub attached : ℕ
  pub activity : ℕ

pub record IsPrintable (row : Row) : Type 0 where
  pub safe : is_safe_name row.name ≡ true
  pub created_small : row.created < 2 ^ 63
  pub windows_small : row.windows < 2 ^ 63
  pub attached_small : row.attached < 2 ^ 63
  pub activity_small : row.activity < 2 ^ 63

abbrev pub numbers_of : Row → Text
numbers_of row =
    format_number row.created
    ++ (b':'
        ∷ (format_number row.windows
            ++ (b':' ∷ (format_number row.attached ++ (b':' ∷ format_number row.activity)))))

abbrev pub print_row : Row → Text
print_row row = row.name ++ (b':' ∷ numbers_of row)

-- Each line has an end.
abbrev pub print_rows : List Row → Text
print_rows [] = []
print_rows (row ∷ rows) = print_row row ++ (10 ∷ print_rows rows)

-- What the list shows of a session.
abbrev pub session_of : ℕ → Server → Row → Session
session_of now srv row = record {
  name = row.name;
  created = pos row.created;
  windows = pos row.windows;
  attached = pos row.attached;
  last_activity = pos row.activity;
  idle = format_idle (since now (pos row.activity));
  ssh_command = ssh_command_of srv row.name;
}

-- The characters of a line.
abbrev of_line : ℕ → Bool
of_line c = is_safe_char c || c == b':'

abbrev pub all_of_line : Text → Bool
all_of_line [] = true
all_of_line (c ∷ s) = of_line c && all_of_line s

pub of_line-solid : (c : ℕ) → of_line c ≡ true → is_space c ≡ false
unfolding is_space
of_line-solid c h = ground arith

pub of_line-newline : (c : ℕ) → of_line c ≡ true → (c == 10) ≡ false
of_line-newline c h = ground arith

pub safe-contains : (s : Text) → all_safe s ≡ true → contains b':' s ≡ false
unfolding contains
safe-contains [] h = refl
safe-contains (c ∷ s) h = ground (arith, safe-contains s)

safe-of_line : (s : Text) → all_safe s ≡ true → all_of_line s ≡ true
safe-of_line [] h = refl
safe-of_line (c ∷ s) h = ground (arith, safe-of_line s)

of_line-append :
    (s t : Text) → all_of_line s ≡ true → all_of_line t ≡ true → all_of_line (s ++ t) ≡ true
of_line-append [] t h k = k
of_line-append (c ∷ s) t h k = ground (arith, of_line-append s t)

digit-safe : (n : ℕ) → is_safe_char (b'0' + n % 10) ≡ true
digit-safe n = ground arith

digits_onto-safe :
    (fuel n : ℕ) (rest : Text) → all_safe rest ≡ true → all_safe (digits_onto fuel n rest) ≡ true
unfolding digits_onto
digits_onto-safe zero n rest h = h
digits_onto-safe (suc fuel) n rest h =
    ground (arith, digit-safe n, digits_onto-safe fuel (n / 10) ((b'0' + n % 10) ∷ rest))

pub format_number-safe : (n : ℕ) → all_safe (format_number n) ≡ true
unfolding format_number
format_number-safe n = digits_onto-safe 20 n [] refl

pub safe_name : (s : Text) → is_safe_name s ≡ true → all_safe s ≡ true
safe_name [] h = cc
safe_name (c ∷ s) h = h

numbers_of-of_line : (row : Row) → all_of_line (numbers_of row) ≡ true
numbers_of-of_line row =
    let number : (n : ℕ) → all_of_line (format_number n) ≡ true =
      λ n. safe-of_line (format_number n) (format_number-safe n) in
    of_line-append (format_number row.created) _ (number row.created) (
      of_line-append (format_number row.windows) _ (number row.windows)
        (of_line-append (format_number row.attached) _ (number row.attached) (number row.activity)))

pub print_row-of_line : (row : Row) → IsPrintable row → all_of_line (print_row row) ≡ true
print_row-of_line row p =
    of_line-append row.name (b':' ∷ numbers_of row)
      (safe-of_line row.name (safe_name row.name p.safe)) (numbers_of-of_line row)
