-- ===== src/Session/Listing/Printing.antt =====
-- The list of sessions as tmux prints it for the format that is asked for, and what is read of it.
use agentic_hive.Prelude.{
  ℕ, suc, ◌≡◌, refl, ap, sym, ◌∙◌, true, false, List, [], ◌∷◌, ◌++◌, map, All, arith,
}
use agentic_hive.Text.{Text, is_space, is_nil, trim_left, trim_right, trim_space, split, split_n}
use agentic_hive.Text.Searching.{cut-append}
use agentic_hive.Text.Numbers.{format_number}
use agentic_hive.Text.Numbers.Printing.{parse_int-format_number}
use agentic_hive.Store.{Server}
use agentic_hive.Session.{all_safe, is_safe_name}
use agentic_hive.Session.Listing.{read_fields, read_line, read_lines, parse_sessions}
use agentic_hive.Session.Listing.Rows.{
  Row, IsPrintable, numbers_of, print_row, print_rows, session_of, all_of_line, of_line-solid,
  of_line-newline, safe-contains, format_number-safe, safe_name, print_row-of_line,
}

trim_right-append : (s t : Text) → all_of_line s ≡ true → trim_right (s ++ t) ≡ s ++ trim_right t
unfolding trim_right
trim_right-append [] t h = refl
trim_right-append (c ∷ s) t h = ground (arith, of_line-solid c, trim_right-append s t)

split-append : (s t : Text) → all_of_line s ≡ true → split 10 (s ++ 10 ∷ t) ≡ s ∷ split 10 t
unfolding split
split-append [] t h = refl
split-append (c ∷ s) t h = ground (arith, of_line-newline c, split-append s t)

split-line : (s : Text) → all_of_line s ≡ true → split 10 s ≡ s ∷ []
unfolding split
split-line [] h = refl
split-line (c ∷ s) h = ground (arith, of_line-newline c, split-line s)

append_nil : (s : Text) → s ++ [] ≡ s
append_nil [] = refl
append_nil (c ∷ s) = ap (λ t. c ∷ t) (append_nil s)

trim_right-line : (s : Text) → all_of_line s ≡ true → trim_right s ≡ s
unfolding trim_right
trim_right-line s h = ap trim_right (sym (append_nil s)) ∙ trim_right-append s [] h ∙ append_nil s

trim_left-name : (s t : Text) → is_safe_name s ≡ true → trim_left (s ++ t) ≡ s ++ t
unfolding trim_left
trim_left-name [] t h = cc
trim_left-name (c ∷ s) t h = ground (arith, of_line-solid c)

split_n-append :
    (n : ℕ) (s t : Text)
    → all_safe s ≡ true
    → split_n (suc n) b':' (s ++ b':' ∷ t) ≡ s ∷ split_n n b':' t
unfolding split_n
split_n-append n s t h = rw (cut-append b':' s t (safe-contains s h), split_n) refl

print_row-fields :
    (row : Row)
    → IsPrintable row
    → split_n 4 b':' (print_row row)
      ≡ row.name
        ∷ format_number row.created
        ∷ format_number row.windows
        ∷ format_number row.attached
        ∷ format_number row.activity
        ∷ []
unfolding split_n
print_row-fields row p =
    split_n-append 3 row.name _ (safe_name row.name p.safe)
    ∙ ap (λ rest. row.name ∷ rest)
        (split_n-append 2 (format_number row.created) _ (format_number-safe row.created)
          ∙ ap (λ rest. format_number row.created ∷ rest)
              (split_n-append 1 (format_number row.windows) _ (format_number-safe row.windows)
                ∙ ap (λ rest. format_number row.windows ∷ rest)
                    (split_n-append 0 (format_number row.attached) _
                      (format_number-safe row.attached))))

is_nil-name : (s t : Text) → is_safe_name s ≡ true → is_nil (s ++ t) ≡ false
is_nil-name [] t h = cc
is_nil-name (c ∷ s) t h = refl

is_nil-line : (s t u : Text) → is_safe_name s ≡ true → is_nil ((s ++ t) ++ u) ≡ false
is_nil-line [] t u h = cc
is_nil-line (c ∷ s) t u h = refl

trim_left-line : (s t u : Text) → is_safe_name s ≡ true → trim_left ((s ++ t) ++ u) ≡ (s ++ t) ++ u
unfolding trim_left
trim_left-line [] t u h = cc
trim_left-line (c ∷ s) t u h = ground (arith, of_line-solid c)

trim_right-newline :
    (t u : Text) → trim_right t ≡ u → is_nil u ≡ false → trim_right (10 ∷ t) ≡ 10 ∷ u
unfolding trim_right is_space
trim_right-newline t u h k = ground arith

-- What is left of the list once its last end of a line is trimmed.
abbrev joined : Row → List Row → Text
joined row [] = print_row row
joined row (next ∷ rows) = print_row row ++ (10 ∷ joined next rows)

is_nil-joined : (row : Row) (rows : List Row) → IsPrintable row → is_nil (joined row rows) ≡ false
is_nil-joined row [] p = is_nil-name row.name _ p.safe
is_nil-joined row (next ∷ rows) p = is_nil-line row.name _ _ p.safe

trim_right-print_rows :
    (row : Row) (rows : List Row)
    → IsPrintable row
    → All IsPrintable rows
    → trim_right (print_rows (row ∷ rows)) ≡ joined row rows
unfolding trim_right is_space
trim_right-print_rows row [] p ps =
    trim_right-append (print_row row) (10 ∷ []) (print_row-of_line row p)
    ∙ append_nil (print_row row)
trim_right-print_rows row (next ∷ rows) p (q, ps) =
    trim_right-append (print_row row) (10 ∷ print_rows (next ∷ rows)) (print_row-of_line row p)
    ∙ ap (λ t. print_row row ++ t)
        (trim_right-newline (print_rows (next ∷ rows)) (joined next rows)
          (trim_right-print_rows next rows q ps) (is_nil-joined next rows q))

trim_left-print_rows :
    (row : Row) (rows : List Row)
    → IsPrintable row
    → trim_left (print_rows (row ∷ rows)) ≡ print_rows (row ∷ rows)
trim_left-print_rows row rows p = trim_left-line row.name _ _ p.safe

module _ (now : ℕ) (srv : Server) where
  read_line-print_row :
      (row : Row)
      → IsPrintable row
      → read_line now srv (print_row row) ≡ session_of now srv row ∷ []
  unfolding read_line trim_space read_fields
  read_line-print_row row p =
      let left : trim_left (print_row row) ≡ print_row row = trim_left-name row.name _ p.safe in
      let right : trim_right (print_row row) ≡ print_row row =
        trim_right-line (print_row row) (print_row-of_line row p) in
      rw
        (
          left,
          right,
          is_nil-name row.name (b':' ∷ numbers_of row) p.safe,
          print_row-fields row p,
          parse_int-format_number row.created p.created_small,
          parse_int-format_number row.windows p.windows_small,
          parse_int-format_number row.attached p.attached_small,
          parse_int-format_number row.activity p.activity_small,
        )
        refl

  read_lines-joined :
      (row : Row) (rows : List Row)
      → IsPrintable row
      → All IsPrintable rows
      → read_lines now srv (split 10 (joined row rows)) ≡ map (session_of now srv) (row ∷ rows)
  unfolding read_lines
  read_lines-joined row [] p ps =
      rw (split-line (print_row row) (print_row-of_line row p), read_line-print_row row p) refl
  read_lines-joined row (next ∷ rows) p (q, ps) =
      rw
        (
          split-append (print_row row) (joined next rows) (print_row-of_line row p),
          read_line-print_row row p,
        )
        (ap (λ rest. session_of now srv row ∷ rest) (read_lines-joined next rows q ps))

  -- The list of sessions that tmux prints is read back: each session with its name and its numbers,
  -- in the same order. The names are those that the program gives, and the numbers fit in 63 bits.
  pub parse_sessions-print_rows :
      (rows : List Row)
      → All IsPrintable rows
      → parse_sessions now srv (print_rows rows) ≡ map (session_of now srv) rows
  unfolding parse_sessions trim_space trim_left trim_right split read_lines read_line
  parse_sessions-print_rows [] ps = refl
  parse_sessions-print_rows (row ∷ rows) (p, ps) =
      rw (trim_left-print_rows row rows p, trim_right-print_rows row rows p ps)
        (read_lines-joined row rows p ps)
