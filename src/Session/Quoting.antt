-- ===== src/Session/Quoting.antt =====
-- What the remote shell reads in the commands.
use Prim.Native.Char.{code}
use Prim.Native.String
use text.Mathlib.TextLemmas.{nil-append, cons-append}
use agentic_hive.Prelude.{
  String, ℕ, ◌≡◌, refl, ap, sym, ◌∙◌, inl, inr, true, List, [], ◌∷◌, ◌++◌, Option, none, some,
  arith, ◌==◌, ==_iff, if◌then◌else◌, Bool-cases,
}
use agentic_hive.Text.{Text, codes}
use agentic_hive.Session.{
  is_safe_char, all_safe, is_safe_name, sanitize_name, replace_quotes, shell_escape, session_name,
  option_part, create_command, kill_command,
}

-- A POSIX shell's reading of a line as words, for the part of its grammar with blanks, single quotes,
-- backslashes and characters that have no other meaning; `none` for every other line.
pub data Mode : Type 0 where
  bare quoted escaped : Mode

abbrev word_of : Option Text → Text
word_of none = []
word_of (some w) = w

abbrev finish : Option Text → Option (List Text) → Option (List Text)
finish cur none = none
finish none (some ws) = some ws
finish (some w) (some ws) = some (w ∷ ws)

pub scan : Mode → Option Text → Text → Option (List Text)
scan bare cur [] = finish cur (some [])
scan quoted cur [] = none
scan escaped cur [] = none
scan bare cur (c ∷ s) =
    let next_word = scan bare none s in
    let quotation = scan quoted (some (word_of cur)) s in
    let backslash = scan escaped (some (word_of cur)) s in
    let same_word = scan bare (some (word_of cur ++ c ∷ [])) s in
    if is_safe_char c
    then same_word
    else if c == b' '
    then finish cur next_word
    else if c == b'\''
    then quotation
    else if c == b'\\'
    then backslash
    else none
scan quoted cur (c ∷ s) =
    let closed = scan bare cur s in
    let same_word = scan quoted (some (word_of cur ++ c ∷ [])) s in
    if c == b'\'' then closed else same_word
scan escaped cur (c ∷ s) = scan bare (some (word_of cur ++ c ∷ [])) s

append_one : (w s : Text) (c : ℕ) → (w ++ c ∷ []) ++ s ≡ w ++ c ∷ s
append_one [] s c = refl
append_one (d ∷ w) s c = ap (λ x. d ∷ x) (append_one w s c)

append_nil : (w : Text) → w ++ [] ≡ w
append_nil [] = refl
append_nil (d ∷ w) = ap (λ x. d ∷ x) (append_nil w)

append_assoc : (a b c : Text) → (a ++ b) ++ c ≡ a ++ (b ++ c)
append_assoc [] b c = refl
append_assoc (d ∷ a) b c = ap (λ x. d ∷ x) (append_assoc a b c)

scan-safe :
    (s rest w : Text)
    → all_safe s ≡ true
    → scan bare (some w) (s ++ rest) ≡ scan bare (some (w ++ s)) rest
unfolding scan
scan-safe [] rest w h = rw (append_nil w) refl
scan-safe (c ∷ s) rest w h =
    let (first, others) : (is_safe_char c ≡ true) × (all_safe s ≡ true) = ground (arith, h) in
    rw (first, scan-safe s rest (w ++ c ∷ []) others, append_one w s c) refl

scan-replace_quotes :
    (s rest w : Text)
    → scan quoted (some w) ((replace_quotes s ++ b'\'' ∷ []) ++ rest)
      ≡ scan bare (some (w ++ s)) rest
unfolding scan
scan-replace_quotes [] rest w = rw (append_nil w) refl
scan-replace_quotes (c ∷ s) rest w = elim (Bool-cases (c == b'\'')) [
  | inl quote ↦
      rw (quote, (==_iff c b'\'').0 quote)
        (rw (scan-replace_quotes s rest (w ++ b'\'' ∷ []), append_one w s b'\'') refl)
  | inr other ↦ rw (other, other, scan-replace_quotes s rest (w ++ c ∷ []), append_one w s c) refl
]

scan-shell_escape :
    (s rest : Text) → scan bare none (shell_escape s ++ rest) ≡ scan bare (some s) rest
unfolding scan
scan-shell_escape s rest = scan-replace_quotes s rest []

scan-shell_escape_last : (s : Text) → scan bare none (shell_escape s) ≡ some (s ∷ [])
unfolding scan
scan-shell_escape_last s =
    ap (scan bare none) (sym (append_nil (shell_escape s))) ∙ scan-shell_escape s []

scan-name :
    (name rest : Text)
    → is_safe_name name ≡ true
    → scan bare none (name ++ rest) ≡ scan bare (some name) rest
unfolding scan
scan-name [] rest h = absurd (ground (arith, h))
scan-name (c ∷ s) rest h =
    let (first, others) : (is_safe_char c ≡ true) × (all_safe s ≡ true) = ground (arith, h) in
    rw (first, scan-safe s rest (c ∷ []) others) refl

-- The words of an optional argument.
abbrev pub argument_words : (flag : List Text) → (arg : Text) → List Text
argument_words flag [] = []
argument_words flag (c ∷ arg) = flag ++ (c ∷ arg) ∷ []

scan-command_part :
    (name command : Text)
    → scan bare (some name) (option_part (codes " ") command)
      ≡ some (name ∷ argument_words [] command)
unfolding scan
scan-command_part name [] = refl
scan-command_part name (c ∷ s) = rw (scan-shell_escape_last (c ∷ s)) refl

scan-options :
    (name command workdir : Text)
    → scan bare (some name) (option_part (codes " -c ") workdir ++ option_part (codes " ") command)
      ≡ some (name ∷ argument_words (codes "-c" ∷ []) workdir ++ argument_words [] command)
unfolding scan
scan-options name command [] = scan-command_part name command
scan-options name command (c ∷ s) =
    rw
      (
        scan-shell_escape (c ∷ s) (option_part (codes " ") command),
        scan-command_part (c ∷ s) command,
      )
      refl

all_safe-append : (s t : Text) → all_safe s ≡ true → all_safe t ≡ true → all_safe (s ++ t) ≡ true
all_safe-append [] t h k = k
all_safe-append (c ∷ s) t h k = ground (arith, all_safe-append s t, h, k)

all_safe-sanitize_name : (s : String) → all_safe (codes (sanitize_name s)) ≡ true
all_safe-sanitize_name String.[] = refl
all_safe-sanitize_name (String.◌∷◌ c s) = elim (Bool-cases (is_safe_char (code c))) [
  | inl safe ↦ rw (safe, safe) (all_safe-sanitize_name s)
  | inr other ↦ rw other (all_safe-sanitize_name s)
]

codes-append : (s t : String) → codes (String.◌++◌ s t) ≡ codes s ++ codes t
codes-append String.[] t = ap codes (nil-append t)
codes-append (String.◌∷◌ c s) t =
    ap codes (cons-append c s t) ∙ ap (λ x. code c ∷ x) (codes-append s t)

safe_middle :
    (s t : Text) → all_safe s ≡ true → all_safe t ≡ true → is_safe_name (s ++ (b'-' ∷ t)) ≡ true
safe_middle [] t h k = k
safe_middle (c ∷ s) t h k = all_safe-append (c ∷ s) (b'-' ∷ t) h k

session_name-is_safe :
    (user label short_id : String)
    → all_safe (codes short_id) ≡ true
    → is_safe_name (codes (session_name user label short_id)) ≡ true
session_name-is_safe user label short_id h =
    let tail = String.◌++◌ (sanitize_name label) (String.◌++◌ "-" short_id) in
    rw
      (
        codes-append (sanitize_name user) (String.◌++◌ "-" tail),
        codes-append "-" tail,
        codes-append (sanitize_name label) (String.◌++◌ "-" short_id),
        codes-append "-" short_id,
      )
      (safe_middle (codes (sanitize_name user))
        (codes (sanitize_name label) ++ (b'-' ∷ codes short_id)) (all_safe-sanitize_name user)
        (all_safe-append (codes (sanitize_name label)) (b'-' ∷ codes short_id)
          (all_safe-sanitize_name label) h))

-- Whatever user, label, command and directory are, the remote shell reads the command of
-- `CreateSession` as one call of tmux: the name, the directory and the command are one word each,
-- letter for letter, if the short identifier is safe, as a hexadecimal number is.
pub create_command_words :
    (user label short_id : String) (command workdir : Text)
    → all_safe (codes short_id) ≡ true
    → let name = codes (session_name user label short_id) in
      scan bare none (create_command name command workdir)
      ≡ some (
          codes "tmux"
            ∷ codes "new-session"
            ∷ codes "-d"
            ∷ codes "-s"
            ∷ name
            ∷ argument_words (codes "-c" ∷ []) workdir
          ++ argument_words [] command)
unfolding create_command scan
create_command_words user label short_id command workdir h =
    let name = codes (session_name user label short_id) in
    let options = option_part (codes " -c ") workdir ++ option_part (codes " ") command in
    ap
      (λ words. finish (some (codes "tmux")) (
        finish (some (codes "new-session"))
          (finish (some (codes "-d")) (finish (some (codes "-s")) words))))
      (scan-name name options (session_name-is_safe user label short_id h)
        ∙ scan-options name command workdir)

alone : (name : Text) → is_safe_name name ≡ true → scan bare none name ≡ some (name ∷ [])
unfolding scan
alone name safe = ap (scan bare none) (sym (append_nil name)) ∙ scan-name name [] safe

some_inj : {a b : Text} → ◌≡◌ {A = Option Text} (some a) (some b) → a ≡ b
some_inj h = ground (arith, h)

-- A command of `KillSession` is one call of tmux, with the name as one word.
pub kill_command_words :
    (name line : Text)
    → kill_command name ≡ some line
    → scan bare none line ≡ some (codes "tmux" ∷ codes "kill-session" ∷ codes "-t" ∷ name ∷ [])
unfolding kill_command scan
kill_command_words name line h = elim (Bool-cases (is_safe_name name)) [
  | inl safe ↦
      let built : codes "tmux kill-session -t " ++ name ≡ line = some_inj (rw safe at h) in
      rw (← built) (
        ap
          (λ words.
            finish (some (codes "tmux"))
              (finish (some (codes "kill-session")) (finish (some (codes "-t")) words)))
          (alone name safe))
  | inr bad ↦ let none_left = rw bad at h in absurd (ground (arith, none_left))
]
