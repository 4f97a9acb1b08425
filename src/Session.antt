-- ===== src/Session.antt =====
-- The commands of internal/session/manager.go: names and quoting for the remote shell.
pub mod Quoting
pub mod Listing
pub mod Manager
mod Tests
use Prim.Native.Char.{char, code}
use Prim.Native.String
use agentic_hive.Prelude.{
  String, ℕ, Bool, true, false, ◌||◌, ◌&&◌, List, [], ◌∷◌, ◌++◌, Option, none, some, map, leb, ◌==◌,
  if◌then◌else◌,
}
use agentic_hive.Text.{Text, codes}

-- `[a-zA-Z0-9_-]`
abbrev pub is_safe_char : ℕ → Bool
is_safe_char c =
    (leb b'a' c && leb c b'z')
    || (leb b'A' c && leb c b'Z')
    || (leb b'0' c && leb c b'9')
    || c == b'_'
    || c == b'-'

abbrev pub all_safe : Text → Bool
all_safe [] = true
all_safe (c ∷ s) = is_safe_char c && all_safe s

-- `safeNameRe`: one safe character or more.
abbrev pub is_safe_name : Text → Bool
is_safe_name [] = false
is_safe_name (c ∷ s) = all_safe (c ∷ s)

abbrev pub sanitize_name : String → String
sanitize_name String.[] = ""
sanitize_name (String.◌∷◌ c s) =
    let rest = sanitize_name s in
    if is_safe_char (code c) then String.◌∷◌ c rest else String.◌∷◌ (char 95 tt) rest

-- `strings.ReplaceAll` of a quote by the four characters that end the quotation, write one, and
-- begin a quotation again.
abbrev pub replace_quotes : Text → Text
replace_quotes [] = []
replace_quotes (c ∷ s) =
    let rest = replace_quotes s in
    if c == b'\'' then b'\'' ∷ b'\\' ∷ b'\'' ∷ b'\'' ∷ rest else c ∷ rest

abbrev pub shell_escape : Text → Text
shell_escape s = b'\'' ∷ replace_quotes s ++ b'\'' ∷ []

abbrev pub session_name : (user label short_id : String) → String
session_name user label short_id =
    String.◌++◌ (sanitize_name user)
      (String.◌++◌ "-" (String.◌++◌ (sanitize_name label) (String.◌++◌ "-" short_id)))

-- The command line of `CreateSession`.
abbrev pub option_part : (before arg : Text) → Text
option_part before [] = []
option_part before (c ∷ arg) = before ++ shell_escape (c ∷ arg)

unfoldable pub create_command : (name command workdir : Text) → Text
create_command name command workdir =
    codes "tmux new-session -d -s "
    ++ (name ++ (option_part (codes " -c ") workdir ++ option_part (codes " ") command))

-- The command line of `KillSession`, `none` for a name that it refuses.
unfoldable pub kill_command : (name : Text) → Option Text
kill_command name = if is_safe_name name then some (codes "tmux kill-session -t " ++ name) else none
