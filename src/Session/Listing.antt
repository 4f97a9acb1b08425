-- ===== src/Session/Listing.antt =====
-- What `ListSessions` of internal/session/manager.go makes of the output of tmux.
pub mod Rows
pub mod Printing
use agentic_hive.Prelude.{ℕ, ◌+◌, ◌-◌, ◌/◌, ◌%◌, ◌^◌, List, [], ◌∷◌, ◌++◌, ltb, leb, if◌then◌else◌}
use agentic_hive.Text.{Text, codes, trim_space, split, split_n, is_nil}
use agentic_hive.Text.Numbers.{ℤ, pos, negsuc, parse_int, format_number, format_int}
use agentic_hive.Store.{Server}

pub record Session : Type 0 where
  pub name : Text
  pub created : ℤ
  pub windows : ℤ
  pub attached : ℤ
  pub last_activity : ℤ
  pub idle : Text
  pub ssh_command : Text

-- `now - activity` on 64 bits; `now` is a time of the clock, which is below `2 ^ 63`.
unfoldable pub since : ℕ → ℤ → ℤ
since now (pos a) = if leb a now then pos (now - a) else negsuc (a - now - 1)
since now (negsuc a) =
    let total = now + a + 1 in if ltb total (2 ^ 63) then pos total else negsuc (2 ^ 64 - total - 1)

unfoldable pub format_idle : ℤ → Text
format_idle (negsuc n) = format_int (negsuc n) ++ b's' ∷ []
format_idle (pos n) =
    if ltb n 60
    then format_number n ++ b's' ∷ []
    else if ltb n 3600
    then format_number (n / 60) ++ b'm' ∷ []
    else format_number (n / 3600) ++ b'h' ∷ (format_number (n % 3600 / 60) ++ b'm' ∷ [])

abbrev pub ssh_command_of : Server → Text → Text
ssh_command_of srv name =
    codes "ssh -t "
    ++ (codes srv.ssh_user
        ++ (b'@' ∷ (codes srv.host ++ (codes " \"tmux new -A -s " ++ (name ++ b'"' ∷ [])))))

module _ (now : ℕ) (srv : Server) where
  -- The five fields of a line; a line with fewer is left out. A number that cannot be read counts
  -- with the value that comes beside the error.
  unfoldable pub read_fields : List Text → List Session
  read_fields (name ∷ created ∷ windows ∷ attached ∷ activity ∷ []) =
      record {
        name = name;
        created = (parse_int created).0;
        windows = (parse_int windows).0;
        attached = (parse_int attached).0;
        last_activity = (parse_int activity).0;
        idle = format_idle (since now (parse_int activity).0);
        ssh_command = ssh_command_of srv name;
      }
      ∷ []
  read_fields parts = []

  unfoldable pub read_line : Text → List Session
  unfolding read_fields
  read_line line =
      let trimmed = trim_space line in
      if is_nil trimmed then [] else read_fields (split_n 4 b':' trimmed)

  unfoldable pub read_lines : List Text → List Session
  unfolding read_line
  read_lines [] = []
  read_lines (line ∷ lines) = read_line line ++ read_lines lines

  unfoldable pub parse_sessions : Text → List Session
  unfolding read_lines
  parse_sessions output = read_lines (split 10 (trim_space output))
