-- ===== src/Session/Tests.antt =====
-- A session with a directory that tries to end its quotation.
use agentic_hive.Prelude.{◌≡◌, refl, List, map, arith, [], ◌∷◌, ◌++◌, none, some}
use agentic_hive.Text.{Text, codes}
use agentic_hive.Session.{session_name, create_command, kill_command}
use agentic_hive.Store.Tests.{web}
use agentic_hive.Session.Listing.{parse_sessions}
use agentic_hive.Session.Listing.Rows.{Row, print_rows, session_of}
use agentic_hive.Session.Listing.Printing.{parse_sessions-print_rows}
use agentic_hive.Session.Quoting.{bare, scan, argument_words, create_command_words}

abbrev command : Text
command = codes "claude --resume"

abbrev workdir : Text
workdir = codes "~/'; rm -rf /; '"

names :
    (session_name "ann@x" "my label" "a1b2c3" ≡ "ann_x-my_label-a1b2c3")
    × (kill_command (codes "a;b") ≡ none)
unfolding kill_command
names = (refl, refl)

create_command_words_example :
    let name = codes (session_name "ann@x" "my label" "a1b2c3") in
    scan bare none (create_command name command workdir)
    ≡ some (
        codes "tmux"
          ∷ codes "new-session"
          ∷ codes "-d"
          ∷ codes "-s"
          ∷ name
          ∷ argument_words (codes "-c" ∷ []) workdir
        ++ argument_words [] command)
create_command_words_example = create_command_words "ann@x" "my label" "a1b2c3" command workdir refl

abbrev rows : List Row
rows =
    record { name = codes "ann-x-1"; created = 100; windows = 1; attached = 0; activity = 160 }
    ∷ record { name = codes "ann-y-2"; created = 120; windows = 3; attached = 1; activity = 170 }
    ∷ []

parse_sessions-print_rows_example :
    parse_sessions 200 web (print_rows rows) ≡ map (session_of 200 web) rows
parse_sessions-print_rows_example = parse_sessions-print_rows 200 web rows (
  record {
    safe = refl;
    created_small = omega arith;
    windows_small = omega arith;
    attached_small = omega arith;
    activity_small = omega arith;
  },
  (
    record {
      safe = refl;
      created_small = omega arith;
      windows_small = omega arith;
      attached_small = omega arith;
      activity_small = omega arith;
    },
    tt,
  ),
)
