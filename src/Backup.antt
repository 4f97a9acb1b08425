-- ===== src/Backup.antt =====
-- internal/backup/backup.go, the command `backup` of cmd/server/main.go, and `handleBackup` of
-- internal/server/server.go. The file system gives the content of an absolute path; what SQLite and
-- the operating system answer is a parameter. Paths have no quote, backslash or unprintable character,
-- so that `%q` only puts them between quotes.
pub mod Copying
mod Tests
use Prim.Native.String.{◌++◌}
use text.Mathlib.Text.{◌==◌}
use agentic_hive.Prelude.{
  ℕ, String, Bool, true, false, not, List, Option, none, some, if◌then◌else◌, Result, ok, err,
  lookup, insert, delete, any, [],
}
use agentic_hive.Http.{Response, failed, succeeded}

abbrev pub Files : Type 0
Files = List (String × List ℕ)

-- `remove` fails for a file that is there. `settled` is the content of the source once SQLite has
-- opened it: the driver takes `mode=ro` only from a URI, so a file that is missing may be made, and a
-- journal of the database may be played back. `vacuum` makes the copy of a database, and `left` is
-- what is at the destination after one that fails: the part that has been written, or nothing. The
-- journals that SQLite keeps beside a database are not among the files.
pub record Tools : Type 0 where
  pub abs : String → Result String String
  pub remove : String → Option String
  pub opens : String → Option String
  pub pings : String → Option String
  pub settled : Option (List ℕ) → Option (List ℕ)
  pub vacuum : Option (List ℕ) → Result String (List ℕ)
  pub left : Option (List ℕ)

-- The error, where there is one, and the files afterwards.
abbrev pub Outcome : Type 0
Outcome = Option String × Files

abbrev pub put : String → Option (List ℕ) → Files → Files
put path none fs = delete path fs
put path (some content) fs = insert path content fs

module _ (tools : Tools) where
  -- `os.Remove`, of which a missing file is no error here.
  abbrev removal : String → Option (List ℕ) → Option String
  removal path none = none
  removal path (some old) = tools.remove path

  written : (dst : String) → Result String (List ℕ) → Files → Outcome
  written dst (err e) fs = (some ("vacuum into " ++ (dst ++ (": " ++ e))), put dst tools.left fs)
  written dst (ok copy) fs = (none, insert dst copy fs)

  pinged : (src dst : String) → Option String → Files → Outcome
  unfolding written
  pinged src dst (some e) fs = (some ("ping source database: " ++ e), fs)
  pinged src dst none fs = written dst (tools.vacuum (lookup src fs)) fs

  -- `sql.Open` opens no file; `Ping` does.
  copied : (src dst : String) → Option String → Files → Outcome
  unfolding pinged
  copied src dst (some e) fs = (some ("open source database: " ++ e), fs)
  copied src dst none fs =
      pinged src dst (tools.pings src) (put src (tools.settled (lookup src fs)) fs)

  emptied : (src dst : String) → Option String → Files → Outcome
  unfolding copied
  emptied src dst (some e) fs = (some ("remove existing backup file: " ++ e), fs)
  emptied src dst none fs = copied src dst (tools.opens src) (delete dst fs)

  resolved : (src : String) → Result String String → Files → Outcome
  unfolding emptied
  resolved src (err e) fs = (some ("resolve output path: " ++ e), fs)
  resolved src (ok dst) fs = emptied src dst (removal dst (lookup dst fs)) fs

  -- `Run`
  unfoldable pub run : (src dst : String) → Files → Outcome
  unfolding resolved
  run src dst fs = resolved src (tools.abs dst) fs

  abbrev is_there : Result String String → Files → Bool
  is_there (err e) fs = false
  is_there (ok path) fs = any (λ f. f.0 == path) fs

  exit_code : (output : String) → Outcome → ℕ × Files
  exit_code output (some e, fs) = (1, fs)
  exit_code output (none, fs) = (if is_there (tools.abs output) fs then 0 else 1, fs)

  -- `runBackup`, for flags that parse: the exit code, and the files.
  unfoldable pub run_backup : (output db_path : String) → Files → ℕ × Files
  unfolding exit_code
  run_backup output db_path fs =
      if output == "" then (1, fs) else exit_code output (run db_path output fs)

-- What the client gets: the name of the file, and its content.
pub record Download : Type 0 where
  pub filename : String
  pub content : List ℕ

-- `tmp` is the path that `os.CreateTemp` has made, if it has; `reads` is the content of a file that
-- can be opened and whose size is known, or the error message.
pub record Temp : Type 0 where
  pub tmp : Option String
  pub reads : Option (List ℕ) → Result String (List ℕ)

module _ (tools : Tools) where
  -- `os.Remove`, with its error dropped.
  abbrev try_remove : (path : String) → Option String → Files → Files
  try_remove path none fs = delete path fs
  try_remove path (some e) fs = fs

  abbrev dropped : String → Files → Files
  dropped path fs = try_remove path (tools.remove path) fs

  streamed : (timestamp : String) → Result String (List ℕ) → Response Download
  streamed timestamp (err message) = failed 500 message
  streamed timestamp (ok bytes) =
      succeeded 200
        (record { filename = "overlay-backup-" ++ (timestamp ++ ".db"); content = bytes })

  -- The deferred removal runs on every way out.
  sent : Temp → (timestamp tmp : String) → Outcome → Response Download × Files
  unfolding streamed
  sent temp timestamp tmp (some e, fs) = (failed 500 "backup failed", dropped tmp fs)
  sent temp timestamp tmp (none, fs) =
      (streamed timestamp (temp.reads (lookup tmp fs)), dropped tmp fs)

  with_temp :
      Temp → (timestamp db_path : String) → Option String → Files → Response Download × Files
  unfolding sent
  with_temp temp timestamp db_path none fs = (failed 500 "failed to create temp file", fs)
  with_temp temp timestamp db_path (some tmp) fs =
      sent temp timestamp tmp (run tools db_path tmp (dropped tmp (insert tmp [] fs)))

  unfoldable pub handle_backup :
      Temp → (timestamp db_path : String) → Files → Response Download × Files
  unfolding with_temp
  handle_backup temp timestamp db_path fs = with_temp temp timestamp db_path temp.tmp fs
