-- ===== src/Store/Migrations.antt =====
-- internal/store/store.go: opening the database, and the migrations, with the files of
-- internal/store/migrations. Of a table its columns are kept. The driver runs the statements of a
-- file one by one, each in a transaction of its own, and stops at the first that fails.

pub mod Files
pub mod Statements
pub mod Running
pub mod Upgrading
pub mod Halfway
pub mod Interrupted
mod Tests
use Prim.Native.String.{◌++◌}
use text.Mathlib.Text.{◌==◌}
use agentic_hive.Prelude.{
  ℕ, max, Bool, true, false, ◌||◌, String, List, [], ◌∷◌, Option, none, some, any, ltb, leb,
  if◌then◌else◌, Result, ok, err, lookup, insert,
}
use agentic_hive.Prelude.{◌==◌ as nat_eq}
use agentic_hive.Text.{Text, codes}
use agentic_hive.Text.Numbers.{ℤ, pos, negsuc, is_digit, parse_int, without_error}

pub record Database : Type 0 where
  pub tables : List (String × List String)
  pub indexes : List String
  pub versions : List ℕ

-- The statements of the migration files; those that create name what they create if it is missing.
pub data Sql : Type 0 where
  create_table : (name : String) → (columns : List String) → Sql
  create_index : (name table : String) → Sql
  add_column : (table column : String) → Sql
  insert_version : ℕ → Sql

-- What goes wrong in the engine itself: for which statements, with which message.
pub record Faults : Type 0 where
  pub selects : Bool
  pub statement : Sql → Option String

abbrev pub Outcome : Type 0
Outcome = Option String × Database

abbrev pub and_then : Outcome → (Database → Outcome) → Outcome
and_then (some e, db) k = (some e, db)
and_then (none, db) k = k db

abbrev pub has_column : String → Option (List String) → Bool
has_column column none = false
has_column column (some columns) = any (λ c. c == column) columns

abbrev create_on :
    (name : String) → (columns : List String) → Option (List String) → Database → Outcome
create_on name columns none db = (none, record db { tables = insert name columns db.tables })
create_on name columns (some old) db = (none, db)

abbrev index_on : (name table : String) → Option (List String) → Database → Outcome
index_on name table none db = (some ("no such table: " ++ table), db)
index_on name table (some columns) db = (
  none,
  record db { indexes = if any (λ i. i == name) db.indexes then db.indexes else name ∷ db.indexes },
)

abbrev add_on : (table column : String) → Option (List String) → Database → Outcome
add_on table column none db = (some ("no such table: " ++ table), db)
add_on table column (some columns) db =
    if any (λ c. c == column) columns
    then (some ("duplicate column name: " ++ column), db)
    else (none, record db { tables = insert table (column ∷ columns) db.tables })

abbrev version_on : ℕ → Option (List String) → Database → Outcome
version_on v none db = (some "no such table: schema_version", db)
version_on v (some columns) db = (
  none,
  record db {
    versions = if any (λ n. nat_eq n v) db.versions then db.versions else v ∷ db.versions;
  },
)

unfoldable pub run_sql : Sql → Database → Outcome
run_sql (create_table name columns) db = create_on name columns (lookup name db.tables) db
run_sql (create_index name table) db = index_on name table (lookup table db.tables) db
run_sql (add_column table column) db = add_on table column (lookup table db.tables) db
run_sql (insert_version v) db = version_on v (lookup "schema_version" db.tables) db

abbrev pub unless_fault : Option String → Sql → Database → Outcome
unless_fault none s db = run_sql s db
unless_fault (some e) s db = (some e, db)

-- `db.Exec` on the text of a file.
unfoldable pub exec_all : Faults → List Sql → Database → Outcome
exec_all faults [] db = (none, db)
exec_all faults (s ∷ rest) db =
    and_then (unless_fault (faults.statement s) s db) (λ d. exec_all faults rest d)

pub record Entry : Type 0 where
  pub name : String
  pub is_dir : Bool
  pub content : Option (List Sql)

-- The digits at the start of a text, behind those of `token`, and the rest.
unfoldable pub span_digits : Text → Text × Text
span_digits [] = ([], [])
span_digits (c ∷ s) =
    let (token, rest) = span_digits s in if is_digit c then (c ∷ token, rest) else ([], c ∷ s)

abbrev underscored : Text × Text → Option ℤ
underscored (token, []) = none
underscored (token, c ∷ s) = if nat_eq c b'_' then without_error (parse_int token) else none

-- `fmt.Sscanf(name, "%d_", &version)`, for a name that begins with no blank.
unfoldable pub scan_version : Text → Option ℤ
unfolding span_digits
scan_version [] = none
scan_version (c ∷ s) =
    let (token, rest) = span_digits s in
    if nat_eq c b'-' || nat_eq c b'+'
    then underscored (c ∷ token, rest)
    else underscored (span_digits (c ∷ s))

abbrev pub highest : List ℕ → ℕ
highest [] = 0
highest (v ∷ vs) = max v (highest vs)

-- The error of this query is dropped, which leaves 0.
unfoldable pub current_version : Faults → Database → ℕ
current_version faults db = if faults.selects then highest db.versions else 0

abbrev pub is_newer : ℕ → Option ℤ → Bool
is_newer current none = false
is_newer current (some (negsuc n)) = false
is_newer current (some (pos n)) = ltb current n

abbrev pub prefixed : String → Outcome → Outcome
prefixed message (none, db) = (none, db)
prefixed message (some e, db) = (some (message ++ e), db)

abbrev pub unreadable : String → String
unreadable name =
    "read migration " ++ (name ++ (": open migrations/" ++ (name ++ ": file does not exist")))

unfoldable pub run_file : Faults → String → Option (List Sql) → Database → Outcome
run_file faults name none db = (some (unreadable name), db)
run_file faults name (some statements) db =
    prefixed ("execute migration " ++ (name ++ ": ")) (exec_all faults statements db)

unfoldable pub is_due : ℕ → Entry → Bool
is_due current e = if e.is_dir then false else is_newer current (scan_version (codes e.name))

unfoldable pub run_entries : Faults → ℕ → List Entry → Database → Outcome
run_entries faults current [] db = (none, db)
run_entries faults current (e ∷ rest) db =
    if is_due current e
    then and_then (run_file faults e.name e.content db) (λ d. run_entries faults current rest d)
    else run_entries faults current rest db

-- The version is read once, in front of the loop.
unfoldable pub migrate_entries : Faults → List Entry → Database → Outcome
migrate_entries faults entries db = run_entries faults (current_version faults db) entries db
