-- ===== src/Store/Migrations/Statements.antt =====
-- What one migration file leaves.
use Prim.Native.String.{◌++◌}
use agentic_hive.Prelude.{
  ℕ, ◌≤◌, ◌≡◌, refl, Bool, true, false, String, List, [], ◌∷◌, Option, none, some, any, leb, arith,
  Bool-cases, inl, inr, ◌∙◌, ap, sym,
}
use agentic_hive.Prelude.{◌==◌ as nat_eq}
use agentic_hive.Text.{codes}
use agentic_hive.Text.Numbers.{ℤ, pos}
use agentic_hive.Store.Migrations.{
  Database, Sql, create_table, create_index, add_column, insert_version, Faults, Outcome, Entry,
  and_then, unless_fault, run_sql, exec_all, highest, scan_version, run_file, prefixed,
}

highest-insert : (v : ℕ) (vs : List ℕ) → any (λ n. nat_eq n v) vs ≡ true → v ≤ highest vs
highest-insert v [] e = cc
highest-insert v (n ∷ vs) e = ground (arith, highest-insert v vs)

-- No statement takes a version away, and a version that is inserted is there.
run_sql-highest :
    (s : Sql) (db : Database) → highest db.versions ≤ highest (run_sql s db).1.versions
unfolding run_sql
run_sql-highest (create_table name columns) db = ground arith
run_sql-highest (create_index name table) db = ground arith
run_sql-highest (add_column table column) db = ground arith
run_sql-highest (insert_version v) db = ground arith

insert_version-highest :
    (v : ℕ) (db : Database)
    → (run_sql (insert_version v) db).0 ≡ none
    → v ≤ highest (run_sql (insert_version v) db).1.versions
unfolding run_sql
insert_version-highest v db e = ground (arith, highest-insert v db.versions)

pub and_then-none :
    (o : Outcome) (k : Database → Outcome)
    → (and_then o k).0 ≡ none
    → (o.0 ≡ none) × ((and_then o k) ≡ k o.1)
and_then-none (none, db) k e = (refl, refl)
and_then-none (some m, db) k e = cc

unless_fault-none :
    (f : Option String) (s : Sql) (db : Database)
    → (unless_fault f s db).0 ≡ none
    → unless_fault f s db ≡ run_sql s db
unless_fault-none none s db e = refl
unless_fault-none (some m) s db e = cc

-- The least that the versions of a file's statements promise.
abbrev inserts : ℕ → Sql → Bool
inserts v (insert_version n) = leb v n
inserts v s = false

abbrev pub Records : ℕ → List Sql → Type 0
Records v statements = any (inserts v) statements ≡ true

module _ (faults : Faults) where
  -- The first statement of a run without error has worked, and the rest goes on from there.
  exec_all-next :
      (s : Sql) (ss : List Sql) (db : Database)
      → (exec_all faults (s ∷ ss) db).0 ≡ none
      → ((run_sql s db).0 ≡ none)
        × (exec_all faults (s ∷ ss) db ≡ exec_all faults ss (run_sql s db).1)
  unfolding exec_all
  exec_all-next s ss db e =
      let (first, same) =
        and_then-none (unless_fault (faults.statement s) s db) (λ d. exec_all faults ss d) e in
      let ran = unless_fault-none (faults.statement s) s db first in
      (sym (ap (λ o. o.0) ran) ∙ first, same ∙ ap (λ o. exec_all faults ss o.1) ran)

  exec_all-rises :
      (ss : List Sql) (db : Database)
      → (exec_all faults ss db).0 ≡ none
      → highest db.versions ≤ highest (exec_all faults ss db).1.versions
  exec_all-rises [] db e = unfold exec_all in omega arith
  exec_all-rises (s ∷ ss) db e =
      let (first, same) = exec_all-next s ss db e in
      let rest = exec_all-rises ss (run_sql s db).1 (sym (ap (λ o. o.0) same) ∙ e) in
      rw same (omega (arith, rest, run_sql-highest s db))

  exec_all-Records :
      (v : ℕ) (ss : List Sql) (db : Database)
      → Records v ss
      → (exec_all faults ss db).0 ≡ none
      → v ≤ highest (exec_all faults ss db).1.versions
  exec_all-Records v [] db h e = cc
  exec_all-Records v (s ∷ ss) db h e =
      let (first, same) = exec_all-next s ss db e in
      let good = sym (ap (λ o. o.0) same) ∙ e in
      rw same (elim (Bool-cases (inserts v s)) [
        | inl here ↦
            omega (arith, inserts-highest s here first, exec_all-rises ss (run_sql s db).1 good)
        | inr there ↦ exec_all-Records v ss (run_sql s db).1 (ground (arith, there, h)) good
      ])
    where
      inserts-highest :
          (q : Sql)
          → inserts v q ≡ true
          → (run_sql q db).0 ≡ none
          → v ≤ highest (run_sql q db).1.versions
      inserts-highest (insert_version n) here first =
          ground (arith, insert_version-highest n db first)
      inserts-highest (create_table name columns) here first = cc
      inserts-highest (create_index name table) here first = cc
      inserts-highest (add_column table column) here first = cc

-- A file whose name carries a version records that version, or a later one.
abbrev pub Promise : Option ℤ → Option (List Sql) → Type 0
Promise (some (pos v)) (some statements) = Records v statements
Promise version content = Unit

abbrev pub IsRecording : Entry → Type 0
IsRecording e = Promise (scan_version (codes e.name)) e.content

pub prefixed-same :
    (message : String) (o : Outcome)
    → ((prefixed message o).1 ≡ o.1) × ((prefixed message o).0 ≡ none → o.0 ≡ none)
prefixed-same message (none, db) = (refl, λ e. refl)
prefixed-same message (some m, db) = (refl, λ e. cc)

pub run_file-promised :
    (faults : Faults) (name : String) (content : Option (List Sql)) (db : Database)
    → (run_file faults name content db).0 ≡ none
    → (highest db.versions ≤ highest (run_file faults name content db).1.versions)
      × ((v : ℕ)
          → Promise (some (pos v)) content
          → v ≤ highest (run_file faults name content db).1.versions)
unfolding run_file
run_file-promised faults name none db e = cc
run_file-promised faults name (some ss) db e =
    let (same, quiet) =
      prefixed-same ("execute migration " ++ (name ++ ": ")) (exec_all faults ss db) in
    rw same
      (exec_all-rises faults ss db (quiet e), λ v h. exec_all-Records faults v ss db h (quiet e))
