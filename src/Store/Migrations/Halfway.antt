-- ===== src/Store/Migrations/Halfway.antt =====
-- The last file on a database at version 5, and on one that has its first column already.
use text.Mathlib.Text.{◌==◌}
use agentic_hive.Prelude.{
  ◌≡◌, refl, true, String, List, ◌∷◌, Option, none, some, any, arith, Bool-cases, inl, inr, lookup,
  lookup-insert_self, ◌∙◌, ap,
}
use agentic_hive.Store.Migrations.{
  Database, Sql, add_column, insert_version, Faults, Outcome, add_on, and_then, unless_fault,
  has_column, run_sql, exec_all, highest, is_due, scan_version, run_file, run_entries,
  migrate_entries, prefixed,
}
use agentic_hive.Store.Migrations.Files.{migrations, migrate, sql_vault_key_ref}
use agentic_hive.Store.Migrations.Running.{current_version-working}

pub and_then-id : (o : Outcome) → and_then o (λ d. (none, d)) ≡ o
and_then-id (none, db) = refl
and_then-id (some e, db) = refl

abbrev pub label : String
label = "execute migration 006_vault_key_ref.sql: "

-- At version 5 the last file alone is run.
pub migrate-version_5 :
    (faults : Faults) (db : Database)
    → faults.selects ≡ true
    → highest db.versions ≡ 5
    → migrate faults db ≡ prefixed label (exec_all faults sql_vault_key_ref db)
unfolding migrate migrate_entries
migrate-version_5 faults db works five =
    ap (λ n. run_entries faults n migrations db) (current_version-working faults db works ∙ five)
    ∙ last
  where
    last :
        run_entries faults 5 migrations db ≡ prefixed label (exec_all faults sql_vault_key_ref db)
    last =
        unfold run_entries run_file is_due scan_version agentic_hive.Text.Numbers.parse_int in
        and_then-id (prefixed label (exec_all faults sql_vault_key_ref db))

-- Version 5, with the first column of the last file already there.
pub record IsHalfway (db : Database) : Type 0 where
  pub at_5 : highest db.versions ≡ 5
  pub added : has_column "key_source" (lookup "servers" db.tables) ≡ true

run_sql-failed :
    (s : Sql) (db : Database) (e : String) → (run_sql s db).0 ≡ some e → (run_sql s db).1 ≡ db
unfolding run_sql
run_sql-failed (Sql.create_table name columns) db e h = ground arith
run_sql-failed (Sql.create_index name table) db e h = ground arith
run_sql-failed (add_column table column) db e h = ground arith
run_sql-failed (insert_version v) db e h = ground arith

-- The error of the engine or of the statement itself.
pub unless_fault-failed :
    (f : Option String) (s : Sql) (db : Database) (e : String)
    → (unless_fault f s db).0 ≡ some e
    → (unless_fault f s db).1 ≡ db
unless_fault-failed none s db e h = run_sql-failed s db e h
unless_fault-failed (some m) s db e h = refl

module _ (db : Database) where
  add_on-IsHalfway :
      (column : String) (found : Option (List String))
      → lookup "servers" db.tables ≡ found
      → IsHalfway db
      → IsHalfway (add_on "servers" column found db).1
  add_on-IsHalfway column none e h = h
  add_on-IsHalfway column (some columns) e h = elim (Bool-cases (any (λ c. c == column) columns)) [
    | inl there ↦ rw there h
    | inr new ↦ rw new (record {
      at_5 = h.at_5;
      added = ground (
        arith,
        lookup-insert_self "servers" (column ∷ columns) db.tables,
        ap (has_column "key_source") e,
        h.added,
      );
    })
  ]

  add_on-added :
      (found : Option (List String))
      → highest db.versions ≡ 5
      → (add_on "servers" "key_source" found db).0 ≡ none
      → IsHalfway (add_on "servers" "key_source" found db).1
  add_on-added none five e = cc
  add_on-added (some columns) five e = elim (Bool-cases (any (λ c. c == "key_source") columns)) [
    | inl there ↦ absurd (ground (arith, there, e))
    | inr new ↦ rw new (record {
      at_5 = five;
      added = ground (arith, lookup-insert_self "servers" ("key_source" ∷ columns) db.tables);
    })
  ]

  add_on-fails :
      (found : Option (List String))
      → has_column "key_source" found ≡ true
      → (e : String) × (add_on "servers" "key_source" found db ≡ (some e, db))
  add_on-fails none h = cc
  add_on-fails (some columns) h = ("duplicate column name: key_source", ground arith)

pub add_column-IsHalfway :
    (f : Option String) (column : String) (db : Database)
    → IsHalfway db
    → IsHalfway (unless_fault f (add_column "servers" column) db).1
unfolding run_sql
add_column-IsHalfway (some m) column db h = h
add_column-IsHalfway none column db h =
    add_on-IsHalfway db column (lookup "servers" db.tables) refl h

pub key_source-IsHalfway :
    (f : Option String) (db : Database)
    → highest db.versions ≡ 5
    → (unless_fault f (add_column "servers" "key_source") db).0 ≡ none
    → IsHalfway (unless_fault f (add_column "servers" "key_source") db).1
unfolding run_sql
key_source-IsHalfway none db five e = add_on-added db (lookup "servers" db.tables) five e
key_source-IsHalfway (some m) db five e = cc

pub key_source-fails :
    (f : Option String) (db : Database)
    → IsHalfway db
    → (e : String) × (unless_fault f (add_column "servers" "key_source") db ≡ (some e, db))
unfolding run_sql
key_source-fails (some m) db h = (m, refl)
key_source-fails none db h = add_on-fails db (lookup "servers" db.tables) h.added
