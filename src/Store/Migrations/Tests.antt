-- ===== src/Store/Migrations/Tests.antt =====
-- Upgrades of concrete databases.
use agentic_hive.Prelude.{
  ◌≡◌, ◌≢◌, refl, true, false, String, Option, none, some, arith, ap, sym, ◌∙◌, lookup, insert,
}
use agentic_hive.Store.Migrations.{
  Database, Sql, insert_version, Faults, has_column, run_sql, exec_all, highest, current_version,
  is_due, scan_version, run_file, run_entries, migrate_entries,
}
use agentic_hive.Store.Migrations.Files.{migrate, open_store}
use agentic_hive.Store.Migrations.Running.{migrate-migrate}
use agentic_hive.Store.Migrations.Upgrading.{healthy, empty_database, stage, migrate-stage}
use agentic_hive.Store.Migrations.Interrupted.{interrupted_sticks}

-- Every statement of the second start would fail.
abbrev dead : Faults
dead = record { selects = true; statement = λ s. some "disk I/O error" }

migrate-migrate_example : migrate dead (stage 6) ≡ (none, stage 6)
migrate-migrate_example =
    migrate-migrate healthy dead (stage 4) (stage 6) (migrate-stage 4 (omega arith)) refl

abbrev full_at_end : Sql → Option String
full_at_end (insert_version n) = some "database or disk is full"
full_at_end s = none

abbrev full : Faults
full = record { selects = true; statement = full_at_end }

abbrev half_done : Database
half_done = (migrate full (stage 5)).1

half_columns : has_column "key_source" (lookup "servers" half_done.tables) ≡ true
unfolding migrate migrate_entries current_version run_entries run_file exec_all run_sql is_due
    scan_version agentic_hive.Text.Numbers.parse_int stage lookup insert
half_columns = refl

half_ends :
    migrate full (stage 5)
    ≡ (some "execute migration 006_vault_key_ref.sql: database or disk is full", half_done)
unfolding migrate migrate_entries current_version run_entries run_file exec_all run_sql is_due
    scan_version agentic_hive.Text.Numbers.parse_int stage lookup insert
half_ends = refl

stage_5 :
    (highest (stage 5).versions ≡ 5)
    × (has_column "key_source" (lookup "servers" (stage 5).tables) ≡ false)
unfolding run_entries run_file exec_all run_sql is_due scan_version
    agentic_hive.Text.Numbers.parse_int stage lookup insert
stage_5 = (refl, refl)

half_new : half_done ≢ stage 5
half_new same =
    let there =
      sym half_columns ∙ ap (λ d. has_column "key_source" (lookup "servers" d.tables)) same in
    absurd (ground (arith, there, stage_5.1))

interrupted_sticks_example : (e' : String) × (migrate healthy half_done ≡ (some e', half_done))
interrupted_sticks_example =
    interrupted_sticks full healthy (stage 5) half_done
      "execute migration 006_vault_key_ref.sql: database or disk is full" refl stage_5.0 half_ends
      half_new refl

unreadable_dir :
    (open_store
      (record { makes_dir = some "read-only file system"; opens = none; pings = none })
      healthy
      empty_database)
    ≡ (some "create db directory: read-only file system", empty_database)
unfolding open_store
unreadable_dir = refl
