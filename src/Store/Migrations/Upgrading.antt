-- ===== src/Store/Migrations/Upgrading.antt =====
-- Upgrades from the earlier versions.
use agentic_hive.Prelude.{ℕ, zero, suc, ◌≤◌, ◌≡◌, refl, true, [], none, take, arith, lookup, insert}
use agentic_hive.Store.Migrations.{
  Database, Faults, run_sql, exec_all, current_version, is_due, scan_version, run_file, run_entries,
  migrate_entries,
}
use agentic_hive.Store.Migrations.Files.{migrations, migrate}

abbrev pub healthy : Faults
healthy = record { selects = true; statement = λ s. none }

abbrev pub empty_database : Database
empty_database = record { tables = []; indexes = []; versions = [] }

-- What the first files of the directory make of an empty database.
unfoldable pub stage : ℕ → Database
stage k = (run_entries healthy 0 (take k migrations) empty_database).1

-- An empty database, or what the first files have made of one, is brought to the state that all six
-- files make, without an error, where the engine works.
pub migrate-stage : (k : ℕ) → k ≤ 6 → migrate healthy (stage k) ≡ (none, stage 6)
unfolding migrate migrate_entries current_version run_entries run_file exec_all run_sql is_due
    scan_version agentic_hive.Text.Numbers.parse_int stage lookup insert
migrate-stage zero le = refl
migrate-stage (suc zero) le = refl
migrate-stage (suc (suc zero)) le = refl
migrate-stage (suc (suc (suc zero))) le = refl
migrate-stage (suc (suc (suc (suc zero)))) le = refl
migrate-stage (suc (suc (suc (suc (suc zero))))) le = refl
migrate-stage (suc (suc (suc (suc (suc (suc zero)))))) le = refl
migrate-stage (suc (suc (suc (suc (suc (suc (suc k))))))) le = absurd (omega arith)
