-- ===== src/Backup/Tests.antt =====
-- Backups of a small database.
use agentic_hive.Prelude.{
  ℕ, ◌≡◌, ◌≢◌, refl, String, List, [], ◌∷◌, Option, none, some, Result, ok, lookup, insert, delete,
  arith, eq_iff, sym,
}
use agentic_hive.Http.{succeeded}
use agentic_hive.Backup.{Files, Tools, run, run_backup, Temp, handle_backup}
use agentic_hive.Backup.Copying.{Ends, run-Ends, handle_backup-files}

abbrev vacuum : Option (List ℕ) → Result String (List ℕ)
vacuum none = ok []
vacuum (some bytes) = ok bytes

abbrev tools : Tools
tools = record {
  abs = λ path. ok path;
  remove = λ path. none;
  opens = λ path. none;
  pings = λ path. none;
  settled = λ found. some (elim found [ none ↦ [] | some bytes ↦ bytes ]);
  vacuum = vacuum;
  left = none;
}

abbrev files : Files
files = ("/data/hive.db", 1 ∷ 2 ∷ []) ∷ ("/backups/old.db", 9 ∷ []) ∷ ("/etc/hosts", 5 ∷ []) ∷ []

distinct : ◌≢◌ {A = String} "/backups/old.db" "/data/hive.db"
distinct e = ground (arith, eq_iff "/backups/old.db" "/data/hive.db", e)

apart :
    ◌≢◌ {A = String} "/backups/old.db" "/etc/hosts" × ◌≢◌ {A = String} "/data/hive.db" "/etc/hosts"
apart = (
  λ e. ground (arith, eq_iff "/backups/old.db" "/etc/hosts", e),
  λ e. ground (arith, eq_iff "/data/hive.db" "/etc/hosts", e),
)

run-Ends_example :
    let ran = run tools "/data/hive.db" "/backups/old.db" files in
    Ends tools (some (1 ∷ 2 ∷ [])) "/backups/old.db" ran
    × (lookup "/etc/hosts" ran.1 ≡ lookup "/etc/hosts" files)
unfolding lookup
run-Ends_example =
    run-Ends tools "/data/hive.db" "/backups/old.db" "/backups/old.db" "/etc/hosts" files refl refl
      distinct apart.0 apart.1

lost :
    run_backup tools "/data/hive.db" "/data/hive.db" files
    ≡ (0, ("/backups/old.db", 9 ∷ []) ∷ ("/etc/hosts", 5 ∷ []) ∷ ("/data/hive.db", []) ∷ [])
unfolding run_backup run lookup insert delete
lost = refl

abbrev temp : Temp
temp = record { tmp = some "/tmp/overlay-backup-1.db"; reads = vacuum }

downloaded :
    (handle_backup tools temp "20260101-000000" "/data/hive.db" files).0
    ≡ succeeded 200
        (record { filename = "overlay-backup-20260101-000000.db"; content = 1 ∷ 2 ∷ [] })
unfolding handle_backup run lookup insert delete
downloaded = refl

handle_backup-files_example :
    lookup "/backups/old.db" (handle_backup tools temp "20260101-000000" "/data/hive.db" files).1
    ≡ lookup "/backups/old.db" files
unfolding lookup
handle_backup-files_example =
    handle_backup-files tools temp "20260101-000000" "/data/hive.db" "/tmp/overlay-backup-1.db"
      "/backups/old.db" files (λ e. distinct (sym e)) refl refl refl refl
