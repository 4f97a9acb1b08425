-- ===== src/Store/Migrations/Interrupted.antt =====
-- What is left of an upgrade that is interrupted: the statements of a file are no transaction.
use Prim.Native.String.{◌++◌}
use agentic_hive.Prelude.{◌≡◌, ◌≢◌, refl, true, String, [], ◌∷◌, none, some, ◌∙◌, ap, sym, subst}
use agentic_hive.Store.Migrations.{
  Database, Sql, add_column, insert_version, Faults, Outcome, and_then, unless_fault, exec_all,
  highest, prefixed,
}
use agentic_hive.Store.Migrations.Files.{migrate, sql_vault_key_ref}
use agentic_hive.Store.Migrations.Statements.{prefixed-same}
use agentic_hive.Store.Migrations.Halfway.{
  and_then-id, label, migrate-version_5, IsHalfway, unless_fault-failed, add_column-IsHalfway,
  key_source-IsHalfway, key_source-fails,
}

-- The rest of the file behind its first statement, where it fails.
rest-IsHalfway :
    (faults : Faults) (db : Database) (e : String)
    → IsHalfway db
    → (exec_all faults (add_column "servers" "vault_key_path" ∷ insert_version 6 ∷ []) db).0
      ≡ some e
    → IsHalfway
        (exec_all faults (add_column "servers" "vault_key_path" ∷ insert_version 6 ∷ []) db).1
unfolding exec_all
rest-IsHalfway faults db e h failed =
    second
      (unless_fault (faults.statement (add_column "servers" "vault_key_path"))
        (add_column "servers" "vault_key_path") db)
      (add_column-IsHalfway (faults.statement (add_column "servers" "vault_key_path"))
        "vault_key_path" db h)
      failed
  where
    recorded : Database → Outcome
    recorded d = unless_fault (faults.statement (insert_version 6)) (insert_version 6) d

    second :
        (o : Outcome)
        → IsHalfway o.1
        → (and_then o (λ d. and_then (recorded d) (λ d'. (none, d')))).0 ≡ some e
        → IsHalfway (and_then o (λ d. and_then (recorded d) (λ d'. (none, d')))).1
    second (some m, d) half eq = half
    second (none, d) half eq =
        let same = and_then-id (recorded d) in
        let kept =
          unless_fault-failed (faults.statement (insert_version 6)) (insert_version 6) d e
            (sym (ap (λ o. o.0) same) ∙ eq) in
        subst IsHalfway (sym (ap (λ o. o.1) same ∙ kept)) half

file-IsHalfway :
    (faults : Faults) (db : Database) (e : String)
    → highest db.versions ≡ 5
    → (exec_all faults sql_vault_key_ref db).0 ≡ some e
    → (exec_all faults sql_vault_key_ref db).1 ≢ db
    → IsHalfway (exec_all faults sql_vault_key_ref db).1
unfolding exec_all
file-IsHalfway faults db e five failed changed =
    first (unless_fault (faults.statement key_source) key_source db) refl failed changed
  where
    key_source : Sql
    key_source = add_column "servers" "key_source"

    rest : Database → Outcome
    rest d = exec_all faults (add_column "servers" "vault_key_path" ∷ insert_version 6 ∷ []) d

    first :
        (o : Outcome)
        → unless_fault (faults.statement key_source) key_source db ≡ o
        → (and_then o rest).0 ≡ some e
        → (and_then o rest).1 ≢ db
        → IsHalfway (and_then o rest).1
    first (some m, d) is eq new = absurd (
        new (
          sym (ap (λ o. o.1) is)
          ∙ unless_fault-failed (faults.statement key_source) key_source db m (ap (λ o. o.0) is)))
    first (none, d) is eq new =
        rest-IsHalfway faults d e
          (subst (λ o. IsHalfway o.1) is
            (key_source-IsHalfway (faults.statement key_source) db five (ap (λ o. o.0) is)))
          eq

file-fails :
    (faults : Faults) (db : Database)
    → IsHalfway db
    → (e : String) × (exec_all faults sql_vault_key_ref db ≡ (some e, db))
unfolding exec_all
file-fails faults db h =
    let (e, failed) =
      key_source-fails (faults.statement (add_column "servers" "key_source")) db h in
    (e, rw failed refl)

prefixed-failed :
    (message e : String) (o : Outcome)
    → (prefixed message o).0 ≡ some e
    → (m : String) × (o.0 ≡ some m)
prefixed-failed message e (none, db) h = cc
prefixed-failed message e (some m, db) h = (m, refl)

-- An upgrade from version 5 whose version query works, and which has changed the database and ended
-- with an error, has made the database unusable: each later start whose version query works ends with
-- an error in its migrations, and leaves the database as it is.
pub interrupted_sticks :
    (faults faults' : Faults) (db db' : Database) (e : String)
    → faults.selects ≡ true
    → highest db.versions ≡ 5
    → migrate faults db ≡ (some e, db')
    → db' ≢ db
    → faults'.selects ≡ true
    → (e' : String) × (migrate faults' db' ≡ (some e', db'))
interrupted_sticks faults faults' db db' e works five ended changed works' =
    let ran = exec_all faults sql_vault_key_ref db in
    let seen = sym (migrate-version_5 faults db works five) ∙ ended in
    let (same, _) = prefixed-same label ran in
    let left : ran.1 ≡ db' = sym same ∙ ap (λ o. o.1) seen in
    let (m, failed) = prefixed-failed label e ran (ap (λ o. o.0) seen) in
    let half =
      subst IsHalfway left
        (file-IsHalfway faults db m five failed (subst (λ d. d ≢ db) (sym left) changed)) in
    let (m', again) = file-fails faults' db' half in
    (label ++ m', migrate-version_5 faults' db' works' half.at_5 ∙ ap (prefixed label) again)
