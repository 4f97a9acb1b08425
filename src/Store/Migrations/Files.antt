-- ===== src/Store/Migrations/Files.antt =====
-- internal/store/migrations, and the opening of a store with these files.
use Prim.Native.String.{◌++◌}
use agentic_hive.Prelude.{String, false, List, [], ◌∷◌, Option, none, some}
use agentic_hive.Store.Migrations.{
  Database, Sql, create_table, create_index, add_column, insert_version, Faults, Outcome, Entry,
  prefixed, migrate_entries,
}

-- The embedded files, in the order of their names.
abbrev pub sql_initial : List Sql
sql_initial =
    create_table "schema_version" ("version" ∷ "applied_at" ∷ [])
    ∷ create_table "users" (
        "id" ∷ "username" ∷ "password_hash" ∷ "role" ∷ "oidc_subject" ∷ "created_at" ∷ "updated_at"
        ∷ [])
    ∷ create_table "servers"
        ("id" ∷ "name" ∷ "host" ∷ "port" ∷ "ssh_user" ∷ "status" ∷ "created_at" ∷ "updated_at" ∷ [])
    ∷ create_table "ssh_keys" ("server_id" ∷ "encrypted_key" ∷ "salt" ∷ "nonce" ∷ "created_at" ∷ [])
    ∷ create_table "session_templates"
        ("id" ∷ "name" ∷ "command" ∷ "workdir" ∷ "server_id" ∷ "created_at" ∷ [])
    ∷ insert_version 1
    ∷ []

abbrev pub sql_host_keys : List Sql
sql_host_keys =
    create_table "host_keys" ("server_id" ∷ "host_key" ∷ "fingerprint" ∷ "first_seen" ∷ [])
    ∷ insert_version 2
    ∷ []

abbrev pub sql_audit_log : List Sql
sql_audit_log =
    create_table "audit_log" (
      "id" ∷ "timestamp" ∷ "user_id" ∷ "username" ∷ "action" ∷ "target_type" ∷ "target_id"
      ∷ "details" ∷ "ip_address" ∷ [])
    ∷ create_index "audit_log_timestamp" "audit_log"
    ∷ create_index "audit_log_user_id" "audit_log"
    ∷ create_index "audit_log_action" "audit_log"
    ∷ insert_version 3
    ∷ []

abbrev pub sql_settings : List Sql
sql_settings = create_table "settings" ("key" ∷ "value" ∷ "updated_at" ∷ []) ∷ insert_version 4 ∷ []

abbrev pub sql_server_owner : List Sql
sql_server_owner = add_column "servers" "owner_id" ∷ insert_version 5 ∷ []

abbrev pub sql_vault_key_ref : List Sql
sql_vault_key_ref =
    add_column "servers" "key_source"
    ∷ add_column "servers" "vault_key_path"
    ∷ insert_version 6
    ∷ []

abbrev pub migrations : List Entry
migrations =
    record { name = "001_initial.sql"; is_dir = false; content = some sql_initial }
    ∷ record { name = "002_host_keys.sql"; is_dir = false; content = some sql_host_keys }
    ∷ record { name = "003_audit_log.sql"; is_dir = false; content = some sql_audit_log }
    ∷ record { name = "004_settings.sql"; is_dir = false; content = some sql_settings }
    ∷ record { name = "005_server_owner.sql"; is_dir = false; content = some sql_server_owner }
    ∷ record { name = "006_vault_key_ref.sql"; is_dir = false; content = some sql_vault_key_ref }
    ∷ []

unfoldable pub migrate : Faults → Database → Outcome
migrate faults db = migrate_entries faults migrations db

-- What the file system and the driver do before the migrations: the error, where there is one.
pub record Host : Type 0 where
  pub makes_dir : Option String
  pub opens : Option String
  pub pings : Option String

-- `Open`: the store is opened where there is no error.
unfoldable pub open_store : Host → Faults → Database → Outcome
open_store host faults db = reached host.makes_dir host.opens host.pings
  where
    reached : Option String → Option String → Option String → Outcome
    reached (some e) o p = (some ("create db directory: " ++ e), db)
    reached none (some e) p = (some ("open database: " ++ e), db)
    reached none none (some e) = (some ("ping database: " ++ e), db)
    reached none none none = prefixed "migrate: " (migrate faults db)
