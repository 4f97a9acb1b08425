-- ===== src/Store.antt =====
-- internal/store: the tables of the migrations and the rows of models.go. SQL is read as Go is: a
-- table is the list of its rows in the order of insertion, and each statement of the source is a
-- function on the tables. Whether the SQLite engine itself reports an error for a statement is not
-- known here: it is the argument `Engine`. Times are seconds; a time and a new identifier are
-- arguments of the operations that take them from the clock or from random bytes.
pub mod Ordering
pub mod Unique
pub mod Consistency
pub mod Integrity
pub mod Users
pub mod Servers
pub mod HostKeys
pub mod Settings
pub mod Templates
pub mod Audit
pub mod Migrations
pub mod Keeping
pub mod Tests
use agentic_hive.Text.Numbers.{ℤ}
use agentic_hive.Prelude.{ℕ, String, Bool, Option, List, [], length}
use agentic_hive.Text.{Text}

pub record User : Type 0 where
  pub id : String
  pub username : String
  pub password_hash : String
  pub role : String
  pub oidc_subject : Option String
  pub created_at : ℕ
  pub updated_at : ℕ

pub record Server : Type 0 where
  pub id : String
  pub name : String
  pub host : String
  pub port : ℤ
  pub ssh_user : String
  pub status : String
  pub owner_id : String
  pub key_source : String
  pub vault_key_path : String
  pub created_at : ℕ
  pub updated_at : ℕ

pub record SessionTemplate : Type 0 where
  pub id : String
  pub name : String
  pub command : String
  pub workdir : String
  pub server_id : Option String
  pub created_at : ℕ

pub record AuditEntry : Type 0 where
  pub id : String
  pub timestamp : ℕ
  pub user_id : String
  pub username : String
  pub action : String
  pub target_type : String
  pub target_id : String
  pub details : String
  pub ip_address : Text

-- A row of `host_keys` and of `ssh_keys`, behind the identifier of the server.
pub record HostKey : Type 0 where
  pub host_key : List ℕ
  pub fingerprint : String

pub record SshKey : Type 0 where
  pub encrypted_key : List ℕ
  pub salt : List ℕ
  pub nonce : List ℕ

pub record Store : Type 0 where
  pub users : List User
  pub servers : List Server
  pub ssh_keys : List (String × SshKey)
  pub host_keys : List (String × HostKey)
  pub session_templates : List SessionTemplate
  pub settings : List (String × String)
  pub audit_log : List AuditEntry

-- Every statement that the package hands to the engine.
pub data Statement : Type 0 where
  insert_user select_user count_users select_users delete_user : Statement
  select_oidc_user update_oidc_user insert_oidc_user : Statement
  insert_server select_server select_servers delete_server update_server_status : Statement
  replace_host_key select_host_key delete_host_key : Statement
  upsert_ssh_key select_ssh_key delete_ssh_key : Statement
  select_settings : Statement
  select_setting replace_setting delete_setting : String → Statement
  count_templates insert_template : String → Statement
  select_templates : Statement
  insert_audit select_audit count_audit : Statement
  ping : Statement

-- The statements for which the engine reports an error, in one call of the package.
abbrev pub Engine : Type 0
Engine = Statement → Bool

abbrev pub working : Engine
working s = Bool.false

pub data StoreError : Type 0 where
  not_found : StoreError
  constraint : StoreError
  engine_failure : StoreError

abbrev pub role_admin : String
role_admin = "admin"

abbrev pub role_user : String
role_user = "user"

abbrev pub status_unknown : String
status_unknown = "unknown"

abbrev pub status_reachable : String
status_reachable = "reachable"

abbrev pub status_unreachable : String
status_unreachable = "unreachable"

abbrev pub status_key_mismatch : String
status_key_mismatch = "key_mismatch"
