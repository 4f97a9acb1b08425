-- ===== src/Store/Tests.antt =====
-- The tables of one small installation.
use agentic_hive.Text.Numbers.{pos}
use mathlib.Core.List.{Mem}
use agentic_hive.Prelude.{◌≡◌, refl, ◌↔◌, String, none, some, [], ◌∷◌, arith, eq_iff, ok, err}
use agentic_hive.Store.{User, Server, AuditEntry, Store, working, not_found}
use agentic_hive.Store.Ordering.{order_by}
use agentic_hive.Store.Consistency.{IsConsistent}
use agentic_hive.Store.Integrity.{delete_server_by_id-IsConsistent}
use agentic_hive.Store.Servers.{get_server, list_servers, delete_server_by_id}
use agentic_hive.Store.Servers.Ownership.{get_server-foreign, list_servers-get_server}
use agentic_hive.Store.Audit.{AuditFilter}

abbrev pub ann : User
ann = record {
  id = "u1";
  username = "ann";
  password_hash = "";
  role = "user";
  oidc_subject = some "s1";
  created_at = 1;
  updated_at = 1;
}

abbrev pub web : Server
web = record {
  id = "v1";
  name = "web";
  host = "10.0.0.1";
  port = pos 22;
  ssh_user = "root";
  status = "unknown";
  owner_id = "u1";
  key_source = "local";
  vault_key_path = "";
  created_at = 1;
  updated_at = 1;
}

abbrev pub db_server : Server
db_server = record web { id = "v2"; name = "db"; owner_id = "u2" }

abbrev login : AuditEntry
login = record {
  id = "a1";
  timestamp = 5;
  user_id = "u1";
  username = "ann";
  action = "auth.login";
  target_type = "";
  target_id = "";
  details = "";
  ip_address = [];
}

abbrev pub store : Store
store = record {
  users = ann ∷ [];
  servers = web ∷ db_server ∷ [];
  ssh_keys = ("v1", record { encrypted_key = 1 ∷ []; salt = []; nonce = [] }) ∷ [];
  host_keys = ("v1", record { host_key = 7 ∷ []; fingerprint = "f" }) ∷ [];
  session_templates = [];
  settings = ("oidc.client_id", "hive") ∷ [];
  audit_log = login ∷ record login { id = "a2"; timestamp = 9 } ∷ [];
}

store-IsConsistent : IsConsistent store
store-IsConsistent = record {
  users_unique = (refl, tt);
  servers_unique = (refl, (refl, tt));
  ssh_keys_unique = (tt, tt);
  host_keys_unique = (tt, tt);
  ssh_keys_owned = (refl, tt);
  host_keys_owned = (refl, tt);
  templates_owned = tt;
}

delete_server_by_id-IsConsistent_example : IsConsistent (delete_server_by_id working "v1" store).1
delete_server_by_id-IsConsistent_example =
    delete_server_by_id-IsConsistent working "v1" store store-IsConsistent

list_servers-get_server_example : Mem web (web ∷ []) ↔ (get_server working "v1" "u1" store ≡ ok web)
unfolding list_servers order_by
list_servers-get_server_example =
    list_servers-get_server working "u1" store (web ∷ []) web refl (refl, (refl, tt)) refl

get_server-foreign_example : get_server working "v2" "u1" store ≡ err not_found
get_server-foreign_example =
    get_server-foreign working "v2" "u1" store (ground (arith, eq_iff "u1" "")) refl (
      λ same. absurd (ground (arith, same, eq_iff "v1" "v2")),
      (λ same. (ground (arith, eq_iff "u2" "u1"), ground (arith, eq_iff "u2" "")), tt),
    )

abbrev new_id : String → String
new_id name = name

abbrev all_logins : AuditFilter
all_logins = record {
  user_id = "u1";
  action = "auth.login";
  since = some 1;
  until = none;
  limit = 1;
  offset = 0;
}
