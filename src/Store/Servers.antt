-- ===== src/Store/Servers.antt =====
-- internal/store/servers.go, with the tables that a deleted server takes its rows from.
pub mod Ownership
use agentic_hive.Text.Numbers.{ℤ}
use Prim.Native.String.{compare}
use Prim.Native.Nat.{Ordering}
use text.Mathlib.Text.{◌==◌}
use agentic_hive.Prelude.{
  ℕ, String, Bool, true, false, not, ◌&&◌, ◌||◌, Option, none, some, List, [], ◌∷◌, ◌++◌, map,
  if◌then◌else◌, select, any, Result, ok, err, delete,
}
use agentic_hive.Store.{
  Server, SessionTemplate, Store, Engine, StoreError, not_found, constraint, engine_failure,
  insert_server, select_server, select_servers, delete_server, update_server_status, status_unknown,
}
use agentic_hive.Store.Ordering.{order_by}

-- `id` is the primary key and `name` is UNIQUE.
abbrev pub clashes : Server → Server → Bool
clashes u v = u.id == v.id || u.name == v.name

-- The condition of the query: `owner_id = ? OR owner_id = ''`, and none for the empty owner.
abbrev pub visible : String → Server → Bool
visible owner srv = owner == "" || srv.owner_id == owner || srv.owner_id == ""

first : List Server → Result StoreError Server
first [] = err not_found
first (srv ∷ srvs) = ok srv

abbrev name_le : Server → Server → Bool
name_le u v = elim (compare u.name v.name) [ Ordering.gt ↦ false | _ ↦ true ]

-- `REFERENCES servers(id) ON DELETE CASCADE`
abbrev pub belongs : String → SessionTemplate → Bool
belongs id t = elim t.server_id [ none ↦ false | some owner ↦ owner == id ]

abbrev pub with_status : String → String → ℕ → Server → Server
with_status id status now srv =
    if srv.id == id then record srv { status = status; updated_at = now } else srv

abbrev or_local : String → String
or_local source = if source == "" then "local" else source

-- The value that is handed back for a new row has no times.
abbrev pub untimed : Server → Server
untimed srv = record srv { created_at = 0; updated_at = 0 }

unfoldable pub insert_row : Bool → Server → Store → Result StoreError Server × Store
insert_row fails srv s =
    if fails
    then (err engine_failure, s)
    else if any (clashes srv) s.servers
    then (err constraint, s)
    else (ok (untimed srv), record s { servers = s.servers ++ srv ∷ [] })

module _ (db : Engine) where
  unfoldable pub create_server :
      (id name host : String) (port : ℤ) (ssh_user owner_id key_source vault_key_path : String)
      (now : ℕ)
      → Store
      → Result StoreError Server × Store
  unfolding insert_row
  create_server id name host port ssh_user owner_id key_source vault_key_path now s =
      let srv : Server = record {
        id = id;
        name = name;
        host = host;
        port = port;
        ssh_user = ssh_user;
        status = status_unknown;
        owner_id = owner_id;
        key_source = or_local key_source;
        vault_key_path = vault_key_path;
        created_at = now;
        updated_at = now;
      } in
      insert_row (db insert_server) srv s

  unfoldable pub get_server : String → String → Store → Result StoreError Server
  unfolding first
  get_server id owner s =
      if db select_server
      then err engine_failure
      else first (select (λ srv. srv.id == id && visible owner srv) s.servers)

  unfoldable pub list_servers : String → Store → Result StoreError (List Server)
  list_servers owner s =
      if db select_servers
      then err engine_failure
      else ok (order_by name_le (select (visible owner) s.servers))

  -- The keys, the host key and the templates of the server go with its row.
  unfoldable pub delete_server_by_id : String → Store → Result StoreError (Unit {0}) × Store
  delete_server_by_id id s = if db delete_server then (err engine_failure, s) else (
    ok tt,
    record s {
      servers = select (λ srv. not (srv.id == id)) s.servers;
      ssh_keys = delete id s.ssh_keys;
      host_keys = delete id s.host_keys;
      session_templates = select (λ t. not (belongs id t)) s.session_templates;
    },
  )

  unfoldable pub update_status : String → String → ℕ → Store → Result StoreError (Unit {0}) × Store
  update_status id status now s =
      if db update_server_status
      then (err engine_failure, s)
      else (ok tt, record s { servers = map (with_status id status now) s.servers })
