-- ===== src/Server/Servers.antt =====
-- The handlers of servers in internal/server/server.go.
pub mod Keeping
pub mod Uploading
use Prim.Native.String.{◌++◌}
use text.Mathlib.Text.{◌==◌, starts_with}
use agentic_hive.Prelude.{
  ℕ, zero, ◌*◌, Bool, true, false, not, ◌&&◌, ◌||◌, String, List, Option, none, some, take,
  if◌then◌else◌, Result, ok, err,
}
use agentic_hive.Text.{Text, codes, contains_text}
use agentic_hive.Text.Numbers.{ℤ, pos}
use agentic_hive.Http.{Request, Response, failed}
use agentic_hive.Store.{Server, Store, StoreError, status_reachable, status_unreachable}
use agentic_hive.Store.Servers.{create_server, list_servers, delete_server_by_id, update_status}
use agentic_hive.Store.HostKeys.{clear_host_key}
use agentic_hive.Keystore.{KeyStore, KeyError, backend, get_from_path, put_key, delete_key}
use agentic_hive.Pool.{remove}
use agentic_hive.Session.Manager.{exec_on}
use agentic_hive.Auth.Tokens.{Claims}
use agentic_hive.Server.{
  World, ServerEnv, Reply, done, server, servers, reachability, answer, owner_of, user_id_of, db,
  pool_env, with_store, q, audit, on_server,
}

-- `createServerRequest`.
pub record CreateServerRequest : Type 0 where
  pub name : String
  pub host : String
  pub port : ℤ
  pub ssh_user : String
  pub key_source : String
  pub vault_key_path : String

abbrev or_ssh_port : ℤ → ℤ
or_ssh_port (pos zero) = pos 22
or_ssh_port port = port

abbrev or_local : String → String
or_local source = if source == "" then "local" else source

-- The path leaves the prefix, or is absolute.
abbrev pub escapes : String → Bool
escapes path = contains_text (codes "..") (codes path) || starts_with path "/"

module _ (env : ServerEnv) (r : Request) (user : Option Claims) where
  listed : Result StoreError (List Server) → World → Response Reply × World
  listed (err e) w = (failed 500 "failed to list servers", w)
  listed (ok rows) w = (answer 200 (servers rows), w)

  unfoldable pub handle_list_servers : World → Response Reply × World
  unfolding listed
  handle_list_servers w = listed (list_servers env.auth.db (owner_of user) w.store) w

  -- The checks of a path of Vault: the answer of the first that fails.
  readable : Result KeyError (List ℕ) → Option String
  readable (err e) = some "vault path not readable or does not contain a private_key field"
  readable (ok key) = none

  unfoldable pub vault_ref_error : String → KeyStore → Option String
  unfolding readable
  vault_ref_error path ks =
      if path == ""
      then some "vaultKeyPath is required when keySource is vault_ref"
      else if escapes path
      then some "invalid vault path"
      else if not (backend ks == "vault")
      then some "vault is not configured; cannot use vault_ref key source"
      else readable (get_from_path env.cipher env.auth.db ks path)

  unfoldable pub source_error : (source path : String) → KeyStore → Option String
  unfolding vault_ref_error
  source_error source path ks =
      if not (source == "local") && not (source == "vault_ref")
      then some "keySource must be 'local' or 'vault_ref'"
      else if source == "vault_ref"
      then vault_ref_error path ks
      else none

  abbrev create_details : Server → String
  create_details srv =
      "{\"server_id\":"
      ++ (q env srv.id
          ++ (",\"name\":"
              ++ (q env srv.name ++ (",\"key_source\":" ++ (q env srv.key_source ++ "}")))))

  created : Result StoreError Server × Store → World → Response Reply × World
  created (err e, s) w = (failed 500 "failed to create server", with_store env w s)
  created (ok srv, s) w = (
    answer 201 (server srv),
    with_store env w (audit env r user "server.create" "server" srv.id (create_details srv) s),
  )

  create_checked : CreateServerRequest → Option String → World → Response Reply × World
  unfolding created
  create_checked req (some message) w = (failed 400 message, w)
  create_checked req none w =
      created
        (create_server env.auth.db env.auth.new_id req.name req.host (or_ssh_port req.port)
          req.ssh_user (user_id_of user) (or_local req.key_source) req.vault_key_path env.auth.now
          w.store)
        w

  -- A body that is no JSON is `none`.
  unfoldable pub handle_create_server : Option CreateServerRequest → World → Response Reply × World
  unfolding create_checked source_error
  handle_create_server none w = (failed 400 "invalid request", w)
  handle_create_server (some req) w =
      create_checked req (source_error (or_local req.key_source) req.vault_key_path w.keystore) w

  abbrev id_details : String → String
  id_details id = "{\"server_id\":" ++ (q env id ++ "}")

  deleted : String → Result StoreError (Unit {0}) × Store → World → Response Reply × World
  deleted id (err e, s) w = (failed 500 "failed to delete server", with_store env w s)
  deleted id (ok u, s) w = (
    answer 200 done,
    with_store env w (audit env r user "server.delete" "server" id (id_details id) s),
  )

  -- The key goes first; an error there is only logged.
  unfoldable pub delete_visible : String → World → Response Reply × World
  unfolding deleted
  delete_visible id w =
      let s = (delete_key env.cipher env.auth.db w.keystore id w.store).1 in
      deleted id (delete_server_by_id env.auth.db id s)
        (record w { pool = remove id w.pool; store = s })

  unfoldable pub handle_delete_server : String → World → Response Reply × World
  unfolding delete_visible
  handle_delete_server id w = on_server env user id (λ srv. delete_visible id) w

  abbrev reachable_details : String → Bool → String
  reachable_details id reachable =
      "{\"server_id\":"
      ++ (q env id ++ (if reachable then ",\"reachable\":true}" else ",\"reachable\":false}"))

  -- The status and the entry that follow the test of the connection.
  tested_key : String → Bool → Store → Store
  tested_key id reachable s =
      audit env r user "server.key_upload" "server" id (reachable_details id reachable)
        (update_status env.auth.db id (if reachable then status_reachable else status_unreachable)
          env.auth.now s).1

  stored : String → Result KeyError (Unit {0}) × Store → World → Response Reply × World
  unfolding tested_key
  stored id (err e, s) w = (failed 500 "failed to store key", with_store env w s)
  stored id (ok u, s) w =
      let (reachable, p, s') =
        exec_on (pool_env env w) (env.remotes id) (codes "echo ok") id w.pool s in
      (
        answer 200 (reachability reachable),
        record w { pool = p; store = tested_key id reachable s' },
      )

  -- A body that cannot be read is `none`; what is behind the first 32 KiB is left out.
  unfoldable pub upload_visible : String → Option (List ℕ) → Server → World → Response Reply × World
  unfolding stored
  upload_visible id none srv w =
      if srv.key_source == "vault_ref"
      then (failed 400 "cannot upload key to a vault_ref server; key is managed via Vault path", w)
      else (failed 400 "failed to read key", w)
  upload_visible id (some body) srv w =
      if srv.key_source == "vault_ref"
      then (failed 400 "cannot upload key to a vault_ref server; key is managed via Vault path", w)
      else stored id
          (put_key env.cipher env.auth.db w.keystore id (take (32 * 1024) body) env.random w.store)
          w

  unfoldable pub handle_upload_key : String → Option (List ℕ) → World → Response Reply × World
  unfolding upload_visible
  handle_upload_key id body w = on_server env user id (upload_visible id body) w

  cleared : String → Result StoreError (Unit {0}) × Store → World → Response Reply × World
  cleared id (err e, s) w = (failed 500 "failed to clear host key", with_store env w s)
  cleared id (ok u, s) w = (answer 200 done, record w { pool = remove id w.pool; store = s })

  unfoldable pub handle_accept_key : String → World → Response Reply × World
  unfolding cleared
  handle_accept_key id w =
      on_server env user id (λ srv v. cleared id (clear_host_key env.auth.db id v.store) v) w
