-- ===== src/Store/HostKeys.antt =====
-- internal/store/host_keys.go
use text.Mathlib.Text.{◌==◌}
use agentic_hive.Prelude.{
  ℕ, String, Option, none, some, List, if◌then◌else◌, any, Result, ok, err, lookup, insert, delete,
}
use agentic_hive.Store.{
  HostKey, Store, Engine, StoreError, not_found, constraint, engine_failure, replace_host_key,
  select_host_key, delete_host_key,
}

abbrev found : Option HostKey → Result StoreError HostKey
found none = err not_found
found (some k) = ok k

module _ (db : Engine) where
  -- The row refers to a server, which has to exist.
  unfoldable pub store_host_key :
      String → List ℕ → String → Store → Result StoreError (Unit {0}) × Store
  store_host_key server_id key fingerprint s =
      if db replace_host_key
      then (err engine_failure, s)
      else if any (λ srv. srv.id == server_id) s.servers
      then (
        ok tt,
        record s {
          host_keys =
              insert server_id (record { host_key = key; fingerprint = fingerprint }) s.host_keys;
        },
      )
      else (err constraint, s)

  unfoldable pub get_host_key : String → Store → Result StoreError HostKey
  get_host_key server_id s =
      if db select_host_key then err engine_failure else found (lookup server_id s.host_keys)

  unfoldable pub clear_host_key : String → Store → Result StoreError (Unit {0}) × Store
  clear_host_key server_id s =
      if db delete_host_key
      then (err engine_failure, s)
      else (ok tt, record s { host_keys = delete server_id s.host_keys })
