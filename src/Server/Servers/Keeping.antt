-- ===== src/Server/Servers/Keeping.antt =====
-- What the handlers of servers leave to a server that the caller does not see.
use text.Mathlib.Text.{◌==◌}
use agentic_hive.Prelude.{
  ℕ, ◌≡◌, ◌≢◌, inl, inr, Bool, true, String, List, Option, none, some, any, take, ◌*◌, Result, ok,
  err, Bool-cases,
}
use agentic_hive.Http.{Request}
use agentic_hive.Store.{Server, Store, StoreError}
use agentic_hive.Store.Servers.{delete_server_by_id}
use agentic_hive.Store.HostKeys.{clear_host_key}
use agentic_hive.Store.Keeping.{
  Keeps, keeps, Keeps-trans, delete_server_by_id-Keeps, update_status-Keeps, clear_host_key-Keeps,
  create_server-Keeps,
}
use agentic_hive.Keystore.{KeyError, delete_key}
use agentic_hive.Keystore.Keeping.{put_key-Keeps, delete_key-Keeps}
use agentic_hive.Pool.Keeping.{exec-Keeps}
use agentic_hive.Auth.Tokens.{Claims}
use agentic_hive.Server.{World, ServerEnv, pool_env}
use agentic_hive.Server.Ownership.{Hidden, on_server-Keeps, audit-Keeps}
use agentic_hive.Server.Servers.{
  CreateServerRequest, listed, handle_list_servers, created, create_checked, handle_create_server,
  deleted, delete_visible, handle_delete_server, tested_key, stored, upload_visible,
  handle_upload_key, cleared, handle_accept_key,
}

module _ (env : ServerEnv) (r : Request) (user : Option Claims) (j : String) where
  listed-Keeps :
      (rows : Result StoreError (List Server)) (w : World)
      → Keeps j w.store (listed env r user rows w).1.store
  unfolding listed
  listed-Keeps (err e) w = keeps j w.store
  listed-Keeps (ok rows) w = keeps j w.store

  pub handle_list_servers-Keeps :
      (w : World) → Keeps j w.store (handle_list_servers env r user w).1.store
  unfolding handle_list_servers
  handle_list_servers-Keeps w = listed-Keeps _ w

  created-Keeps :
      (result : Result StoreError Server × Store) (w : World)
      → Keeps j w.store result.1
      → Keeps j w.store (created env r user result w).1.store
  unfolding created
  created-Keeps (err e, s) w k = k
  created-Keeps (ok srv, s) w k = Keeps-trans j w.store s _ k (audit-Keeps env r user _ _ _ _ j s)

  create_checked-Keeps :
      (req : CreateServerRequest) (error : Option String) (w : World)
      → any (λ srv. srv.id == j) w.store.servers ≡ true
      → Keeps j w.store (create_checked env r user req error w).1.store
  unfolding create_checked
  create_checked-Keeps req (some message) w there = keeps j w.store
  create_checked-Keeps req none w there =
      created-Keeps _ w (create_server-Keeps env.auth.db _ _ _ _ _ _ _ _ _ j w.store there)

  pub handle_create_server-Keeps :
      (body : Option CreateServerRequest) (w : World)
      → any (λ srv. srv.id == j) w.store.servers ≡ true
      → Keeps j w.store (handle_create_server env r user body w).1.store
  unfolding handle_create_server
  handle_create_server-Keeps none w there = keeps j w.store
  handle_create_server-Keeps (some req) w there = create_checked-Keeps req _ w there

  deleted-Keeps :
      (id : String) (result : Result StoreError (Unit {0}) × Store) (s : Store) (w : World)
      → Keeps j s result.1
      → Keeps j s (deleted env r user id result w).1.store
  unfolding deleted
  deleted-Keeps id (err e, t) s w k = k
  deleted-Keeps id (ok u, t) s w k = Keeps-trans j s t _ k (audit-Keeps env r user _ _ _ _ j t)

  delete_visible-Keeps :
      (id : String) (w : World) → id ≢ j → Keeps j w.store (delete_visible env r user id w).1.store
  unfolding delete_visible
  delete_visible-Keeps id w h =
      let s = (delete_key env.cipher env.auth.db w.keystore id w.store).1 in
      deleted-Keeps id (delete_server_by_id env.auth.db id s) w.store _ (
        Keeps-trans j w.store s _
          (delete_key-Keeps env.cipher env.auth.db w.keystore id j w.store h)
          (delete_server_by_id-Keeps env.auth.db id j s h))

  pub handle_delete_server-Keeps :
      (id : String) (w : World)
      → Hidden env.auth.db j user w.store
      → Keeps j w.store (handle_delete_server env r user id w).1.store
  unfolding handle_delete_server
  handle_delete_server-Keeps id w hidden =
      on_server-Keeps env j user id (λ srv. delete_visible env r user id) w hidden
        λ srv same h. delete_visible-Keeps id w h

  tested_key-Keeps :
      (id : String) (reachable : Bool) (s : Store)
      → id ≢ j
      → Keeps j s (tested_key env r user id reachable s)
  unfolding tested_key
  tested_key-Keeps id reachable s h =
      Keeps-trans j s _ _ (update_status-Keeps env.auth.db id _ env.auth.now j s h)
        (audit-Keeps env r user _ _ _ _ j _)

  stored-Keeps :
      (id : String) (result : Result KeyError (Unit {0}) × Store) (w : World)
      → id ≢ j
      → Keeps j w.store result.1
      → Keeps j w.store (stored env r user id result w).1.store
  unfolding stored
  stored-Keeps id (err e, s) w h k = k
  stored-Keeps id (ok u, s) w h k = Keeps-trans j w.store s _ k (
      Keeps-trans j s _ _ (exec-Keeps (pool_env env w) id j h _ _ _ _ w.pool s)
        (tested_key-Keeps id _ _ h))

  upload_visible-Keeps :
      (id : String) (body : Option (List ℕ)) (srv : Server) (w : World)
      → id ≢ j
      → Keeps j w.store (upload_visible env r user id body srv w).1.store
  unfolding upload_visible
  upload_visible-Keeps id none srv w h = elim (Bool-cases (srv.key_source == "vault_ref")) [
    | inl managed ↦ rw managed (keeps j w.store)
    | inr own ↦ rw own (keeps j w.store)
  ]
  upload_visible-Keeps id (some body) srv w h = elim (Bool-cases (srv.key_source == "vault_ref")) [
    | inl managed ↦ rw managed (keeps j w.store)
    | inr own ↦ rw own (
        stored-Keeps id _ w h (
          put_key-Keeps env.cipher env.auth.db w.keystore id (take (32 * 1024) body) env.random j
            w.store h))
  ]

  pub handle_upload_key-Keeps :
      (id : String) (body : Option (List ℕ)) (w : World)
      → Hidden env.auth.db j user w.store
      → Keeps j w.store (handle_upload_key env r user id body w).1.store
  unfolding handle_upload_key
  handle_upload_key-Keeps id body w hidden =
      on_server-Keeps env j user id (upload_visible env r user id body) w hidden
        λ srv same h. upload_visible-Keeps id body srv w h

  cleared-Keeps :
      (id : String) (result : Result StoreError (Unit {0}) × Store) (w : World)
      → Keeps j w.store result.1
      → Keeps j w.store (cleared env r user id result w).1.store
  unfolding cleared
  cleared-Keeps id (err e, s) w k = k
  cleared-Keeps id (ok u, s) w k = k

  pub handle_accept_key-Keeps :
      (id : String) (w : World)
      → Hidden env.auth.db j user w.store
      → Keeps j w.store (handle_accept_key env r user id w).1.store
  unfolding handle_accept_key
  handle_accept_key-Keeps id w hidden =
      on_server-Keeps env j user id
        (λ srv v. cleared env r user id (clear_host_key env.auth.db id v.store) v) w hidden
        λ srv same h. cleared-Keeps id _ w (clear_host_key-Keeps env.auth.db id j w.store h)
