-- ===== src/Server/Servers/Uploading.antt =====
-- What the answer to the upload of a key tells.
use agentic_hive.Prelude.{
  ℕ, ◌*◌, ◌≡◌, ◌≢◌, true, String, List, Option, some, take, ok, lookup, str_ne, ap,
}
use agentic_hive.Text.{codes}
use agentic_hive.Http.{Request}
use agentic_hive.Store.{Server, Store}
use agentic_hive.Store.Servers.{get_server}
use agentic_hive.Keystore.{put_key}
use agentic_hive.Pool.Gauge.{exec-pooled}
use agentic_hive.Auth.Tokens.{Claims}
use agentic_hive.Server.{World, ServerEnv, owner_of, reachability, answer, pool_env}
use agentic_hive.Server.Servers.{stored, upload_visible, handle_upload_key}

module _ (env : ServerEnv) (r : Request) (user : Option Claims) where
  -- While a client for the server is pooled and gives sessions, the answer to the upload of a key
  -- that is stored tells whether the command runs on that client: it is the same for every key.
  pub handle_upload_key-pooled :
      (id : String) (body : List ℕ) (srv : Server) (w : World) (s : Store) (c : ℕ)
      → get_server env.auth.db id (owner_of user) w.store ≡ ok srv
      → srv.key_source ≢ "vault_ref"
      → put_key env.cipher env.auth.db w.keystore id (take (32 * 1024) body) env.random w.store
        ≡ (ok tt, s)
      → lookup id w.pool.conns ≡ some c
      → (env.remotes id).gives_session c ≡ true
      → (handle_upload_key env r user id (some body) w).0
        ≡ answer 200 (reachability ((env.remotes id).runs c (codes "echo ok")))
  unfolding handle_upload_key upload_visible stored
  handle_upload_key-pooled id body srv w s c seen own put pooled live =
      rw (seen, upload_visible, str_ne srv.key_source "vault_ref" own, put, stored)
        (ap (λ e. answer 200 (reachability e.0))
          (exec-pooled (pool_env env w) _ _ id _ _ w.pool s c pooled live))
