-- ===== src/Server/Startup/Keystores.antt =====
-- The key store that a start of the process uses, beside the one that a change of the settings puts
-- in place.
use text.Mathlib.Text.{◌==◌}
use agentic_hive.Prelude.{
  ◌≡◌, refl, ◌≢◌, Bool, true, not, ◌||◌, String, List, ◌∷◌, some, ok, arith, ap, ◌∙◌, str_ne,
}
use agentic_hive.Store.Settings.{get_all_settings}
use agentic_hive.Config.{Config, load, apply_db_settings}
use agentic_hive.Config.Applying.{apply_db_settings_again}
use agentic_hive.Keystore.{Vault, local, vault}
use agentic_hive.Server.{World, ServerEnv}
use agentic_hive.Server.Settings.{fresh_config, vault_from, reinit_vault, encryption_secret_of}
use agentic_hive.Server.Startup.{start_config, start_keystore}

-- The configuration has both parts of the access to Vault.
abbrev pub has_vault : Config → Bool
has_vault c = not (c.vault_addr == "" || c.vault_token == "")

module _ (env : ServerEnv) (template_id : String → String) where
  -- Where the process was started on the settings of the database, working out the configuration
  -- again gives the same one.
  fresh_config-start :
      (w : World) (e : String × String) (all : List (String × String))
      → get_all_settings env.auth.db w.store ≡ ok (e ∷ all)
      → w.config ≡ start_config env template_id w.store
      → fresh_config env w ≡ w.config
  unfolding start_config
  fresh_config-start w e all readable started =
      let live : w.config ≡ apply_db_settings env.environ (e ∷ all) (load env.environ) =
        rw readable at started in
      rw (readable, live) (apply_db_settings_again env.environ (e ∷ all) (load env.environ))

  reinit_vault-started :
      (w : World) (e : String × String) (all : List (String × String))
      → get_all_settings env.auth.db w.store ≡ ok (e ∷ all)
      → w.config ≡ start_config env template_id w.store
      → reinit_vault env w ≡ vault_from env w.config w
  unfolding reinit_vault
  reinit_vault-started w e all readable started =
      ap (λ c. vault_from env c w) (fresh_config-start w e all readable started)

  start_local :
      (c : Config)
      → c.key_store_backend ≢ "vault"
      → start_keystore env template_id c ≡ some (local (encryption_secret_of c))
  unfolding start_keystore
  start_local c other = rw (str_ne c.key_store_backend "vault" other) refl

  vault_from-given :
      (c : Config) (w : World) (v : Vault)
      → has_vault c ≡ true
      → env.new_vault c.vault_addr c.vault_token ≡ some v
      → vault_from env c w ≡ (true, record w { keystore = vault v c.vault_secret_path })
  unfolding vault_from
  vault_from-given c w v both given = ground (arith, both, given)

  -- With an address and a token of Vault, `reinit_vault` puts Vault in place even where the backend
  -- is named otherwise and a start of the process uses the local key store.
  pub reinit_vault-other_backend :
      (w : World) (e : String × String) (all : List (String × String)) (v : Vault)
      → get_all_settings env.auth.db w.store ≡ ok (e ∷ all)
      → w.config ≡ start_config env template_id w.store
      → w.config.key_store_backend ≢ "vault"
      → has_vault w.config ≡ true
      → env.new_vault w.config.vault_addr w.config.vault_token ≡ some v
      → (start_keystore env template_id w.config ≡ some (local (encryption_secret_of w.config)))
        × (reinit_vault env w ≡ (true, record w { keystore = vault v w.config.vault_secret_path }))
  reinit_vault-other_backend w e all v readable started other both given = (
    start_local w.config other,
    reinit_vault-started w e all readable started ∙ vault_from-given w.config w v both given,
  )
