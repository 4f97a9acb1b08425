-- ===== src/Server/Settings/Reloading.antt =====
-- A change of the settings whose provider is not reached.
use agentic_hive.Prelude.{
  ◌≡◌, refl, ◌≢◌, true, false, String, List, ◌∷◌, Option, none, some, ok, str_ne, ap, ◌∙◌,
}
use agentic_hive.Http.{Request, failed}
use agentic_hive.Store.{Store}
use agentic_hive.Store.Settings.{get_all_settings}
use agentic_hive.Config.{Config, apply_db_settings}
use agentic_hive.Auth.Tokens.{Claims}
use agentic_hive.Auth.Oidc.{OidcHandler}
use agentic_hive.Server.{World, ServerEnv, with_store}
use agentic_hive.Server.Settings.{
  touches_oidc, persist, shared_handler, set_config, fresh_config, swap_oidc, reinit_oidc, reload,
  oidc_set, reread, persisted, handle_update_settings,
}

module _ (env : ServerEnv) where
  reinit_oidc-lost :
      (w : World)
      → (fresh_config env w).oidc_issuer_url ≢ ""
      → (fresh_config env w).oidc_client_id ≢ ""
      → env.new_provider (fresh_config env w) ≡ none
      → reinit_oidc env w ≡ (false, w)
  unfolding reinit_oidc swap_oidc
  reinit_oidc-lost w issuer client lost =
      let c = fresh_config env w in
      rw (str_ne c.oidc_issuer_url "" issuer, str_ne c.oidc_client_id "" client, lost) refl

  set_config-shared :
      (c : Config) (w : World) (h : OidcHandler)
      → w.oidc ≡ some h
      → w.oidc_shares ≡ true
      → (set_config env c w).oidc ≡ some (shared_handler env c h)
  unfolding set_config
  set_config-shared c w h there shares = rw (there, shares) refl

  module _ (r : Request) (user : Option Claims) (updates all : List (String × String)) where
    reload-lost :
        (w : World)
        → touches_oidc updates ≡ true
        → reinit_oidc env w ≡ (false, w)
        → reload env r user updates all w ≡ (failed 502 "settings saved but OIDC re-init failed", w)
    unfolding reload oidc_set
    reload-lost w touched lost = rw (touched, lost) refl

    persisted-read :
        (w : World) (s : Store)
        → get_all_settings env.auth.db s ≡ ok all
        → persisted env r user updates (none, s) w
          ≡ reload env r user updates all
              (set_config env (apply_db_settings env.environ all w.config) (with_store env w s))
    unfolding persisted reread
    persisted-read w s read = rw read refl

  module _ (r : Request) (user : Option Claims) where
    -- Settings of OIDC that are saved and lead to a provider that is not reached are answered 502,
    -- and the handler that the process started with stays; but it is not the old one: it takes the
    -- claim of the roles and the group of the admins from the new settings.
    pub handle_update_settings-lost :
        (u : String × String) (updates all : List (String × String)) (w : World) (s : Store)
        (h : OidcHandler)
        → let c = apply_db_settings env.environ all w.config in
          let w' = set_config env c (with_store env w s) in
          persist env (u ∷ updates) w.store ≡ (none, s)
          → get_all_settings env.auth.db s ≡ ok all
          → touches_oidc (u ∷ updates) ≡ true
          → (fresh_config env w').oidc_issuer_url ≢ ""
          → (fresh_config env w').oidc_client_id ≢ ""
          → env.new_provider (fresh_config env w') ≡ none
          → w.oidc ≡ some h
          → w.oidc_shares ≡ true
          → let result = handle_update_settings env r user (some (u ∷ updates)) w in
            (result.0.status ≡ 502) × (result.1.oidc ≡ some (shared_handler env c h))
    unfolding handle_update_settings
    handle_update_settings-lost u updates all w s h saved read touched issuer client lost there
          shares =
        let us = u ∷ updates in
        let c = apply_db_settings env.environ all w.config in
        let w' = set_config env c (with_store env w s) in
        let end =
          ap (λ result. persisted env r user us result w) saved
          ∙ persisted-read r user us all w s read
          ∙ reload-lost r user us all w' touched (reinit_oidc-lost w' issuer client lost) in
        (
          ap (λ result. result.0.status) end,
          ap (λ result. result.1.oidc) end
              ∙ set_config-shared c (with_store env w s) h there shares,
        )
