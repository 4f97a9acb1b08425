-- ===== src/Config/Applying.antt =====
-- What is in force, beside what is shown.
use agentic_hive.Prelude.{
  String, ◌≡◌, refl, inl, inr, Option-cases, str_ne, ◌≢◌, Bool, not, ◌&&◌, Option, none, some, List,
  if◌then◌else◌, lookup, Bool-cases,
}
use agentic_hive.Text.Numbers.{ℤ, atoi}
use agentic_hive.Http.{is_empty, or_empty}
use agentic_hive.Config.{
  SettingValue, resolve_settings, Config, load, override, apply_str, apply_int, apply_bool,
  apply_db_settings,
}

-- The text that a group shows under a key, and whether it is marked as set.
abbrev pub text_at : String → List (String × SettingValue) → Option String
text_at key group = elim (lookup key group) [ none ↦ none | some sv ↦ some sv.value ]

abbrev pub set_at : String → List (String × SettingValue) → Option Bool
set_at key group = elim (lookup key group) [ none ↦ none | some sv ↦ some sv.is_set ]

module _ (env : String → String) (db : List (String × String)) where
  -- The configuration of the environment with the settings of the database applied.
  abbrev pub live : Config
  live = apply_db_settings env db (load env)

  -- A Vault has an address and a token, and the database does not name the key store, or it is the
  -- environment that does.
  abbrev pub is_detected : Bool
  is_detected =
      not (is_empty live.vault_addr)
      && not (is_empty live.vault_token)
      && not (
          is_empty (env "OVERLAY_KEYSTORE_BACKEND")
          && not (is_empty (or_empty (lookup "general.keystore_backend" db))))

  -- Once the settings of the database are applied to the configuration of the environment, a Vault
  -- with an address and a token is in force where neither of the two names a key store, while the
  -- settings page shows the default `local`.
  pub detected_vault-shown :
      live.vault_addr ≢ ""
      → live.vault_token ≢ ""
      → env "OVERLAY_KEYSTORE_BACKEND" ≡ ""
      → or_empty (lookup "general.keystore_backend" db) ≡ ""
      → (live.key_store_backend ≡ "vault")
        × (text_at "keystore_backend" (resolve_settings env db).general ≡ some "local")
  unfolding apply_db_settings load resolve_settings lookup
  detected_vault-shown addr token open' absent =
      rw (open', absent, str_ne live.vault_addr "" addr, str_ne live.vault_token "" token)
        (refl, refl)

  apply_str_again :
      (var key field : String)
      → apply_str env db var key (apply_str env db var key field) ≡ apply_str env db var key field
  apply_str_again var key field = elim (Bool-cases (is_empty (override env db var key))) [
    | inl e ↦ rw e refl
    | inr e ↦ rw e refl
  ]

  apply_int_again :
      (var key : String) (field : ℤ)
      → apply_int env db var key (apply_int env db var key field) ≡ apply_int env db var key field
  unfolding apply_int
  apply_int_again var key field = elim (Bool-cases (is_empty (override env db var key))) [
    | inl e ↦ rw e refl
    | inr e ↦ elim (Option-cases (atoi (override env db var key))) [
      | inl bad ↦ rw (e, bad) refl
      | inr (n, good) ↦ rw (e, good) refl
    ]
  ]

  apply_bool_again :
      (var key : String) (field : Bool)
      → apply_bool env db var key (apply_bool env db var key field)
        ≡ apply_bool env db var key field
  unfolding apply_bool
  apply_bool_again var key field = elim (Bool-cases (is_empty (override env db var key))) [
    | inl e ↦ rw e refl
    | inr e ↦ rw e refl
  ]

  abbrev backend_of : (addr token backend : String) → String
  backend_of addr token backend =
      apply_str env db "OVERLAY_KEYSTORE_BACKEND" "general.keystore_backend"
        (if not (is_empty addr) && not (is_empty token) then "vault" else backend)

  backend_again :
      (addr token backend : String)
      → backend_of addr token (backend_of addr token backend) ≡ backend_of addr token backend
  backend_again addr token backend =
      elim (Bool-cases
        (is_empty (override env db "OVERLAY_KEYSTORE_BACKEND" "general.keystore_backend"))) [
          | inl e ↦ elim (Bool-cases (not (is_empty addr) && not (is_empty token))) [
            | inl d ↦ rw (e, d) refl
            | inr d ↦ rw (e, d) refl
          ]
          | inr e ↦ rw e refl
        ]

  backend_twice :
      (c : Config)
      → (apply_db_settings env db (apply_db_settings env db c)).key_store_backend
        ≡ (apply_db_settings env db c).key_store_backend
  unfolding apply_db_settings
  backend_twice c =
      rw
        (
          apply_str_again "OVERLAY_VAULT_ADDR" "vault.address" c.vault_addr,
          apply_str_again "OVERLAY_VAULT_TOKEN" "vault.token" c.vault_token,
        )
        (backend_again (apply_str env db "OVERLAY_VAULT_ADDR" "vault.address" c.vault_addr)
          (apply_str env db "OVERLAY_VAULT_TOKEN" "vault.token" c.vault_token) c.key_store_backend)

  -- Applying the same settings again changes nothing.
  pub apply_db_settings_again :
      (c : Config)
      → apply_db_settings env db (apply_db_settings env db c) ≡ apply_db_settings env db c
  unfolding apply_db_settings
  apply_db_settings_again c = λ i. record (apply_db_settings env db c) {
    oidc_issuer_url =
        apply_str_again "OVERLAY_OIDC_ISSUER_URL" "oidc.issuer_url" c.oidc_issuer_url i;
    oidc_client_id = apply_str_again "OVERLAY_OIDC_CLIENT_ID" "oidc.client_id" c.oidc_client_id i;
    oidc_client_secret =
        apply_str_again "OVERLAY_OIDC_CLIENT_SECRET" "oidc.client_secret" c.oidc_client_secret i;
    oidc_redirect_url =
        apply_str_again "OVERLAY_OIDC_REDIRECT_URL" "oidc.redirect_url" c.oidc_redirect_url i;
    oidc_roles_claim =
        apply_str_again "OVERLAY_OIDC_ROLES_CLAIM" "oidc.roles_claim" c.oidc_roles_claim i;
    oidc_admin_group =
        apply_str_again "OVERLAY_OIDC_ADMIN_GROUP" "oidc.admin_group" c.oidc_admin_group i;
    vault_addr = apply_str_again "OVERLAY_VAULT_ADDR" "vault.address" c.vault_addr i;
    vault_token = apply_str_again "OVERLAY_VAULT_TOKEN" "vault.token" c.vault_token i;
    vault_secret_path =
        apply_str_again "OVERLAY_VAULT_SECRET_PATH" "vault.secret_path" c.vault_secret_path i;
    auth_mode = apply_str_again "OVERLAY_AUTH_MODE" "general.auth_mode" c.auth_mode i;
    log_level = apply_str_again "OVERLAY_LOG_LEVEL" "general.log_level" c.log_level i;
    poll_interval =
        apply_int_again "OVERLAY_POLL_INTERVAL" "general.poll_interval" c.poll_interval i;
    terminal_idle_timeout =
        apply_int_again "OVERLAY_TERMINAL_IDLE_TIMEOUT" "general.terminal_idle_timeout"
          c.terminal_idle_timeout i;
    emergency_local_auth =
        apply_bool_again "OVERLAY_EMERGENCY_LOCAL_AUTH" "general.emergency_local_auth"
          c.emergency_local_auth i;
    key_store_backend = backend_twice c i;
  }

-- A setting that is cleared in the database stays in force until the process starts again, while the
-- settings page shows it as empty.
pub cleared_issuer_stays :
    (env : String → String) (before after : List (String × String)) (c : Config)
    → env "OVERLAY_OIDC_ISSUER_URL" ≡ ""
    → or_empty (lookup "oidc.issuer_url" after) ≡ ""
    → ((apply_db_settings env after (apply_db_settings env before c)).oidc_issuer_url
        ≡ (apply_db_settings env before c).oidc_issuer_url)
      × (text_at "issuer_url" (resolve_settings env after).oidc ≡ some "")
unfolding apply_db_settings resolve_settings lookup
cleared_issuer_stays env before after c open' cleared =
    (rw (open', cleared) refl, rw (open', cleared) refl)
