-- ===== src/Config.antt =====
-- internal/config/config.go. The process environment is a function, `env`, which is empty for a
-- variable that is not set; the settings of the database are the map that `GetAllSettings` returns.
pub mod Resolving
pub mod Applying
mod Tests
use text.Mathlib.Text.{◌==◌}
use agentic_hive.Prelude.{
  ℕ, String, Bool, true, false, not, ◌&&◌, Option, none, some, List, [], ◌∷◌, if◌then◌else◌, lookup,
}
use agentic_hive.Text.Numbers.{ℤ, pos, atoi}
use Prim.Native.String.{◌++◌}
use agentic_hive.Http.{is_empty, or_empty}

pub data SettingSource : Type 0 where
  source_env source_db source_default : SettingSource

pub record SettingValue : Type 0 where
  pub value : String
  pub source : SettingSource
  pub is_set : Bool

pub record SettingDef : Type 0 where
  pub env_var : String
  pub default_value : String
  pub is_secret : Bool

abbrev pub plain : String → String → SettingDef
plain env_var default_value = record {
  env_var = env_var;
  default_value = default_value;
  is_secret = false;
}

abbrev pub secret : String → SettingDef
secret env_var = record { env_var = env_var; default_value = ""; is_secret = true }

abbrev pub oidc_settings : List (String × SettingDef)
oidc_settings =
    ("issuer_url", plain "OVERLAY_OIDC_ISSUER_URL" "")
    ∷ ("client_id", plain "OVERLAY_OIDC_CLIENT_ID" "")
    ∷ ("client_secret", secret "OVERLAY_OIDC_CLIENT_SECRET")
    ∷ ("redirect_url", plain "OVERLAY_OIDC_REDIRECT_URL" "")
    ∷ ("roles_claim", plain "OVERLAY_OIDC_ROLES_CLAIM" "groups")
    ∷ ("admin_group", plain "OVERLAY_OIDC_ADMIN_GROUP" "overlay-admin")
    ∷ []

abbrev pub vault_settings : List (String × SettingDef)
vault_settings =
    ("address", plain "OVERLAY_VAULT_ADDR" "")
    ∷ ("token", secret "OVERLAY_VAULT_TOKEN")
    ∷ ("secret_path", plain "OVERLAY_VAULT_SECRET_PATH" "agentic-hive/ssh-keys")
    ∷ []

abbrev pub general_settings : List (String × SettingDef)
general_settings =
    ("auth_mode", plain "OVERLAY_AUTH_MODE" "local")
    ∷ ("keystore_backend", plain "OVERLAY_KEYSTORE_BACKEND" "local")
    ∷ ("poll_interval", plain "OVERLAY_POLL_INTERVAL" "30")
    ∷ ("terminal_idle_timeout", plain "OVERLAY_TERMINAL_IDLE_TIMEOUT" "0")
    ∷ ("log_level", plain "OVERLAY_LOG_LEVEL" "info")
    ∷ ("emergency_local_auth", plain "OVERLAY_EMERGENCY_LOCAL_AUTH" "false")
    ∷ []

-- A secret is never shown: only whether it is set.
abbrev pub shown : SettingDef → SettingSource → String → Bool → SettingValue
shown def source value set =
    if def.is_secret
    then record { value = ""; source = source; is_set = set }
    else record { value = value; source = source; is_set = false }

-- One turn of the loop of `resolveGroup`.
abbrev pub resolve : SettingDef → (env_val db_val : String) → SettingValue
resolve def env_val db_val =
    if not (is_empty env_val)
    then shown def source_env env_val true
    else if not (is_empty db_val)
    then shown def source_db db_val true
    else shown def source_default def.default_value (not (is_empty def.default_value))

module _ (env : String → String) (db : List (String × String)) where
  unfoldable pub resolve_group : String → List (String × SettingDef) → List (String × SettingValue)
  resolve_group prefix [] = []
  resolve_group prefix ((key, def) ∷ defs) =
      (key, resolve def (env def.env_var) (or_empty (lookup (prefix ++ key) db)))
      ∷ resolve_group prefix defs

pub record ResolvedSettings : Type 0 where
  pub oidc : List (String × SettingValue)
  pub vault : List (String × SettingValue)
  pub general : List (String × SettingValue)

unfoldable pub resolve_settings : (String → String) → List (String × String) → ResolvedSettings
unfolding resolve_group
resolve_settings env db = record {
  oidc = resolve_group env db "oidc." oidc_settings;
  vault = resolve_group env db "vault." vault_settings;
  general = resolve_group env db "general." general_settings;
}

pub record Config : Type 0 where
  pub listen : String
  pub db_path : String
  pub auth_mode : String
  pub session_secret : String
  pub poll_interval : ℤ
  pub terminal_idle_timeout : ℤ
  pub key_store_backend : String
  pub log_level : String
  pub oidc_issuer_url : String
  pub oidc_client_id : String
  pub oidc_client_secret : String
  pub oidc_redirect_url : String
  pub oidc_roles_claim : String
  pub oidc_admin_group : String
  pub vault_addr : String
  pub vault_token : String
  pub vault_secret_path : String
  pub encryption_secret : String
  pub emergency_local_auth : Bool
  pub login_rate_limit : ℤ
  pub login_rate_window : ℤ
  pub readyz_require_server : Bool

module _ (env : String → String) where
  abbrev pub env_or : String → String → String
  env_or key fallback = if not (is_empty (env key)) then env key else fallback

  abbrev or_number : ℤ → Option ℤ → ℤ
  or_number fallback none = fallback
  or_number fallback (some n) = n

  unfoldable pub env_int_or : String → ℤ → ℤ
  env_int_or key fallback =
      if is_empty (env key) then fallback else or_number fallback (atoi (env key))

  unfoldable pub load : Config
  unfolding env_int_or
  load = record {
    listen = env_or "OVERLAY_LISTEN" ":8080";
    db_path = env_or "OVERLAY_DB_PATH" "/data/overlay.db";
    auth_mode = env_or "OVERLAY_AUTH_MODE" "local";
    session_secret = env_or "OVERLAY_SESSION_SECRET" "";
    poll_interval = env_int_or "OVERLAY_POLL_INTERVAL" (pos 30);
    terminal_idle_timeout = env_int_or "OVERLAY_TERMINAL_IDLE_TIMEOUT" (pos 0);
    key_store_backend = env_or "OVERLAY_KEYSTORE_BACKEND" "local";
    log_level = env_or "OVERLAY_LOG_LEVEL" "info";
    oidc_issuer_url = env_or "OVERLAY_OIDC_ISSUER_URL" "";
    oidc_client_id = env_or "OVERLAY_OIDC_CLIENT_ID" "";
    oidc_client_secret = env_or "OVERLAY_OIDC_CLIENT_SECRET" "";
    oidc_redirect_url = env_or "OVERLAY_OIDC_REDIRECT_URL" "";
    oidc_roles_claim = env_or "OVERLAY_OIDC_ROLES_CLAIM" "groups";
    oidc_admin_group = env_or "OVERLAY_OIDC_ADMIN_GROUP" "overlay-admin";
    vault_addr = env_or "OVERLAY_VAULT_ADDR" "";
    vault_token = env_or "OVERLAY_VAULT_TOKEN" "";
    vault_secret_path = env_or "OVERLAY_VAULT_SECRET_PATH" "agentic-hive/ssh-keys";
    encryption_secret = env_or "OVERLAY_ENCRYPTION_SECRET" "";
    emergency_local_auth = env_or "OVERLAY_EMERGENCY_LOCAL_AUTH" "" == "true";
    login_rate_limit = env_int_or "OVERLAY_LOGIN_RATE_LIMIT" (pos 5);
    login_rate_window = env_int_or "OVERLAY_LOGIN_RATE_WINDOW" (pos 900);
    readyz_require_server = env_or "OVERLAY_READYZ_REQUIRE_SERVER" "" == "true";
  }

  module _ (db : List (String × String)) where
    -- The text that the database has for a field that the environment leaves open; a missing key
    -- and an empty text are the same here.
    abbrev pub override : (env_var db_key : String) → String
    override env_var db_key = if is_empty (env env_var) then or_empty (lookup db_key db) else ""

    abbrev pub apply_str : (env_var db_key field : String) → String
    apply_str env_var db_key field =
        if is_empty (override env_var db_key) then field else override env_var db_key

    unfoldable pub apply_int : (env_var db_key : String) → ℤ → ℤ
    apply_int env_var db_key field =
        if is_empty (override env_var db_key)
        then field
        else or_number field (atoi (override env_var db_key))

    unfoldable pub apply_bool : (env_var db_key : String) → Bool → Bool
    apply_bool env_var db_key field =
        if is_empty (override env_var db_key) then field else override env_var db_key == "true"

    unfoldable pub apply_oidc_vault : Config → Config
    apply_oidc_vault c = record c {
      oidc_issuer_url = apply_str "OVERLAY_OIDC_ISSUER_URL" "oidc.issuer_url" c.oidc_issuer_url;
      oidc_client_id = apply_str "OVERLAY_OIDC_CLIENT_ID" "oidc.client_id" c.oidc_client_id;
      oidc_client_secret =
          apply_str "OVERLAY_OIDC_CLIENT_SECRET" "oidc.client_secret" c.oidc_client_secret;
      oidc_redirect_url =
          apply_str "OVERLAY_OIDC_REDIRECT_URL" "oidc.redirect_url" c.oidc_redirect_url;
      oidc_roles_claim = apply_str "OVERLAY_OIDC_ROLES_CLAIM" "oidc.roles_claim" c.oidc_roles_claim;
      oidc_admin_group = apply_str "OVERLAY_OIDC_ADMIN_GROUP" "oidc.admin_group" c.oidc_admin_group;
      vault_addr = apply_str "OVERLAY_VAULT_ADDR" "vault.address" c.vault_addr;
      vault_token = apply_str "OVERLAY_VAULT_TOKEN" "vault.token" c.vault_token;
      vault_secret_path =
          apply_str "OVERLAY_VAULT_SECRET_PATH" "vault.secret_path" c.vault_secret_path;
    }

    -- An address and a token of Vault switch the key store.
    unfoldable pub detect_vault : Config → Config
    detect_vault c = record c {
      key_store_backend =
          if not (is_empty c.vault_addr) && not (is_empty c.vault_token)
          then "vault"
          else c.key_store_backend;
    }

    unfoldable pub apply_general : Config → Config
    unfolding apply_int apply_bool
    apply_general c = record c {
      auth_mode = apply_str "OVERLAY_AUTH_MODE" "general.auth_mode" c.auth_mode;
      key_store_backend =
          apply_str "OVERLAY_KEYSTORE_BACKEND" "general.keystore_backend" c.key_store_backend;
      log_level = apply_str "OVERLAY_LOG_LEVEL" "general.log_level" c.log_level;
      poll_interval = apply_int "OVERLAY_POLL_INTERVAL" "general.poll_interval" c.poll_interval;
      terminal_idle_timeout =
          apply_int "OVERLAY_TERMINAL_IDLE_TIMEOUT" "general.terminal_idle_timeout"
            c.terminal_idle_timeout;
      emergency_local_auth =
          apply_bool "OVERLAY_EMERGENCY_LOCAL_AUTH" "general.emergency_local_auth"
            c.emergency_local_auth;
    }

    unfoldable pub apply_db_settings : Config → Config
    unfolding apply_oidc_vault detect_vault apply_general
    apply_db_settings c = apply_general (detect_vault (apply_oidc_vault c))
