-- ===== src/Server/Settings.antt =====
-- internal/server/settings.go
pub mod Saving
pub mod Reloading
use Prim.Native.String.{◌++◌}
use text.Mathlib.Text.{◌==◌, starts_with}
use agentic_hive.Prelude.{
  ℕ, zero, suc, ◌+◌, ◌-◌, ◌*◌, ◌%◌, ◌^◌, Bool, true, false, not, ◌&&◌, ◌||◌, String, List, [], ◌∷◌,
  any, map, Option, none, some, ltb, if◌then◌else◌, Result, ok, err,
}
use agentic_hive.Text.Numbers.{ℤ, pos, negsuc}
use agentic_hive.Http.{Request, Response, failed}
use agentic_hive.Store.{Store, StoreError}
use agentic_hive.Store.Settings.{set_setting, get_all_settings}
use agentic_hive.Config.{Config, apply_db_settings, resolve_settings}
use agentic_hive.Keystore.{Vault, local, vault}
use agentic_hive.Session.Manager.{update_interval}
use agentic_hive.Auth.Tokens.{Claims}
use agentic_hive.Auth.Oidc.{OidcProvider, OidcHandler}
use agentic_hive.Server.{World, ServerEnv, Reply, settings, tested, answer, with_store, q, audit}

abbrev second : ℕ
second = 1000000000

-- `time.Duration(n) * time.Second` on 64 bits.
unfoldable pub seconds : ℤ → ℤ
seconds (pos n) =
    let t = n * second % 2 ^ 64 in if ltb t (2 ^ 63) then pos t else negsuc (2 ^ 64 - t - 1)
seconds (negsuc n) =
    let t = (n + 1) * second % 2 ^ 64 in
    if ltb t 1 then pos 0 else if ltb (2 ^ 63) t then pos (2 ^ 64 - t) else negsuc (t - 1)

-- The key is of the group of OIDC; of the group of Vault; the poll interval.
abbrev pub touches_oidc : List (String × String) → Bool
touches_oidc updates = any (λ u. starts_with u.0 "oidc.") updates

abbrev pub touches_vault : List (String × String) → Bool
touches_vault updates = any (λ u. starts_with u.0 "vault.") updates

abbrev pub touches_interval : List (String × String) → Bool
touches_interval updates = any (λ u. u.0 == "general.poll_interval") updates

abbrev pub encryption_secret_of : Config → String
encryption_secret_of c = if c.encryption_secret == "" then c.session_secret else c.encryption_secret

module _ (env : ServerEnv) where
  -- The text of `%q` for the keys, between blanks.
  unfoldable quoted_keys : List (String × String) → String
  quoted_keys [] = ""
  quoted_keys ((key, value) ∷ []) = q env key
  quoted_keys ((key, value) ∷ u ∷ updates) = q env key ++ (" " ++ quoted_keys (u ∷ updates))

  after_set :
      String
      → (Store → Option String × Store)
      → Result StoreError (Unit {0}) × Store
      → Option String × Store
  after_set key rest (err e, s) = (some key, s)
  after_set key rest (ok u, s) = rest s

  -- The loop stops at the first setting that is not saved, and gives its key.
  unfoldable pub persist : List (String × String) → Store → Option String × Store
  unfolding after_set
  persist [] s = (none, s)
  persist ((key, value) ∷ updates) s =
      after_set key (persist updates) (set_setting env.auth.db key value s)

  -- The live configuration changes, and with it the handler that shares it.
  abbrev pub shared_handler : Config → OidcHandler → OidcHandler
  shared_handler c h = record h {
    roles_claim = c.oidc_roles_claim;
    admin_group = c.oidc_admin_group;
  }

  abbrev shared : Config → Bool → Option OidcHandler → Option OidcHandler
  shared c shares none = none
  shared c shares (some h) = if shares then some (shared_handler c h) else some h

  unfoldable pub set_config : Config → World → World
  set_config c w = record w { config = c; oidc = shared c w.oidc_shares w.oidc }

  -- An error counts as "no settings".
  abbrev or_no_settings : Result StoreError (List (String × String)) → List (String × String)
  or_no_settings (err e) = []
  or_no_settings (ok all) = all

  -- The copy of the configuration that the two functions below work on.
  abbrev pub fresh_config : World → Config
  fresh_config w =
      apply_db_settings env.environ (or_no_settings (get_all_settings env.auth.db w.store)) w.config

  unfoldable pub swap_oidc : Config → Option OidcProvider → World → Bool × World
  swap_oidc c none w = (false, w)
  swap_oidc c (some provider) w = (
    true,
    record w {
      oidc = some (record {
        provider = provider;
        roles_claim = c.oidc_roles_claim;
        admin_group = c.oidc_admin_group;
      });
      oidc_shares = false;
    },
  )

  -- The result tells that there was no error.
  unfoldable pub reinit_oidc : World → Bool × World
  unfolding swap_oidc
  reinit_oidc w =
      let c = fresh_config w in
      if c.oidc_issuer_url == "" || c.oidc_client_id == ""
      then (true, record w { oidc = none; oidc_shares = false })
      else swap_oidc c (env.new_provider c) w

  unfoldable pub swap_vault : Config → Option Vault → World → Bool × World
  swap_vault c none w = (false, w)
  swap_vault c (some v) w = (true, record w { keystore = vault v c.vault_secret_path })

  unfoldable pub vault_from : Config → World → Bool × World
  unfolding swap_vault
  vault_from c w =
      if c.vault_addr == "" || c.vault_token == ""
      then (true, record w { keystore = local (encryption_secret_of c) })
      else swap_vault c (env.new_vault c.vault_addr c.vault_token) w

  unfoldable pub reinit_vault : World → Bool × World
  unfolding vault_from
  reinit_vault w = vault_from (fresh_config w) w

  abbrev set_interval : ℤ → World → World
  set_interval (pos (suc d)) w = record w { manager = update_interval (suc d) w.manager }
  set_interval d w = w

  module _ (r : Request) (user : Option Claims) where
    listed : Result StoreError (List (String × String)) → World → Response Reply × World
    listed (err e) w = (failed 500 "failed to read settings", w)
    listed (ok all) w = (answer 200 (settings (resolve_settings env.environ all)), w)

    unfoldable pub handle_get_settings : World → Response Reply × World
    unfolding listed
    handle_get_settings w = listed (get_all_settings env.auth.db w.store) w

    audited : List (String × String) → List (String × String) → World → Response Reply × World
    unfolding quoted_keys
    audited updates all w = (
      answer 200 (settings (resolve_settings env.environ all)),
      with_store env w (
          audit env r user "settings.update" "settings" ""
            ("{\"keys\":[" ++ (quoted_keys updates ++ "]}")) w.store),
    )

    interval_set : List (String × String) → List (String × String) → World → Response Reply × World
    unfolding audited
    interval_set updates all w =
        audited updates all
          (if touches_interval updates then set_interval (seconds w.config.poll_interval) w else w)

    vault_set :
        List (String × String) → List (String × String) → Bool × World → Response Reply × World
    unfolding interval_set
    vault_set updates all (false, w) = (failed 502 "settings saved but Vault re-init failed", w)
    vault_set updates all (true, w) = interval_set updates all w

    oidc_set :
        List (String × String) → List (String × String) → Bool × World → Response Reply × World
    unfolding vault_set
    oidc_set updates all (false, w) = (failed 502 "settings saved but OIDC re-init failed", w)
    oidc_set updates all (true, w) =
        vault_set updates all (if touches_vault updates then reinit_vault w else (true, w))

    reload : List (String × String) → List (String × String) → World → Response Reply × World
    unfolding oidc_set
    reload updates all w =
        oidc_set updates all (if touches_oidc updates then reinit_oidc w else (true, w))

    reread :
        List (String × String)
        → Result StoreError (List (String × String))
        → World
        → Response Reply × World
    unfolding reload
    reread updates (err e) w = (failed 500 "failed to re-read settings", w)
    reread updates (ok all) w =
        reload updates all (set_config (apply_db_settings env.environ all w.config) w)

    persisted : List (String × String) → Option String × Store → World → Response Reply × World
    unfolding reread
    persisted updates (some key, s) w = (failed 500 "failed to save setting", with_store env w s)
    persisted updates (none, s) w =
        reread updates (get_all_settings env.auth.db s) (with_store env w s)

    -- The updates in the order in which the loops run over the map; a body that is no JSON is
    -- `none`. The live configuration changes with no lock.
    unfoldable pub handle_update_settings :
        Option (List (String × String)) → World → Response Reply × World
    unfolding persisted
    handle_update_settings none w = (failed 400 "invalid request body", w)
    handle_update_settings (some []) w = (failed 400 "no settings provided", w)
    handle_update_settings (some (u ∷ updates)) w =
        persisted (u ∷ updates) (persist (u ∷ updates) w.store) w

    abbrev or_else : String → String → String
    or_else given saved = if given == "" then saved else given

    -- A body that is empty or no JSON gives empty fields.
    unfoldable pub handle_test_oidc : (issuer_url : String) → World → Response Reply × World
    handle_test_oidc issuer_url w =
        let issuer = or_else issuer_url w.config.oidc_issuer_url in
        if issuer == ""
        then (failed 400 "issuer_url is required", w)
        else if env.discovers issuer
        then (answer 200 (tested true), w)
        else (answer 502 (tested false), w)

    unfoldable pub handle_test_vault : (address token : String) → World → Response Reply × World
    handle_test_vault address token w =
        let addr = or_else address w.config.vault_addr in
        let tok = or_else token w.config.vault_token in
        if addr == ""
        then (failed 400 "address is required", w)
        else if env.health addr tok
        then (answer 200 (tested true), w)
        else (answer 502 (tested false), w)
