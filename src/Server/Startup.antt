-- ===== src/Server/Startup.antt =====
-- `main` of cmd/server/main.go up to the point where it serves, with `New` of
-- internal/server/server.go. Opening the database, with its migrations, is an argument.
pub mod Keystores
use Prim.Native.Char.{Char, code, char}
use text.Mathlib.Text.{◌==◌}
use agentic_hive.Prelude.{
  ℕ, zero, suc, ◌+◌, Bool, true, false, not, ◌&&◌, ◌||◌, String, List, [], ◌∷◌, Option, none, some,
  if◌then◌else◌, Result, ok, err,
}
use agentic_hive.Text.Numbers.{ℤ, pos, negsuc}
use agentic_hive.Store.{Store, StoreError}
use agentic_hive.Store.Settings.{get_all_settings}
use agentic_hive.Store.Templates.{seed_templates}
use agentic_hive.Config.{Config, load, apply_db_settings}
use agentic_hive.RateLimit.{RateLimiter, new_rate_limiter}
use agentic_hive.Keystore.{KeyStore, Vault, local, vault}
use agentic_hive.Pool.{Pool}
use agentic_hive.Session.Manager.{Manager}
use agentic_hive.Auth.Oidc.{OidcProvider, OidcHandler}
use agentic_hive.Server.{World, ServerEnv}
use agentic_hive.Server.Settings.{seconds, encryption_secret_of}

-- What the process does: it exits with an error, it crashes in the goroutine of the polling, whose
-- ticker takes no interval below 1, or it serves, polling at an interval or not at all.
pub data Start : Type 0 where
  exits : Start
  crashes : Start
  serves : World → Option ℤ → Start

-- No negative limit and no negative window is told from zero.
abbrev at_least_zero : ℤ → ℕ
at_least_zero (pos n) = n
at_least_zero (negsuc n) = 0

module _ (env : ServerEnv) (template_id : String → String) where
  -- The settings of the database count where they can be read and there are some.
  abbrev with_settings : Result StoreError (List (String × String)) → Config → Config
  with_settings (err e) c = c
  with_settings (ok []) c = c
  with_settings (ok (e ∷ all)) c = apply_db_settings env.environ (e ∷ all) c

  unfoldable pub start_config : Store → Config
  start_config s = with_settings (get_all_settings env.auth.db s) (load env.environ)

  vault_store : Config → Option Vault → Option KeyStore
  vault_store c none = none
  vault_store c (some v) = some (vault v c.vault_secret_path)

  unfoldable pub start_keystore : Config → Option KeyStore
  unfolding vault_store
  start_keystore c =
      if c.key_store_backend == "vault"
      then vault_store c (env.new_vault c.vault_addr c.vault_token)
      else some (local (encryption_secret_of c))

  abbrev handler_of : Config → Option OidcProvider → Option OidcHandler
  handler_of c none = none
  handler_of c (some provider) = some (record {
    provider = provider;
    roles_claim = c.oidc_roles_claim;
    admin_group = c.oidc_admin_group;
  })

  -- A provider that is not reached is only logged. The handler shares the live configuration.
  unfoldable pub start_oidc : Config → Option OidcHandler
  start_oidc c =
      if not (c.oidc_issuer_url == "") && not (c.oidc_client_id == "")
      then handler_of c (env.new_provider c)
      else none

  abbrev new_world : Config → KeyStore → Store → World
  new_world c ks s = record {
    store = s;
    pool = record { conns = []; raised = 0; lowered = 0; opened = [] };
    manager = record { sessions = []; interval = none; active = [] };
    config = c;
    keystore = ks;
    oidc = start_oidc c;
    oidc_shares = true;
    limiter =
        new_rate_limiter (at_least_zero c.login_rate_limit) (at_least_zero c.login_rate_window);
  }

  -- `StartPolling` for an interval of the configuration above 0.
  abbrev start_polling : ℤ → World → Start
  start_polling (pos (suc n)) w = serves w (some (pos (suc n)))
  start_polling interval w = crashes

  abbrev with_interval : ℤ → World → Start
  with_interval (pos (suc n)) w = start_polling (seconds (pos (suc n))) w
  with_interval interval w = serves w none

  serve_with : Config → Store → Option KeyStore → Start
  serve_with c s none = exits
  serve_with c s (some ks) = with_interval c.poll_interval (new_world c ks s)

  seeded : Result StoreError (Unit {0}) × Store → Start
  unfolding start_config start_keystore serve_with
  seeded (err e, s) = exits
  seeded (ok u, s) = let c = start_config s in serve_with c s (start_keystore c)

  opened : Option Store → Start
  unfolding seeded
  opened none = exits
  opened (some s) = seeded (seed_templates env.auth.db template_id env.auth.now s)

  unfoldable pub start : Option Store → Start
  unfolding opened
  start database = if (load env.environ).session_secret == "" then exits else opened database
