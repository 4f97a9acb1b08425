-- ===== src/Server.antt =====
-- internal/server: the state of the running server, and what all handlers share.
pub mod Ownership
pub mod Servers
pub mod Sessions
pub mod Admin
pub mod Settings
pub mod AuditLog
pub mod Routes
pub mod Middleware
pub mod Startup
pub mod Tests
use text.Mathlib.Text.{◌==◌}
use agentic_hive.Prelude.{
  ℕ, Bool, true, false, String, List, [], ◌∷◌, Option, none, some, if◌then◌else◌, Result, ok, err,
}
use agentic_hive.Text.{Text}
use agentic_hive.Text.Numbers.{ℤ}
use agentic_hive.Text.Quote.{quote}
use agentic_hive.Http.{Request, Response, failed}
use agentic_hive.Http.ClientIp.{client_ip}
use agentic_hive.Store.{
  User, Server, SessionTemplate, AuditEntry, Store, StoreError, Engine, role_admin,
}
use agentic_hive.Store.Servers.{get_server}
use agentic_hive.Store.Audit.{log_audit}
use agentic_hive.Config.{Config, ResolvedSettings}
use agentic_hive.RateLimit.{RateLimiter}
use agentic_hive.Keystore.{KeyStore, Cipher, Vault}
use agentic_hive.Pool.{Pool, PoolEnv}
use agentic_hive.Session.Listing.{Session}
use agentic_hive.Session.Manager.{Manager, Remote}
use agentic_hive.Auth.Tokens.{Claims}
use agentic_hive.Auth.Oidc.{OidcProvider, OidcHandler}
use agentic_hive.Auth.Local.{AuthEnv, LoggedIn}

-- `Server` with what its parts refer to. `oidc_shares` tells that the handler of `oidc` was made from
-- the live configuration itself, as at the start of the process, and not from a copy.
pub record World : Type 0 where
  pub store : Store
  pub pool : Pool
  pub manager : Manager
  pub config : Config
  pub keystore : KeyStore
  pub oidc : Option OidcHandler
  pub oidc_shares : Bool
  pub limiter : RateLimiter

-- What a request takes from outside. `auth` holds the engine, the clock and the random bytes that
-- the packages below take too; one statement fails always or never in the course of a request.
-- `random` is the salt and the nonce of a sealed key, `short_id` the end of a session's name, and
-- `remotes` what each host does. `environ` is the process environment, `is_print` the tables of
-- unicode, and `parse_time` reads an RFC 3339 time. `new_provider` and `new_vault` are the
-- constructors of the two client libraries, `discovers` and `health` the calls that the tests of
-- the settings make. `peer` is the text of the client's address, and `arrived`, `measured` and
-- `finished` are the three readings of the limiter's clock. `state` is the random text of an OIDC login.
pub record ServerEnv : Type 0 where
  pub auth : AuthEnv
  pub cipher : Cipher
  pub fingerprint : List ℕ → String
  pub random : Option (List ℕ × List ℕ)
  pub short_id : String
  pub remotes : String → Remote
  pub environ : String → String
  pub is_print : ℕ → Bool
  pub parse_time : String → Option ℕ
  pub new_provider : Config → Option OidcProvider
  pub new_vault : (addr token : String) → Option Vault
  pub discovers : String → Bool
  pub health : (addr token : String) → Bool
  pub peer : String
  pub arrived : ℕ
  pub measured : ℕ
  pub finished : ℕ
  pub state : String

-- A user without the password's hash; times are seconds.
pub record SafeUser : Type 0 where
  pub id : String
  pub username : String
  pub role : String
  pub created_at : ℕ

pub data Check : Type 0 where
  check_ok check_error check_disabled none_reachable : Check

-- The bodies of the answers.
pub data Reply : Type 0 where
  done : Reply
  logged_in : LoggedIn → Reply
  me : (username role : String) → (vault_available : Bool) → Reply
  setup_status : (needed oidc_available : Bool) → Reply
  readiness : (database servers : Check) → Reply
  server : Server → Reply
  servers : List Server → Reply
  reachability : Bool → Reply
  sessions : List Session → Reply
  session_named : String → Reply
  templates : List SessionTemplate → Reply
  users : List SafeUser → Reply
  settings : ResolvedSettings → Reply
  overview : (auth_mode backend : String) → (poll_interval : ℤ) → Reply
  audit_page : List AuditEntry → (total : ℕ) → Reply
  tested : Bool → Reply
  location : String → Reply

-- `json.Encode` of a value under a status.
abbrev pub answer : ℕ → Reply → Response Reply
answer code body = record { status = code; cookies = []; body = ok body }

-- `ownerID` of the handlers: admins see every server.
abbrev pub owner_of : Option Claims → String
owner_of none = ""
owner_of (some c) = if c.role == role_admin then "" else c.user_id

abbrev pub user_id_of : Option Claims → String
user_id_of none = ""
user_id_of (some c) = c.user_id

abbrev pub name_of_user : Option Claims → String
name_of_user none = ""
name_of_user (some c) = c.username

module _ (env : ServerEnv) where
  abbrev pub db : Engine
  db = env.auth.db

  -- The pool reads its keys from the key store that is in place.
  abbrev pub pool_env : World → PoolEnv
  pool_env w = record {
    db = env.auth.db;
    cipher = env.cipher;
    keystore = w.keystore;
    fingerprint = env.fingerprint;
    now = env.auth.now;
  }

  abbrev pub with_store : World → Store → World
  with_store w s = record w { store = s }

  abbrev pub q : String → String
  q = quote env.is_print

  -- `logAudit`: an entry that is not written is only logged.
  unfoldable pub audit :
      Request → Option Claims → (action target_type target_id details : String) → Store → Store
  audit r user action target_type target_id details s =
      (log_audit env.auth.db env.auth.audit_id env.auth.now
        (record {
          id = "";
          timestamp = 0;
          user_id = user_id_of user;
          username = name_of_user user;
          action = action;
          target_type = target_type;
          target_id = target_id;
          details = details;
          ip_address = client_ip r;
        })
        s).1

  -- The guard of the handlers of one server: "not found" unless the caller sees it.
  abbrev pub checked :
      Result StoreError Server
      → (Server → World → Response Reply × World)
      → World
      → Response Reply × World
  checked (err e) act w = (failed 404 "server not found", w)
  checked (ok srv) act w = act srv w

  abbrev pub on_server :
      Option Claims
      → String
      → (Server → World → Response Reply × World)
      → World
      → Response Reply × World
  on_server user id act w = checked (get_server env.auth.db id (owner_of user) w.store) act w
