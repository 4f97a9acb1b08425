-- ===== src/Server/Tests.antt =====
-- Requests of a user who is no admin, and changes of the settings, on concrete values.
use text.Mathlib.Text.{◌==◌}
use agentic_hive.Prelude.{
  ◌≡◌, refl, String, true, false, List, [], ◌∷◌, none, some, ok, if◌then◌else◌, eq_iff, arith,
  lookup, insert,
}
use agentic_hive.Http.{Request}
use agentic_hive.Store.{Store, working}
use agentic_hive.Store.Tests.{store, web}
use agentic_hive.Store.Servers.{get_server}
use agentic_hive.Store.Servers.Ownership.{AllForeign}
use agentic_hive.Store.Settings.{get_all_settings, set_setting}
use agentic_hive.Store.Keeping.{Keeps}
use agentic_hive.Config.{load, apply_db_settings}
use agentic_hive.RateLimit.{new_rate_limiter}
use agentic_hive.Keystore.{Cipher, Vault, local, vault, put_key}
use agentic_hive.Session.Manager.{Remote}
use agentic_hive.Auth.Tokens.{Claims, JwtLibrary, verify_jwt}
use agentic_hive.Auth.Local.{AuthEnv}
use agentic_hive.Auth.Oidc.{OidcHandler}
use agentic_hive.Auth.Guards.{require_auth}
use agentic_hive.Server.{World, ServerEnv, answer, reachability}
use agentic_hive.Server.Servers.{handle_upload_key}
use agentic_hive.Server.Servers.Uploading.{handle_upload_key-pooled}
use agentic_hive.Server.Settings.{
  persist, shared_handler, set_config, reinit_vault, handle_update_settings, encryption_secret_of,
}
use agentic_hive.Server.Settings.Saving.{Effective, handle_update_settings-Effective}
use agentic_hive.Server.Settings.Reloading.{handle_update_settings-lost}
use agentic_hive.Server.Startup.{start_config, start_keystore}
use agentic_hive.Server.Startup.Keystores.{reinit_vault-other_backend}
use agentic_hive.Server.Routes.{delete_one, as_user, serve_request}
use agentic_hive.Server.Routes.Ownership.{serve_request-foreign}

abbrev pub ann : Claims
ann = record { user_id = "u1"; username = "ann"; role = "user" }

-- Accepts one token.
abbrev library : JwtLibrary
library = record {
  sign = λ c secret. none;
  parse = λ key now token. ok (record { claims = ann; expires_at = 86500; issued_at = 100 }, true);
}

abbrev auth_env : AuthEnv
auth_env = record {
  db = working;
  jwt = library;
  secret = "key";
  compare_password = λ hash password. hash == password;
  hash_password = λ password. some password;
  now = 50;
  audit_id = "a9";
  new_id = "n1";
  csrf_token = some "csrf";
}

abbrev clear : Cipher
clear = record {
  derive = λ secret salt. salt;
  seal = λ key nonce plain. plain;
  decrypt = λ key nonce sealed. some sealed;
}

abbrev shut : Vault
shut = record { read = λ path. none; write = λ path key. false; remove = λ path. false }

abbrev pub alive : Remote
alive = record {
  first = record { parses = λ key. true; presented = some (7 ∷ []); client = some 3 };
  again = record { parses = λ key. true; presented = some (7 ∷ []); client = some 3 };
  gives_session = λ c. true;
  runs = λ c line. true;
  stdout = λ line. [];
}

abbrev env_of : (String → String) → ServerEnv
env_of environ = record {
  auth = auth_env;
  cipher = clear;
  fingerprint = λ key. "print";
  random = some (1 ∷ [], 2 ∷ []);
  short_id = "abc123";
  remotes = λ id. alive;
  environ = environ;
  is_print = λ c. true;
  parse_time = λ v. none;
  new_provider = λ c. none;
  new_vault = λ addr token. some shut;
  discovers = λ issuer. false;
  health = λ addr token. false;
  peer = "10.0.0.9";
  arrived = 0;
  measured = 0;
  finished = 0;
  state = "state";
}

abbrev environ : String → String
environ name =
    if name == "OVERLAY_VAULT_ADDR"
    then "http://vault"
    else if name == "OVERLAY_VAULT_TOKEN"
    then "t"
    else ""

abbrev pub env : ServerEnv
env = env_of environ

abbrev handler : OidcHandler
handler = record {
  provider = record {
    auth_code_url = λ state. state;
    exchange = λ code. none;
    verify = λ raw. none;
  };
  roles_claim = "groups";
  admin_group = "overlay-admin";
}

abbrev pub world : World
world = record {
  store = store;
  pool = record { conns = ("v1", 3) ∷ []; raised = 1; lowered = 0; opened = 3 ∷ [] };
  manager = record { sessions = []; interval = none; active = [] };
  config = load environ;
  keystore = local "key";
  oidc = some handler;
  oidc_shares = true;
  limiter = new_rate_limiter 5 900;
}

abbrev pub request : Request
request = record {
  method = "DELETE";
  path = "/api/servers/v2";
  query = [];
  headers = ("X-CSRF-Token", "c1") ∷ [];
  cookies = ("session", "token") ∷ ("csrf", "c1") ∷ [];
  remote_addr = "10.0.0.9:5000";
}

pub v2-AllForeign : AllForeign "v2" "u1" store.servers
v2-AllForeign = (
  λ same. absurd (ground (arith, eq_iff "v1" "v2", same)),
  (λ same. (λ e. ground (arith, eq_iff "u2" "u1", e), λ e. ground (arith, eq_iff "u2" "", e)), tt),
)

serve_request-foreign_example :
    Keeps "v2" store (serve_request env request (as_user (delete_one "v2")) world).1.store
unfolding require_auth verify_jwt lookup
serve_request-foreign_example =
    serve_request-foreign env request (delete_one "v2") world ann "v2" refl
      (λ e. ground (arith, eq_iff "user" "admin", e)) (λ e. ground (arith, eq_iff "u1" "", e))
      v2-AllForeign refl

abbrev debug : List (String × String)
debug = ("general.log_level", "debug") ∷ []

handle_update_settings-Effective_example :
    Effective env request
      (some ann)
      debug
      world
      (handle_update_settings env request (some ann) (some debug) world).1
unfolding handle_update_settings persist set_setting get_all_settings
handle_update_settings-Effective_example =
    handle_update_settings-Effective env request (some ann) debug world (tt, tt) refl

abbrev template_id : String → String
template_id name = name

-- A process that was started on the settings of the table.
abbrev started_on : Store → World
started_on s = record world { store = s; config = start_config env template_id s }

abbrev started : World
started = started_on store

abbrev named_local : Store
named_local = record store { settings = ("general.keystore_backend", "local") ∷ [] }

reinit_vault-other_backend_example :
    (start_keystore env template_id (start_config env template_id named_local)
      ≡ some (local (encryption_secret_of (start_config env template_id named_local))))
    × (reinit_vault env (started_on named_local)
        ≡ (true, record (started_on named_local) { keystore = vault shut "agentic-hive/ssh-keys" }))
unfolding start_config get_all_settings load apply_db_settings lookup
reinit_vault-other_backend_example =
    reinit_vault-other_backend env template_id (started_on named_local)
      ("general.keystore_backend", "local") [] shut refl refl
      (λ e. ground (arith, eq_iff "local" "vault", e)) refl refl

abbrev issuer : List (String × String)
issuer = ("oidc.issuer_url", "http://issuer") ∷ ("oidc.admin_group", "staff") ∷ []

abbrev saved : Store
saved = record store { settings = ("oidc.client_id", "hive") ∷ issuer }

handle_update_settings-lost_example :
    let result = handle_update_settings env request (some ann) (some issuer) world in
    (result.0.status ≡ 502)
    × (result.1.oidc
        ≡ some (
            shared_handler env (apply_db_settings env.environ saved.settings world.config) handler))
unfolding persist set_setting get_all_settings set_config load apply_db_settings lookup insert
handle_update_settings-lost_example =
    handle_update_settings-lost env request (some ann) ("oidc.issuer_url", "http://issuer")
      (("oidc.admin_group", "staff") ∷ []) saved.settings world saved handler refl refl refl
      (λ e. ground (arith, eq_iff "http://issuer" "", e)) (λ e. ground (arith, eq_iff "hive" "", e))
      refl refl refl

handle_upload_key-pooled_example :
    (handle_upload_key env request (some ann) "v1" (some (9 ∷ [])) world).0
    ≡ answer 200 (reachability true)
unfolding get_server put_key lookup
handle_upload_key-pooled_example =
    handle_upload_key-pooled env request (some ann) "v1" (9 ∷ []) web world
      (put_key clear working (local "key") "v1" (9 ∷ []) (some (1 ∷ [], 2 ∷ [])) store).1 3 refl
      (λ e. ground (arith, eq_iff "local" "vault_ref", e)) refl refl refl
