-- ===== src/Auth/Auditing.antt =====
-- The audit entries of internal/auth, and the actions of internal/store/audit.go.
use agentic_hive.Prelude.{ℕ, String}
use agentic_hive.Http.{Request}
use agentic_hive.Http.ClientIp.{client_ip}
use agentic_hive.Store.{Store, Engine}
use agentic_hive.Store.Audit.{log_audit}

abbrev pub audit_auth_login : String
audit_auth_login = "auth.login"

abbrev pub audit_auth_login_failed : String
audit_auth_login_failed = "auth.login_failed"

abbrev pub audit_auth_logout : String
audit_auth_logout = "auth.logout"

-- The engine, the identifier that the entry gets, and the time.
module _ (db : Engine) (id : String) (now : ℕ) where
  -- An entry that is not written is not reported to the caller.
  unfoldable pub log_auth_audit : Request → (action user_id username : String) → Store → Store
  log_auth_audit r action user_id username s =
      (log_audit db id now
        (record {
          id = "";
          timestamp = 0;
          user_id = user_id;
          username = username;
          action = action;
          target_type = "";
          target_id = "";
          details = "";
          ip_address = client_ip r;
        })
        s).1
