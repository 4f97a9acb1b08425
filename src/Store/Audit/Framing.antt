-- ===== src/Store/Audit/Framing.antt =====
-- Writing an audit entry touches no other table.
use agentic_hive.Prelude.{ℕ, String, ◌≡◌, refl, arith}
use agentic_hive.Store.{AuditEntry, Store, Engine}
use agentic_hive.Store.Audit.{log_audit}

-- Two stores that differ in the audit log alone.
pub record OnlyAudits (s s' : Store) : Type 0 where
  pub users : s'.users ≡ s.users
  pub servers : s'.servers ≡ s.servers
  pub ssh_keys : s'.ssh_keys ≡ s.ssh_keys
  pub host_keys : s'.host_keys ≡ s.host_keys
  pub session_templates : s'.session_templates ≡ s.session_templates
  pub settings : s'.settings ≡ s.settings

pub unchanged : (s : Store) → OnlyAudits s s
unchanged s = record {
  users = refl;
  servers = refl;
  ssh_keys = refl;
  host_keys = refl;
  session_templates = refl;
  settings = refl;
}

pub log_audit-OnlyAudits :
    (db : Engine) (id : String) (now : ℕ) (entry : AuditEntry) (s : Store)
    → OnlyAudits s (log_audit db id now entry s).1
unfolding log_audit
log_audit-OnlyAudits db id now entry s = ground (arith, unchanged s)
