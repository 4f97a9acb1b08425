-- ===== src/Store/Audit.antt =====
-- internal/store/audit.go. A zero time of a filter is `none`.
pub mod Listing
pub mod Framing
use text.Mathlib.Text.{◌==◌}
use agentic_hive.Prelude.{
  ℕ, zero, suc, String, Bool, true, false, not, ◌&&◌, ◌||◌, Option, none, some, List, [], ◌∷◌, ◌++◌,
  if◌then◌else◌, ◌==◌ as nat_eq, leb, ltb, length, take, drop, select, any, Result, ok, err,
}
use agentic_hive.Store.{
  AuditEntry, Store, Engine, StoreError, constraint, engine_failure, insert_audit, select_audit,
  count_audit,
}
use agentic_hive.Store.Ordering.{order_by}

-- A limit of 0 stands for every limit that is not positive.
pub record AuditFilter : Type 0 where
  pub user_id : String
  pub action : String
  pub since : Option ℕ
  pub until : Option ℕ
  pub limit : ℕ
  pub offset : ℕ

abbrev since_ok : Option ℕ → ℕ → Bool
since_ok none t = true
since_ok (some a) t = leb a t

abbrev until_ok : Option ℕ → ℕ → Bool
until_ok none t = true
until_ok (some b) t = leb t b

abbrev text_ok : String → String → Bool
text_ok wanted v = wanted == "" || v == wanted

-- The conditions that the filter adds to `WHERE 1=1`.
unfoldable pub matches : AuditFilter → AuditEntry → Bool
matches f e =
    text_ok f.user_id e.user_id
    && text_ok f.action e.action
    && since_ok f.since e.timestamp
    && until_ok f.until e.timestamp

unfoldable pub clamp_limit : ℕ → ℕ
clamp_limit limit =
    let positive = if leb limit 0 then 100 else limit in if ltb 500 positive then 500 else positive

abbrev pub newest_first : AuditEntry → AuditEntry → Bool
newest_first a b = leb b.timestamp a.timestamp

module _ (db : Engine) where
  -- `id` and `now` stand for what is generated for an entry that has no identifier and no time.
  unfoldable pub log_audit :
      (id : String) (now : ℕ) → AuditEntry → Store → Result StoreError (Unit {0}) × Store
  log_audit id now entry s =
      let key = if entry.id == "" then id else entry.id in
      let time = if nat_eq entry.timestamp 0 then now else entry.timestamp in
      if db insert_audit
      then (err engine_failure, s)
      else if any (λ e. e.id == key) s.audit_log
      then (err constraint, s)
      else (
        ok tt,
        record s { audit_log = s.audit_log ++ record entry { id = key; timestamp = time } ∷ [] },
      )

  unfoldable pub list_audit_log : AuditFilter → Store → Result StoreError (List AuditEntry)
  list_audit_log f s =
      if db select_audit
      then err engine_failure
      else ok (
          take (clamp_limit f.limit)
            (drop f.offset (order_by newest_first (select (matches f) s.audit_log))))

  unfoldable pub count_audit_log : AuditFilter → Store → Result StoreError ℕ
  count_audit_log f s =
      if db count_audit then err engine_failure else ok (length (select (matches f) s.audit_log))
