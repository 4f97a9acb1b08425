-- ===== src/Server/AuditLog.antt =====
-- `handleListAuditLog` of internal/server/audit.go. The times that are read are those from 1970 on.
use text.Mathlib.Text.{◌==◌}
use agentic_hive.Prelude.{ℕ, suc, String, List, Option, none, some, if◌then◌else◌, Result, ok, err}
use agentic_hive.Text.Numbers.{pos, atoi}
use agentic_hive.Http.{Request, Response, failed, param}
use agentic_hive.Store.{AuditEntry, Store, StoreError}
use agentic_hive.Store.Audit.{AuditFilter, list_audit_log, count_audit_log}
use agentic_hive.Server.{World, ServerEnv, Reply, audit_page, answer}

-- A parameter that is absent leaves its default; `none` is one that cannot be read.
abbrev read_or {ℓ} : {A : Type ℓ} → A → (String → Option A) → String → Option A
read_or default read v = if v == "" then some default else read v

abbrev read_limit : String → Option ℕ
read_limit v = elim (atoi v) [ some (pos (suc n)) ↦ some (suc n) | _ ↦ none ]

abbrev read_offset : String → Option ℕ
read_offset v = elim (atoi v) [ some (pos n) ↦ some n | _ ↦ none ]

abbrev read_time : (String → Option ℕ) → String → Option (Option ℕ)
read_time parse v = elim (parse v) [ none ↦ none | some t ↦ some (some t) ]

abbrev or_error {ℓ} : {A : Type ℓ} → String → Option A → Result String A
or_error message none = err message
or_error message (some a) = ok a

abbrev bind {ℓ κ} :
    {A : Type ℓ} → {B : Type κ} → Result String A → (A → Result String B) → Result String B
bind (err e) f = err e
bind (ok a) f = f a

module _ (env : ServerEnv) (r : Request) where
  -- The filter of the query, or the message of the first parameter that cannot be read.
  unfoldable pub read_filter : Result String AuditFilter
  read_filter =
      bind
        (or_error "invalid since: use RFC3339"
          (read_or none (read_time env.parse_time) (param r "since")))
        (λ since.
          bind
            (or_error "invalid until: use RFC3339"
              (read_or none (read_time env.parse_time) (param r "until")))
            (λ until.
              bind (or_error "invalid limit" (read_or 0 read_limit (param r "limit"))) (λ limit.
                bind (or_error "invalid offset" (read_or 0 read_offset (param r "offset")))
                  (λ offset. ok (record {
                    user_id = param r "user_id";
                    action = param r "action";
                    since = since;
                    until = until;
                    limit = limit;
                    offset = offset;
                  })))))

  page : ℕ → Result StoreError (List AuditEntry) → Response Reply
  page total (err e) = failed 500 "failed to list audit log"
  page total (ok entries) = answer 200 (audit_page entries total)

  counted : AuditFilter → Result StoreError ℕ → Store → Response Reply
  unfolding page
  counted f (err e) s = failed 500 "failed to count audit log"
  counted f (ok total) s = page total (list_audit_log env.auth.db f s)

  filtered : Result String AuditFilter → Store → Response Reply
  unfolding counted
  filtered (err message) s = failed 400 message
  filtered (ok f) s = counted f (count_audit_log env.auth.db f s) s

  unfoldable pub handle_list_audit_log : World → Response Reply × World
  unfolding read_filter filtered
  handle_list_audit_log w = (filtered read_filter w.store, w)
