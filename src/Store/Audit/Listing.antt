-- ===== src/Store/Audit/Listing.antt =====
-- What a page of the audit log holds.
use Prim.Native.Nat.{min}
use text.Mathlib.Text.{◌==◌}
use agentic_hive.Prelude.{
  ℕ, zero, suc, ◌+◌, ◌-◌, ◌≤◌, ◌≡◌, refl, ap, ◌∙◌, Bool, true, List, [], ◌∷◌, ◌++◌, arith,
  if◌then◌else◌, length, take, drop, select, All, ok, String, length-append, length-take,
}
use agentic_hive.Store.{AuditEntry, Store, Engine}
use agentic_hive.Store.Ordering.{
  order_by, length-order_by, order_by-All, IsOrdered, order_by-IsOrdered, take-IsOrdered,
  drop-IsOrdered,
}
use agentic_hive.Store.Audit.{
  AuditFilter, matches, clamp_limit, newest_first, log_audit, list_audit_log, count_audit_log,
}

module _ {ℓ} {A : Type ℓ} where
  length-drop : (n : ℕ) (xs : List A) → length (drop n xs) ≡ length xs - n
  length-drop zero xs = omega arith
  length-drop (suc n) [] = omega arith
  length-drop (suc n) (x ∷ xs) = omega (arith, length-drop n xs)

  select-All : (p : A → Bool) (xs : List A) → All (λ x. p x ≡ true) (select p xs)
  select-All p [] = tt
  select-All p (x ∷ xs) = ground (arith, select-All p xs)

  take-All {κ} : (P : A → Type κ) (n : ℕ) (xs : List A) → All P xs → All P (take n xs)
  take-All P zero xs h = tt
  take-All P (suc n) [] h = tt
  take-All P (suc n) (x ∷ xs) (p, h) = (p, take-All P n xs h)

  drop-All {κ} : (P : A → Type κ) (n : ℕ) (xs : List A) → All P xs → All P (drop n xs)
  drop-All P zero xs h = h
  drop-All P (suc n) [] h = tt
  drop-All P (suc n) (x ∷ xs) (p, h) = drop-All P n xs h

  select-append : (p : A → Bool) (xs ys : List A) → select p (xs ++ ys) ≡ select p xs ++ select p ys
  select-append p [] ys = refl
  select-append p (x ∷ xs) ys = ground (arith, select-append p xs ys)

pub clamp_limit_bounds : (n : ℕ) → (1 ≤ clamp_limit n) × (clamp_limit n ≤ 500)
unfolding clamp_limit
clamp_limit_bounds n = ground arith

-- Where the listing and the count succeed, a page of the audit log holds only entries that pass the
-- filter, the newest first; it holds as many of the counted entries as are left behind the offset,
-- up to the limit, and never more than 500.
pub list_audit_log_page :
    (db : Engine) (f : AuditFilter) (s : Store) (entries : List AuditEntry) (total : ℕ)
    → list_audit_log db f s ≡ ok entries
    → count_audit_log db f s ≡ ok total
    → All (λ e. matches f e ≡ true) entries
      × IsOrdered newest_first entries
      × (length entries ≡ min (clamp_limit f.limit) (total - f.offset))
      × (length entries ≤ 500)
unfolding list_audit_log count_audit_log
list_audit_log_page db f s entries total listed counted =
    let hits = select (matches f) s.audit_log in
    let sorted = order_by newest_first hits in
    let page : entries ≡ take (clamp_limit f.limit) (drop f.offset sorted) = ground arith in
    let all : total ≡ length hits = ground arith in
    let size = length-take (clamp_limit f.limit) (drop f.offset sorted) in
    let left = length-drop f.offset sorted in
    let same = length-order_by newest_first hits in
    rw page (
      take-All (λ e. matches f e ≡ true) (clamp_limit f.limit) (drop f.offset sorted)
          (drop-All (λ e. matches f e ≡ true) f.offset sorted
            (order_by-All newest_first (λ e. matches f e ≡ true) hits
              (select-All (matches f) s.audit_log))),
      take-IsOrdered newest_first (clamp_limit f.limit) (drop f.offset sorted) (
          drop-IsOrdered newest_first f.offset sorted
            (order_by-IsOrdered newest_first (λ x y h. ground arith) hits)),
      omega (arith, size, left, same, all),
      omega (arith, size, clamp_limit_bounds f.limit),
    )

-- An entry that was logged without an identifier and a time adds one to the count of every filter
-- that it passes with those that were filled in, and nothing to the count of the others.
pub log_audit_count :
    (db : Engine) (id : String) (now : ℕ) (entry : AuditEntry) (s s' : Store) (f : AuditFilter)
    (n n' : ℕ)
    → (entry.id == "") ≡ true
    → entry.timestamp ≡ 0
    → log_audit db id now entry s ≡ (ok tt, s')
    → count_audit_log db f s ≡ ok n
    → count_audit_log db f s' ≡ ok n'
    → n' ≡ n + (if matches f (record entry { id = id; timestamp = now }) then 1 else 0)
unfolding log_audit count_audit_log
log_audit_count db id now entry s s' f n n' unnamed untimed logged before after =
    let row : AuditEntry = record entry { id = id; timestamp = now } in
    let stored : s'.audit_log ≡ s.audit_log ++ row ∷ [] = ground arith in
    let old : n ≡ length (select (matches f) s.audit_log) = ground arith in
    let new : n' ≡ length (select (matches f) s'.audit_log) = ground arith in
    let parts =
      ap (λ l. length (select (matches f) l)) stored
      ∙ ap length (select-append (matches f) s.audit_log (row ∷ []))
      ∙ length-append (select (matches f) s.audit_log) (select (matches f) (row ∷ [])) in
    let last : length (select (matches f) (row ∷ [])) ≡ (if matches f row then 1 else 0) =
      ground arith in
    omega (arith, old, new, parts, last)
