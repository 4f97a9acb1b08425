-- ===== src/Store/Templates/Seeding.antt =====
-- Seeding is idempotent and adds only what is missing.
use text.Mathlib.Text.{◌==◌}
use agentic_hive.Prelude.{
  ℕ, String, ◌≡◌, refl, true, false, ◌&&◌, List, [], ◌∷◌, ◌++◌, arith, All, ok, str_eq_refl,
}
use agentic_hive.Store.{SessionTemplate, Store, Engine, working, count_templates}
use agentic_hive.Store.Unique.{any-append}
use agentic_hive.Store.Templates.{
  DefaultTemplate, default_templates, has_global, is_global, seeded, seed_from, seed_templates,
}

-- Every template of a list stands in the table as a global one.
abbrev pub HasAll : List DefaultTemplate → Store → Type 0
HasAll ts s = All (λ t. has_global t.name s.session_templates ≡ true) ts

has_global-append :
    (name : String) (xs ys : List SessionTemplate)
    → has_global name xs ≡ true
    → has_global name (xs ++ ys) ≡ true
has_global-append name xs ys h =
    ground (arith, any-append (λ (t : SessionTemplate). t.name == name && is_global t) xs ys)

module _ (db : Engine) (new_id : String → String) (now : ℕ) where
  seed_from-keeps :
      (ts : List DefaultTemplate) (name : String) (s : Store)
      → has_global name s.session_templates ≡ true
      → has_global name (seed_from db new_id now ts s).1.session_templates ≡ true
  unfolding seed_from
  seed_from-keeps [] name s h = h
  seed_from-keeps (t ∷ ts) name s h =
      let s' : Store = record s {
        session_templates = s.session_templates ++ seeded db new_id now t ∷ [];
      } in
      ground (
        arith,
        seed_from-keeps ts name s h,
        seed_from-keeps ts name s'
            (has_global-append name s.session_templates (seeded db new_id now t ∷ []) h),
      )

  seed_from-HasAll :
      (ts : List DefaultTemplate) (s : Store)
      → (seed_from db new_id now ts s).0 ≡ ok tt
      → HasAll ts (seed_from db new_id now ts s).1
  unfolding seed_from
  seed_from-HasAll [] s h = tt
  seed_from-HasAll (t ∷ ts) s h =
      let s' : Store = record s {
        session_templates = s.session_templates ++ seeded db new_id now t ∷ [];
      } in
      let added : has_global t.name s'.session_templates ≡ true = ground (
        arith,
        str_eq_refl t.name,
        any-append (λ (x : SessionTemplate). x.name == t.name && is_global x) s.session_templates
            (seeded db new_id now t ∷ []),
      ) in
      ground (
        arith,
        seed_from-keeps ts t.name s,
        seed_from-keeps ts t.name s' added,
        seed_from-HasAll ts s,
        seed_from-HasAll ts s',
      )

  seed_from-done :
      (ts : List DefaultTemplate) (s : Store)
      → All (λ t. db (count_templates t.name) ≡ false) ts
      → HasAll ts s
      → seed_from db new_id now ts s ≡ (ok tt, s)
  unfolding seed_from
  seed_from-done [] s up h = refl
  seed_from-done (t ∷ ts) s (p, up) (q, h) = ground (arith, seed_from-done ts s up h)

-- Seeding that went through leaves every default template in the table, and seeding again, where
-- the engine works, changes nothing.
pub seed_templates_again :
    (db : Engine) (new_id new_id' : String → String) (now later : ℕ) (s : Store)
    → (seed_templates db new_id now s).0 ≡ ok tt
    → HasAll default_templates (seed_templates db new_id now s).1
      × (seed_templates working new_id' later (seed_templates db new_id now s).1
          ≡ (ok tt, (seed_templates db new_id now s).1))
unfolding seed_templates
seed_templates_again db new_id new_id' now later s h =
    let all = seed_from-HasAll db new_id now default_templates s h in
    (
      all,
      seed_from-done working new_id' later default_templates
          (seed_from db new_id now default_templates s).1 (refl, (refl, (refl, (refl, (refl, tt)))))
          all,
    )
