-- ===== src/Store/Users/Subjects.antt =====
-- Signing in by OIDC: which user the subject stands for.
use agentic_hive.Prelude.{
  ℕ, ◌≡◌, refl, ap, subst, true, List, [], ◌∷◌, String, arith, select, Option, none, some, Result,
  ok, err, eq_iff, Bool-cases, inl, inr,
}
use agentic_hive.Store.{User, Store, Engine, StoreError}
use agentic_hive.Store.Users.{
  upsert_oidc_user, update_oidc, upsert_found, insert_row, first, has_subject, subject_eq,
}

first-has_subject :
    (subject : String) (users : List User) (u : User)
    → first (select (has_subject subject) users) ≡ ok u
    → u.oidc_subject ≡ some subject
unfolding first
first-has_subject subject [] u h = cc
first-has_subject subject (v ∷ users) u h = elim (Bool-cases (has_subject subject v)) [
  | inl hit ↦
      let same : v ≡ u = ground (arith, rw (hit, first) at h) in
      subst (λ (x : User). x.oidc_subject ≡ some subject) same (of_subject_eq v.oidc_subject hit)
  | inr miss ↦ first-has_subject subject users u (ground arith)
]
  where
    of_subject_eq : (o : Option String) → subject_eq o (some subject) ≡ true → o ≡ some subject
    of_subject_eq none e = cc
    of_subject_eq (some t) e = ap some ((eq_iff t subject).0 e)

-- The user that a sign-in returns has the subject, and the name and the role of this sign-in.
abbrev pub IsUserOf : (subject username role : String) → User → Type 0
IsUserOf subject username role u =
    (u.oidc_subject ≡ some subject) × (u.username ≡ username) × (u.role ≡ role)

module _ (db : Engine) (id subject username role : String) (now : ℕ) where
  upsert_found-IsUserOf :
      (found : Result StoreError User) (s : Store) (u : User)
      → ((v : User) → found ≡ ok v → v.oidc_subject ≡ some subject)
      → (upsert_found db found id subject username role now s).0 ≡ ok u
      → IsUserOf subject username role u
  unfolding upsert_found
  upsert_found-IsUserOf (ok v) s u known h =
      let subject_of = known v refl in unfold update_oidc in ground (arith, subject_of)
  upsert_found-IsUserOf (err e) s u known h = unfold insert_row in ground arith

  -- A user that `upsert_oidc_user` gives back has the subject, the name and the role that were
  -- passed, whether the row was there before or not.
  pub upsert_oidc_user-IsUserOf :
      (s : Store) (u : User)
      → (upsert_oidc_user db id subject username role now s).0 ≡ ok u
      → IsUserOf subject username role u
  unfolding upsert_oidc_user
  upsert_oidc_user-IsUserOf s u h =
      upsert_found-IsUserOf (first (select (has_subject subject) s.users)) s u
        (first-has_subject subject s.users) (ground arith)
