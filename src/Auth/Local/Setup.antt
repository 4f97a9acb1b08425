-- ===== src/Auth/Local/Setup.antt =====
-- The first-run setup makes one admin, once.
use agentic_hive.Prelude.{
  ◌==◌, ℕ, String, ◌≡◌, refl, ap, ◌∙◌, ◌≢◌, ◌⊎◌, inl, inr, true, false, ◌||◌, Option, none, some,
  List, [], ◌∷◌, ◌++◌, arith, Result, length, Bool-cases,
}
use agentic_hive.Http.{is_empty, Request, Response, failed}
use agentic_hive.Store.{User, Store, StoreError, role_admin, count_users}
use agentic_hive.Store.Users.{untimed, user_count, local_user}
use agentic_hive.Store.Users.Laws.{Inserts, create_user-Inserts}
use agentic_hive.Auth.Local.{
  AuthEnv, Credentials, LoggedIn, start_session, handle_setup, setup_needed, set_up, with_hash,
  created, with_token, with_csrf,
}

has_users : (users : List User) → users ≢ [] → (length users == 0) ≡ false
has_users [] h = absurd (h refl)
has_users (u ∷ users) h = ground arith

module _ (env : AuthEnv) (r : Request) where
  -- Once a user exists, setup is refused and changes nothing, whatever the body holds; so it is where
  -- the engine does not tell how many there are.
  pub handle_setup-refused :
      (body : Option Credentials) (s : Store)
      → ((s.users ≢ []) ⊎ (env.db count_users ≡ true))
      → handle_setup env r body s ≡ (failed 403 "setup already completed", s)
  unfolding handle_setup setup_needed user_count
  handle_setup-refused body s (inl some_user) =
      let counted = has_users s.users some_user in ground (arith, counted)
  handle_setup-refused body s (inr down) = ground arith

  start_session-store : (u : User) (s : Store) → (start_session env r u (λ t. t) s).1 ≡ s
  unfolding start_session with_token with_csrf
  start_session-store u s = ground arith

  -- What setup may leave behind: the store as it was, or one more user, an admin.
  abbrev pub AddsAdmin : Store → Response LoggedIn × Store → Type 0
  AddsAdmin s (resp, s') =
      ((resp.status ≢ 200) × (s' ≡ s))
      ⊎ ((u : User) × (u.role ≡ role_admin) × (s' ≡ record s { users = s.users ++ u ∷ [] }))

  created-AddsAdmin :
      (u : User) (s : Store) (result : Result StoreError User × Store)
      → u.role ≡ role_admin
      → Inserts env.db u s result
      → AddsAdmin s (created env r result)
  unfolding created
  created-AddsAdmin u s result admin (inl (e, h)) =
      rw (h, created) (inl (λ (b : ◌≡◌ {A = ℕ} 500 200). omega arith, refl))
  created-AddsAdmin u s result admin (inr h) =
      rw (h, created) (inr (u, admin, start_session-store (untimed u) _))

  with_hash-AddsAdmin :
      (req : Credentials) (hash : Option String) (s : Store)
      → AddsAdmin s (with_hash env r req hash s)
  unfolding with_hash
  with_hash-AddsAdmin req none s = inl (λ (b : ◌≡◌ {A = ℕ} 500 200). omega arith, refl)
  with_hash-AddsAdmin req (some hash) s =
      created-AddsAdmin (local_user env.new_id req.username hash role_admin env.now) s _ refl
        (create_user-Inserts env.db env.new_id req.username hash role_admin env.now s)

  set_up-AddsAdmin : (body : Option Credentials) (s : Store) → AddsAdmin s (set_up env r body s)
  unfolding set_up
  set_up-AddsAdmin none s = inl (λ (b : ◌≡◌ {A = ℕ} 400 200). omega arith, refl)
  set_up-AddsAdmin (some req) s =
      elim (Bool-cases (is_empty req.username || is_empty req.password)) [
        | inl empty ↦ rw empty (inl (λ (b : ◌≡◌ {A = ℕ} 400 200). omega arith, refl))
        | inr full ↦ rw full (with_hash-AddsAdmin req (env.hash_password req.password) s)
      ]

  handle_setup-AddsAdmin :
      (body : Option Credentials) (s : Store) → AddsAdmin s (handle_setup env r body s)
  unfolding handle_setup
  handle_setup-AddsAdmin body s = elim (Bool-cases (setup_needed env r s)) [
    | inl needed ↦ rw needed (set_up-AddsAdmin body s)
    | inr done ↦ rw done (inl (λ (b : ◌≡◌ {A = ℕ} 403 200). omega arith, refl))
  ]

needed-empty :
    (env : AuthEnv) (r : Request) (s : Store) → setup_needed env r s ≡ true → s.users ≡ []
unfolding setup_needed user_count
needed-empty env r s h = counted s.users (ground arith)
  where
    counted : (users : List User) → length users ≡ 0 → users ≡ []
    counted [] e = refl
    counted (u ∷ users) e = absurd (omega arith)

setup_ok-needed :
    (env : AuthEnv) (r : Request) (body : Option Credentials) (s : Store)
    → (handle_setup env r body s).0.status ≡ 200
    → setup_needed env r s ≡ true
unfolding handle_setup
setup_ok-needed env r body s h = elim (Bool-cases (setup_needed env r s)) [
  | inl needed ↦ needed
  | inr done ↦ let bad = rw (done, handle_setup) at h in absurd (omega (arith, bad))
]

append-ne-nil : (users : List User) (u : User) → users ++ u ∷ [] ≢ []
append-ne-nil [] u h = cc
append-ne-nil (v ∷ users) u h = cc

-- Setup that is answered by 200 found no user and made one, an admin; a setup after it is refused,
-- whatever is asked and whatever the engine does, and changes nothing.
pub handle_setup_once :
    (env env' : AuthEnv) (r r' : Request) (body body' : Option Credentials) (s : Store)
    → (handle_setup env r body s).0.status ≡ 200
    → (u : User) × (u.role ≡ role_admin)
      × (s.users ≡ [])
      × ((handle_setup env r body s).1 ≡ record s { users = u ∷ [] })
      × (handle_setup env' r' body' (handle_setup env r body s).1
          ≡ (failed 403 "setup already completed", (handle_setup env r body s).1))
handle_setup_once env env' r r' body body' s h = elim (handle_setup-AddsAdmin env r body s) [
  | inl (bad, _) ↦ absurd (bad h)
  | inr (u, admin, grown) ↦
      let none_yet = needed-empty env r s (setup_ok-needed env r body s h) in
      let some_now : (handle_setup env r body s).1.users ≢ [] =
        rw grown (append-ne-nil s.users u) in
      (
        u,
        admin,
        none_yet,
        grown ∙ ap (λ (l : List User). record s { users = l ++ u ∷ [] }) none_yet,
        handle_setup-refused env' r' body' (handle_setup env r body s).1 (inl some_now),
      )
]
