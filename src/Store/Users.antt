-- ===== src/Store/Users.antt =====
-- internal/store/users.go
pub mod Laws
pub mod Subjects
use text.Mathlib.Text.{◌==◌}
use agentic_hive.Prelude.{
  ◌||◌, ℕ, String, Bool, true, false, not, ◌&&◌, Option, none, some, List, [], ◌∷◌, ◌++◌, map, leb,
  if◌then◌else◌, length, select, any, Result, ok, err,
}
use agentic_hive.Store.{
  User, Store, Engine, StoreError, not_found, constraint, engine_failure, insert_user, select_user,
  count_users, select_users, delete_user, select_oidc_user, update_oidc_user, insert_oidc_user,
}
use agentic_hive.Store.Ordering.{order_by}

abbrev pub subject_eq : Option String → Option String → Bool
subject_eq none t = false
subject_eq (some s) none = false
subject_eq (some s) (some t) = s == t

-- `id` is the primary key, `username` and `oidc_subject` are UNIQUE; NULL subjects do not collide.
abbrev pub clashes : User → User → Bool
clashes u v = u.id == v.id || u.username == v.username || subject_eq u.oidc_subject v.oidc_subject

first : List User → Result StoreError User
first [] = err not_found
first (u ∷ us) = ok u

-- The value that is handed back for a new row has no times.
abbrev pub untimed : User → User
untimed u = record u { created_at = 0; updated_at = 0 }

-- A statement that the engine may refuse; a refused or failed statement changes nothing.
insert_row : Bool → User → Store → Result StoreError User × Store
insert_row fails u s =
    if fails
    then (err engine_failure, s)
    else if any (clashes u) s.users
    then (err constraint, s)
    else (ok (untimed u), record s { users = s.users ++ u ∷ [] })

abbrev pub has_subject : String → User → Bool
has_subject subject u = subject_eq u.oidc_subject (some subject)

-- `UPDATE users SET username, role, updated_at WHERE id`.
abbrev pub update_row : String → String → String → ℕ → User → User
update_row id username role now u =
    if u.id == id then record u { username = username; role = role; updated_at = now } else u

-- The new name may be taken by another row.
abbrev name_taken : String → String → List User → Bool
name_taken id username users = any (λ u. not (u.id == id) && u.username == username) users

abbrev pub local_user : (id username password_hash role : String) → ℕ → User
local_user id username password_hash role now = record {
  id = id;
  username = username;
  password_hash = password_hash;
  role = role;
  oidc_subject = none;
  created_at = now;
  updated_at = now;
}

abbrev pub oidc_user : (id subject username role : String) → ℕ → User
oidc_user id subject username role now = record {
  id = id;
  username = username;
  password_hash = "";
  role = role;
  oidc_subject = some subject;
  created_at = now;
  updated_at = now;
}

module _ (db : Engine) where
  unfoldable pub create_user :
      (id username password_hash role : String) (now : ℕ) → Store → Result StoreError User × Store
  unfolding insert_row
  create_user id username password_hash role now s =
      insert_row (db insert_user) (local_user id username password_hash role now) s

  unfoldable pub get_user_by_username : String → Store → Result StoreError User
  unfolding first
  get_user_by_username username s =
      if db select_user
      then err engine_failure
      else first (select (λ u. u.username == username) s.users)

  unfoldable pub get_user_by_id : String → Store → Result StoreError User
  unfolding first
  get_user_by_id id s =
      if db select_user then err engine_failure else first (select (λ u. u.id == id) s.users)

  unfoldable pub user_count : Store → Result StoreError ℕ
  user_count s = if db count_users then err engine_failure else ok (length s.users)

  unfoldable pub list_users : Store → Result StoreError (List User)
  list_users s =
      if db select_users
      then err engine_failure
      else ok (order_by (λ u v. leb u.created_at v.created_at) s.users)

  -- No row affected is an error of its own.
  unfoldable pub delete_user_by_id : String → Store → Result StoreError (Unit {0}) × Store
  delete_user_by_id id s =
      if db delete_user
      then (err engine_failure, s)
      else if any (λ u. u.id == id) s.users
      then (ok tt, record s { users = select (λ u. not (u.id == id)) s.users })
      else (err not_found, s)

  update_oidc : User → String → String → ℕ → Store → Result StoreError User × Store
  update_oidc u username role now s =
      if db update_oidc_user
      then (err engine_failure, s)
      else if name_taken u.id username s.users
      then (err constraint, s)
      else (
        ok (record u { username = username; role = role }),
        record s { users = map (update_row u.id username role now) s.users },
      )

  upsert_found :
      Result StoreError User
      → (id subject username role : String) (now : ℕ) → Store
      → Result StoreError User × Store
  unfolding update_oidc insert_row
  upsert_found (ok u) id subject username role now s = update_oidc u username role now s
  upsert_found (err e) id subject username role now s =
      insert_row (db insert_oidc_user) (oidc_user id subject username role now) s

  -- `id` is the identifier that a new user gets.
  unfoldable pub upsert_oidc_user :
      (id subject username role : String) (now : ℕ) → Store → Result StoreError User × Store
  unfolding upsert_found first
  upsert_oidc_user id subject username role now s =
      if db select_oidc_user
      then (err engine_failure, s)
      else upsert_found (first (select (has_subject subject) s.users)) id subject username role now
          s
