-- ===== src/Store/Consistency.antt =====
-- What the tables promise each other, and what one change of a table leaves of it.
use text.Mathlib.Text.{◌==◌}
use agentic_hive.Prelude.{
  ℕ, ◌≡◌, Bool, true, false, not, List, [], ◌∷◌, ◌++◌, map, String, arith, select, any, All, Option,
  none, some, insert, delete, eq_iff, HasDistinctKeys,
}
use agentic_hive.Store.{Server, SessionTemplate, Store}
use agentic_hive.Store.Unique.{any-append, any-map, Unique}
use agentic_hive.Store.Users
use agentic_hive.Store.Users.{create_user, delete_user_by_id, upsert_oidc_user}
use agentic_hive.Store.Servers
use agentic_hive.Store.Servers.{
  create_server, delete_server_by_id, update_status, with_status, belongs,
}

abbrev pub has_server : String → List Server → Bool
has_server id servers = any (λ srv. srv.id == id) servers

abbrev pub template_ok : List Server → SessionTemplate → Bool
template_ok servers t = elim t.server_id [ none ↦ true | some id ↦ has_server id servers ]

-- Primary keys and UNIQUE columns hold no value twice, and a row that refers to a server refers to
-- one that is there.
pub record IsConsistent (s : Store) : Type 0 where
  pub users_unique : Unique Users.clashes s.users
  pub servers_unique : Unique Servers.clashes s.servers
  pub ssh_keys_unique : HasDistinctKeys s.ssh_keys
  pub host_keys_unique : HasDistinctKeys s.host_keys
  pub ssh_keys_owned : All (λ e. has_server e.0 s.servers ≡ true) s.ssh_keys
  pub host_keys_owned : All (λ e. has_server e.0 s.servers ≡ true) s.host_keys
  pub templates_owned : All (λ t. template_ok s.servers t ≡ true) s.session_templates

pub servers_clash_comm : (u v : Server) → Servers.clashes u v ≡ Servers.clashes v u
servers_clash_comm u v =
    ground (arith, eq_iff u.id v.id, eq_iff v.id u.id, eq_iff u.name v.name, eq_iff v.name u.name)

module _ {ℓ} {V : Type ℓ} where
  -- A key that the rows refer to stays when servers are added or changed in other columns.
  pub All-keys :
      (p q : String → Bool) (m : List (String × V))
      → ((k : String) → p k ≡ true → q k ≡ true)
      → All (λ e. p e.0 ≡ true) m
      → All (λ e. q e.0 ≡ true) m
  All-keys p q [] step h = h
  All-keys p q ((k, v) ∷ m) step (a, h) = (step k a, All-keys p q m step h)

  pub insert-keys :
      (p : String → Bool) (k : String) (v : V) (m : List (String × V))
      → p k ≡ true
      → All (λ e. p e.0 ≡ true) m
      → All (λ e. p e.0 ≡ true) (insert k v m)
  unfolding insert
  insert-keys p k v [] a h = (a, tt)
  insert-keys p k v ((j, w) ∷ m) a (b, h) = ground (arith, insert-keys p k v m a h)

  -- What is left after the rows of a key are deleted refers to other keys.
  pub delete-keys :
      (p q : String → Bool) (k : String) (m : List (String × V))
      → ((j : String) → (j == k) ≡ false → p j ≡ true → q j ≡ true)
      → All (λ e. p e.0 ≡ true) m
      → All (λ e. q e.0 ≡ true) (delete k m)
  unfolding delete
  delete-keys p q k [] step h = tt
  delete-keys p q k ((j, w) ∷ m) step (a, h) = ground (arith, delete-keys p q k m step h, step j)

pub has_server-append :
    (id : String) (servers : List Server) (srv : Server)
    → has_server id servers ≡ true
    → has_server id (servers ++ srv ∷ []) ≡ true
has_server-append id servers srv h =
    ground (arith, any-append (λ (x : Server). x.id == id) servers (srv ∷ []))

pub has_server-status :
    (id target status : String) (now : ℕ) (servers : List Server)
    → has_server id (map (with_status target status now) servers) ≡ has_server id servers
has_server-status id target status now servers =
    any-map (λ (x : Server). x.id == id) (λ (x : Server). x.id == id)
      (with_status target status now) servers (λ x. ground arith)

pub has_server-select :
    (id gone : String) (servers : List Server)
    → (id == gone) ≡ false
    → has_server id servers ≡ true
    → has_server id (select (λ srv. not (srv.id == gone)) servers) ≡ true
has_server-select id gone [] ne h = h
has_server-select id gone (srv ∷ servers) ne h = ground (
  arith,
  eq_iff srv.id id,
  eq_iff srv.id gone,
  eq_iff id gone,
  has_server-select id gone servers ne,
)

pub template_ok-step :
    (xs ys : List Server) (ts : List SessionTemplate)
    → ((id : String) → has_server id xs ≡ true → has_server id ys ≡ true)
    → All (λ t. template_ok xs t ≡ true) ts
    → All (λ t. template_ok ys t ≡ true) ts
template_ok-step xs ys [] step h = h
template_ok-step xs ys (t ∷ ts) step (a, h) = (one t.server_id a, template_ok-step xs ys ts step h)
  where
    one :
        (o : Option String)
        → (elim o [ none ↦ true | some id ↦ has_server id xs ]) ≡ true
        → (elim o [ none ↦ true | some id ↦ has_server id ys ]) ≡ true
    one none e = e
    one (some id) e = step id e
