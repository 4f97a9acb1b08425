-- ===== src/Store/Integrity.antt =====
-- The constraints of the schema, as an invariant that every operation of the package keeps.
use agentic_hive.Text.Numbers.{ℤ}
use text.Mathlib.Text.{◌==◌}
use agentic_hive.Prelude.{
  ℕ, ◌≡◌, ◌∙◌, Bool, true, false, not, List, [], ◌∷◌, ◌++◌, map, String, arith, select, any, All,
  Option, none, some, insert, delete, HasDistinctKeys, insert-HasDistinctKeys,
  delete-HasDistinctKeys,
}
use agentic_hive.Store.{User, Server, SessionTemplate, Store, Engine, HostKey}
use agentic_hive.Store.Unique.{Unique, Unique-append, Unique-select, Unique-map}
use agentic_hive.Store.Users
use agentic_hive.Store.Users.{create_user, delete_user_by_id, upsert_oidc_user}
use agentic_hive.Store.Servers
use agentic_hive.Store.Servers.{
  create_server, delete_server_by_id, update_status, with_status, belongs,
}
use agentic_hive.Store.HostKeys.{store_host_key, clear_host_key}
use agentic_hive.Store.Consistency.{
  All-keys, insert-keys, delete-keys, has_server, template_ok, IsConsistent, servers_clash_comm,
  has_server-append, has_server-status, has_server-select, template_ok-step,
}

-- A table of servers that lost none of its identifiers, and whose rows clash with no other.
grown_servers :
    (s : Store) (servers : List Server)
    → IsConsistent s
    → Unique Servers.clashes servers
    → ((id : String) → has_server id s.servers ≡ true → has_server id servers ≡ true)
    → IsConsistent (record s { servers = servers })
grown_servers s servers c unique keeps = record {
  users_unique = c.users_unique;
  servers_unique = unique;
  ssh_keys_unique = c.ssh_keys_unique;
  host_keys_unique = c.host_keys_unique;
  ssh_keys_owned =
      All-keys (λ k. has_server k s.servers) (λ k. has_server k servers) s.ssh_keys keeps
        c.ssh_keys_owned;
  host_keys_owned =
      All-keys (λ k. has_server k s.servers) (λ k. has_server k servers) s.host_keys keeps
        c.host_keys_owned;
  templates_owned = template_ok-step s.servers servers s.session_templates keeps c.templates_owned;
}

replaced_users :
    (s : Store) (users : List User)
    → IsConsistent s
    → Unique Users.clashes users
    → IsConsistent (record s { users = users })
replaced_users s users c unique = record {
  users_unique = unique;
  servers_unique = c.servers_unique;
  ssh_keys_unique = c.ssh_keys_unique;
  host_keys_unique = c.host_keys_unique;
  ssh_keys_owned = c.ssh_keys_owned;
  host_keys_owned = c.host_keys_owned;
  templates_owned = c.templates_owned;
}

replaced_host_keys :
    (s : Store) (host_keys : List (String × HostKey))
    → IsConsistent s
    → HasDistinctKeys host_keys
    → All (λ e. has_server e.0 s.servers ≡ true) host_keys
    → IsConsistent (record s { host_keys = host_keys })
replaced_host_keys s host_keys c unique owned = record {
  users_unique = c.users_unique;
  servers_unique = c.servers_unique;
  ssh_keys_unique = c.ssh_keys_unique;
  host_keys_unique = unique;
  ssh_keys_owned = c.ssh_keys_owned;
  host_keys_owned = owned;
  templates_owned = c.templates_owned;
}

without_server :
    (s : Store) (id : String)
    → IsConsistent s
    → IsConsistent (record s {
      servers = select (λ srv. not (srv.id == id)) s.servers;
      ssh_keys = delete id s.ssh_keys;
      host_keys = delete id s.host_keys;
      session_templates = select (λ t. not (belongs id t)) s.session_templates;
    })
without_server s id c = record {
  users_unique = c.users_unique;
  servers_unique =
      Unique-select Servers.clashes (λ srv. not (srv.id == id)) s.servers c.servers_unique;
  ssh_keys_unique = delete-HasDistinctKeys id s.ssh_keys c.ssh_keys_unique;
  host_keys_unique = delete-HasDistinctKeys id s.host_keys c.host_keys_unique;
  ssh_keys_owned =
      delete-keys (λ k. has_server k s.servers) (λ k. has_server k left) id s.ssh_keys keeps
        c.ssh_keys_owned;
  host_keys_owned =
      delete-keys (λ k. has_server k s.servers) (λ k. has_server k left) id s.host_keys keeps
        c.host_keys_owned;
  templates_owned = templates-without s.session_templates c.templates_owned;
}
  where
    left : List Server
    left = select (λ srv. not (srv.id == id)) s.servers

    keeps :
        (j : String) → (j == id) ≡ false → has_server j s.servers ≡ true → has_server j left ≡ true
    keeps j ne h = has_server-select j id s.servers ne h

    one :
        (o : Option String)
        → (elim o [ none ↦ true | some j ↦ has_server j s.servers ]) ≡ true
        → (elim o [ none ↦ false | some j ↦ j == id ]) ≡ false
        → (elim o [ none ↦ true | some j ↦ has_server j left ]) ≡ true
    one none e n = e
    one (some j) e n = keeps j n e

    templates-without :
        (ts : List SessionTemplate)
        → All (λ t. template_ok s.servers t ≡ true) ts
        → All (λ t. template_ok left t ≡ true) (select (λ t. not (belongs id t)) ts)
    templates-without [] h = tt
    templates-without (t ∷ ts) (a, h) = ground (arith, one t.server_id a, templates-without ts h)

insert_row-IsConsistent :
    (fails : Bool) (srv : Server) (s : Store)
    → IsConsistent s
    → IsConsistent (Servers.insert_row fails srv s).1
unfolding Servers.insert_row
insert_row-IsConsistent fails srv s c = ground (
  arith,
  λ (free : any (Servers.clashes srv) s.servers ≡ false).
      grown_servers s (s.servers ++ srv ∷ []) c
        (Unique-append Servers.clashes srv s.servers servers_clash_comm free c.servers_unique)
        (λ j h. has_server-append j s.servers srv h),
)

module _ (db : Engine) where
  -- Creating a server keeps the tables consistent, whether the row is written, refused by a unique
  -- column or refused by the engine.
  pub create_server-IsConsistent :
      (id name host : String) (port : ℤ) (ssh_user owner_id key_source vault_key_path : String)
      (now : ℕ) (s : Store)
      → IsConsistent s
      → IsConsistent
          (create_server db id name host port ssh_user owner_id key_source vault_key_path now s).1
  unfolding create_server
  create_server-IsConsistent id name host port ssh_user owner_id key_source vault_key_path now s c =
      search (insert_row-IsConsistent, c)

  pub update_status-IsConsistent :
      (id status : String) (now : ℕ) (s : Store)
      → IsConsistent s
      → IsConsistent (update_status db id status now s).1
  unfolding update_status
  update_status-IsConsistent id status now s c = ground (
    arith,
    grown_servers s (map (with_status id status now) s.servers) c
        (Unique-map Servers.clashes (with_status id status now) s.servers (λ x y. ground arith)
          c.servers_unique)
        (λ j h. has_server-status j id status now s.servers ∙ h),
  )

  -- Deleting a server keeps the tables consistent: keys and names stay unique, and no SSH key, host
  -- key or template is left that refers to a server that is gone.
  pub delete_server_by_id-IsConsistent :
      (id : String) (s : Store) → IsConsistent s → IsConsistent (delete_server_by_id db id s).1
  unfolding delete_server_by_id
  delete_server_by_id-IsConsistent id s c = ground (arith, without_server s id c)

  pub store_host_key-IsConsistent :
      (id : String) (key : List ℕ) (fingerprint : String) (s : Store)
      → IsConsistent s
      → IsConsistent (store_host_key db id key fingerprint s).1
  unfolding store_host_key
  store_host_key-IsConsistent id key fingerprint s c =
      let row : HostKey = record { host_key = key; fingerprint = fingerprint } in
      ground (
        arith,
        λ (there : has_server id s.servers ≡ true).
            replaced_host_keys s (insert id row s.host_keys) c
              (insert-HasDistinctKeys id row s.host_keys c.host_keys_unique)
              (insert-keys (λ k. has_server k s.servers) id row s.host_keys there
                c.host_keys_owned),
      )

  pub clear_host_key-IsConsistent :
      (id : String) (s : Store) → IsConsistent s → IsConsistent (clear_host_key db id s).1
  unfolding clear_host_key
  clear_host_key-IsConsistent id s c = ground (
    arith,
    replaced_host_keys s (delete id s.host_keys) c
        (delete-HasDistinctKeys id s.host_keys c.host_keys_unique)
        (delete-keys (λ k. has_server k s.servers) (λ k. has_server k s.servers) id s.host_keys
          (λ j ne h. h) c.host_keys_owned),
  )
