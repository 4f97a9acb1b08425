-- ===== src/Store/Keeping.antt =====
-- What one server keeps in the store while the operations run for other servers.
use text.Mathlib.Text.{◌==◌}
use agentic_hive.Prelude.{
  ℕ, ◌≡◌, refl, ◌∙◌, ◌≢◌, inl, inr, Bool, true, false, not, String, List, [], ◌∷◌, ◌++◌, arith, any,
  select, map, lookup, delete, lookup-insert_ne, lookup-delete, eq_iff, str_ne, Bool-cases,
}
use agentic_hive.Text.Numbers.{ℤ}
use agentic_hive.Store.{Server, Store, HostKey, Engine, AuditEntry}
use agentic_hive.Store.Audit.{log_audit}
use agentic_hive.Store.Servers.{
  clashes, insert_row, create_server, delete_server_by_id, update_status, with_status,
}
use agentic_hive.Store.HostKeys.{store_host_key, clear_host_key}

abbrev pub rows_of : String → Store → List Server
rows_of j s = select (λ srv. srv.id == j) s.servers

-- The server's row, its private key and its host key are those they were.
pub record Keeps (j : String) (s s' : Store) : Type 0 where
  pub same_rows : rows_of j s' ≡ rows_of j s
  pub same_key : lookup j s'.ssh_keys ≡ lookup j s.ssh_keys
  pub same_host_key : lookup j s'.host_keys ≡ lookup j s.host_keys

pub keeps : (j : String) (s : Store) → Keeps j s s
keeps j s = record { same_rows = refl; same_key = refl; same_host_key = refl }

pub Keeps-trans : (j : String) (a b c : Store) → Keeps j a b → Keeps j b c → Keeps j a c
Keeps-trans j a b c h k = record {
  same_rows = k.same_rows ∙ h.same_rows;
  same_key = k.same_key ∙ h.same_key;
  same_host_key = k.same_host_key ∙ h.same_host_key;
}

pub log_audit-Keeps :
    (db : Engine) (id : String) (now : ℕ) (e : AuditEntry) (j : String) (s : Store)
    → Keeps j s (log_audit db id now e s).1
unfolding log_audit
log_audit-Keeps db id now e j s = record {
  same_rows = ground arith;
  same_key = ground arith;
  same_host_key = ground arith;
}

-- A row that clashes with none has another identifier than every row that is there.
other_id :
    (srv : Server) (j : String) (rows : List Server)
    → any (λ x. x.id == j) rows ≡ true
    → any (clashes srv) rows ≡ false
    → (srv.id == j) ≡ false
other_id srv j [] there fresh = cc
other_id srv j (x ∷ rows) there fresh = elim (Bool-cases (x.id == j)) [
  | inl hit ↦ ground (arith, eq_iff x.id j, eq_iff srv.id x.id, eq_iff srv.id j)
  | inr miss ↦ other_id srv j rows (ground arith) (ground arith)
]

append_row :
    (srv : Server) (j : String) (rows : List Server)
    → (srv.id == j) ≡ false
    → select (λ x. x.id == j) (rows ++ srv ∷ []) ≡ select (λ x. x.id == j) rows
append_row srv j [] miss = ground arith
append_row srv j (x ∷ rows) miss = ground (arith, append_row srv j rows miss)

-- A server that is there keeps its row when another one is inserted.
insert_row-Keeps :
    (fails : Bool) (srv : Server) (j : String) (s : Store)
    → any (λ x. x.id == j) s.servers ≡ true
    → Keeps j s (insert_row fails srv s).1
unfolding insert_row
insert_row-Keeps true srv j s there = keeps j s
insert_row-Keeps false srv j s there = elim (Bool-cases (any (clashes srv) s.servers)) [
  | inl clash ↦ rw clash (keeps j s)
  | inr fresh ↦ rw fresh (record {
    same_rows = append_row srv j s.servers (other_id srv j s.servers there fresh);
    same_key = refl;
    same_host_key = refl;
  })
]

pub create_server-Keeps :
    (db : Engine) (id name host : String) (port : ℤ)
    (ssh_user owner_id key_source vault_key_path : String) (now : ℕ) (j : String) (s : Store)
    → any (λ x. x.id == j) s.servers ≡ true
    → Keeps j s
        (create_server db id name host port ssh_user owner_id key_source vault_key_path now s).1
unfolding create_server
create_server-Keeps db id name host port ssh_user owner_id key_source vault_key_path now j s there =
    insert_row-Keeps _ _ j s there

delete_rows :
    (id j : String) (rows : List Server)
    → id ≢ j
    → select (λ x. x.id == j) (select (λ x. not (x.id == id)) rows) ≡ select (λ x. x.id == j) rows
delete_rows id j [] h = refl
delete_rows id j (x ∷ rows) h =
    ground (arith, delete_rows id j rows h, eq_iff x.id id, eq_iff x.id j)

pub lookup-delete_ne {ℓ} :
    {V : Type ℓ}
    → (id j : String) (m : List (String × V)) → id ≢ j
    → lookup j (delete id m) ≡ lookup j m
lookup-delete_ne id j m h = ground (arith, lookup-delete id j m, str_ne id j h)

pub delete_server_by_id-Keeps :
    (db : Engine) (id j : String) (s : Store) → id ≢ j → Keeps j s (delete_server_by_id db id s).1
unfolding delete_server_by_id
delete_server_by_id-Keeps db id j s h = record {
  same_rows = ground (arith, delete_rows id j s.servers h);
  same_key = ground (arith, lookup-delete_ne id j s.ssh_keys h);
  same_host_key = ground (arith, lookup-delete_ne id j s.host_keys h);
}

status_rows :
    (id status : String) (now : ℕ) (j : String) (rows : List Server)
    → id ≢ j
    → select (λ x. x.id == j) (map (with_status id status now) rows) ≡ select (λ x. x.id == j) rows
status_rows id status now j [] h = refl
status_rows id status now j (x ∷ rows) h =
    ground (arith, status_rows id status now j rows h, eq_iff x.id id, eq_iff x.id j)

pub update_status-Keeps :
    (db : Engine) (id status : String) (now : ℕ) (j : String) (s : Store)
    → id ≢ j
    → Keeps j s (update_status db id status now s).1
unfolding update_status
update_status-Keeps db id status now j s h = record {
  same_rows = ground (arith, status_rows id status now j s.servers h);
  same_key = ground arith;
  same_host_key = ground arith;
}

pub store_host_key-Keeps :
    (db : Engine) (id : String) (key : List ℕ) (fingerprint : String) (j : String) (s : Store)
    → id ≢ j
    → Keeps j s (store_host_key db id key fingerprint s).1
unfolding store_host_key
store_host_key-Keeps db id key fingerprint j s h =
    let row : HostKey = record { host_key = key; fingerprint = fingerprint } in
    record {
      same_rows = ground arith;
      same_key = ground arith;
      same_host_key = ground (arith, lookup-insert_ne id j row s.host_keys h);
    }

pub clear_host_key-Keeps :
    (db : Engine) (id j : String) (s : Store) → id ≢ j → Keeps j s (clear_host_key db id s).1
unfolding clear_host_key
clear_host_key-Keeps db id j s h = record {
  same_rows = ground arith;
  same_key = ground arith;
  same_host_key = ground (arith, lookup-delete_ne id j s.host_keys h);
}
