-- ===== src/Pool/HostKeys.antt =====
-- Trust on first use: which host keys a connection accepts.
use text.Mathlib.Text.{◌==◌}
use agentic_hive.Prelude.{
  ℕ, String, ◌≡◌, refl, ◌≢◌, inl, inr, Bool, true, false, Option, none, some, List, [], ◌∷◌, arith,
  lookup, lookup-insert_self, Result, ok, err, Bool-cases, any, ==_iff, map,
}
use agentic_hive.Store.{
  Server, HostKey, Store, StoreError, status_key_mismatch, select_host_key, replace_host_key,
  update_server_status,
}
use agentic_hive.Keystore.{KeyError}
use agentic_hive.Store.Servers.{get_server, update_status, with_status}
use agentic_hive.Store.HostKeys.{store_host_key, get_host_key}
use agentic_hive.Pool.{
  PoolEnv, Attempt, same_key, host_key_callback, decide_key, first_seen, known, connect,
  with_server, with_key, dial, authenticate, key_of,
}

same_key_iff_to : (a b : List ℕ) → same_key a b ≡ true → a ≡ b
same_key_iff_to [] [] h = refl
same_key_iff_to [] (b ∷ bs) h = cc
same_key_iff_to (a ∷ as') [] h = cc
same_key_iff_to (a ∷ as') (b ∷ bs) h = ground (arith, same_key_iff_to as' bs, ==_iff a b)

-- The table holds a key for the server.
abbrev pub Remembers : String → List ℕ → Store → Type 0
Remembers id key s = (row : HostKey) × (lookup id s.host_keys ≡ some row) × (row.host_key ≡ key)

module _ (env : PoolEnv) (id : String) where
  stored-Remembers :
      (presented : List ℕ) (s : Store)
      → (first_seen env (store_host_key env.db id presented (env.fingerprint presented) s)).0 ≡ true
      → Remembers id presented
          (first_seen env (store_host_key env.db id presented (env.fingerprint presented) s)).1
  unfolding first_seen store_host_key
  stored-Remembers presented s h =
      let row : HostKey = record {
        host_key = presented;
        fingerprint = env.fingerprint presented;
      } in
      (row, ground (arith, lookup-insert_self id row s.host_keys), refl)

  known-Remembers :
      (presented : List ℕ) (row : HostKey) (s : Store)
      → lookup id s.host_keys ≡ some row
      → (known env id presented row s).0 ≡ true
      → Remembers id presented (known env id presented row s).1
  unfolding known
  known-Remembers presented row s stored h = elim (Bool-cases (same_key row.host_key presented)) [
    | inl same ↦ (row, rw same stored, same_key_iff_to row.host_key presented same)
    | inr differs ↦ let bad = rw (differs, known) at h in cc (bad)
  ]

  -- An accepted key is the one that the table then holds for the server.
  pub host_key_callback-Remembers :
      (presented : List ℕ) (s : Store)
      → (host_key_callback env id presented s).0 ≡ true
      → Remembers id presented (host_key_callback env id presented s).1
  unfolding host_key_callback
  host_key_callback-Remembers presented s h = read (get_host_key env.db id s) refl h
    where
      stored_row :
          (row : HostKey) → get_host_key env.db id s ≡ ok row → lookup id s.host_keys ≡ some row
      stored_row row e = unfold get_host_key in ground arith

      read :
          (found : Result StoreError HostKey)
          → get_host_key env.db id s ≡ found
          → (decide_key env id presented found s).0 ≡ true
          → Remembers id presented (decide_key env id presented found s).1
      read (err e) g k = stored-Remembers presented s k
      read (ok row) g k = known-Remembers presented row s (stored_row row g) k

  -- Where the engine answers, a stored key that differs from the presented one makes the callback
  -- refuse: the table of host keys stays as it is, and the server is marked.
  pub host_key_callback-mismatch :
      (presented : List ℕ) (row : HostKey) (s : Store)
      → env.db select_host_key ≡ false
      → env.db update_server_status ≡ false
      → lookup id s.host_keys ≡ some row
      → row.host_key ≢ presented
      → (host_key_callback env id presented s ≡ (
        false,
        record s { servers = map (with_status id status_key_mismatch env.now) s.servers },
      ))
  unfolding host_key_callback get_host_key update_status
  host_key_callback-mismatch presented row s up up' stored differs =
      elim (Bool-cases (same_key row.host_key presented)) [
        | inl same ↦ absurd (differs (same_key_iff_to row.host_key presented same))
        | inr other ↦ ground arith
      ]

  -- Where the engine fails to read the table of host keys but writes it, any key is accepted for a
  -- server of the table, and written over the stored one.
  pub host_key_callback-unreadable :
      (presented : List ℕ) (s : Store)
      → env.db select_host_key ≡ true
      → env.db replace_host_key ≡ false
      → any (λ srv. srv.id == id) s.servers ≡ true
      → ((host_key_callback env id presented s).0 ≡ true)
        × Remembers id presented (host_key_callback env id presented s).1
  unfolding host_key_callback get_host_key store_host_key
  host_key_callback-unreadable presented s down up there =
      let row : HostKey = record {
        host_key = presented;
        fingerprint = env.fingerprint presented;
      } in
      (ground arith, (row, ground (arith, lookup-insert_self id row s.host_keys), refl))

  authenticate-Remembers :
      (presented : List ℕ) (client : Option ℕ) (seen : Bool × Store) (c : ℕ)
      → (seen.0 ≡ true → Remembers id presented seen.1)
      → (authenticate env client seen).0 ≡ ok c
      → Remembers id presented (authenticate env client seen).1
  unfolding authenticate
  authenticate-Remembers presented client (false, s) c h e = cc
  authenticate-Remembers presented none (true, s) c h e = cc
  authenticate-Remembers presented (some d) (true, s) c h e = h refl

  dial-Remembers :
      (a : Attempt) (presented : Option (List ℕ)) (s : Store) (c : ℕ)
      → (dial env id a presented s).0 ≡ ok c
      → (key : List ℕ) × (presented ≡ some key) × Remembers id key (dial env id a presented s).1
  unfolding dial
  dial-Remembers a none s c e = cc
  dial-Remembers a (some key) s c e = (
    key,
    refl,
    authenticate-Remembers key a.client (host_key_callback env id key s) c
        (host_key_callback-Remembers key s) e,
  )

  with_key-Remembers :
      (a : Attempt) (got : Result KeyError (List ℕ)) (s : Store) (c : ℕ)
      → (with_key env id a got s).0 ≡ ok c
      → (key : List ℕ) × (a.presented ≡ some key) × Remembers id key (with_key env id a got s).1
  unfolding with_key
  with_key-Remembers a (err e) s c h = cc
  with_key-Remembers a (ok key) s c h = elim (Bool-cases (a.parses key)) [
    | inl good ↦ rw (good, with_key) (dial-Remembers a a.presented s c (rw (good, with_key) at h))
    | inr bad ↦ let wrong = rw (bad, with_key) at h in cc (wrong)
  ]

  with_server-Remembers :
      (a : Attempt) (got : Result StoreError Server) (s : Store) (c : ℕ)
      → (with_server env id a got s).0 ≡ ok c
      → (key : List ℕ) × (a.presented ≡ some key) × Remembers id key (with_server env id a got s).1
  unfolding with_server
  with_server-Remembers a (err e) s c h = cc
  with_server-Remembers a (ok srv) s c h = with_key-Remembers a (key_of env srv s) s c h

  -- After every connection that succeeds, the key that the host presented is the one in the table
  -- of host keys.
  pub connect-Remembers :
      (a : Attempt) (s : Store) (c : ℕ)
      → (connect env id a s).0 ≡ ok c
      → (key : List ℕ) × (a.presented ≡ some key) × Remembers id key (connect env id a s).1
  unfolding connect
  connect-Remembers a s c e = with_server-Remembers a (get_server env.db id "" s) s c e
