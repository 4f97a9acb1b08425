-- ===== src/Pool/Pinning.antt =====
-- A host key that is stored stays, over any number of connections to its server.
use agentic_hive.Prelude.{
  ℕ, ◌≡◌, ◌∙◌, ◌⊎◌, refl, sym, ap, inl, inr, Bool, true, false, String, List, [], ◌∷◌, arith,
  Option, none, some, lookup, Result, ok, err, Bool-cases,
}
use agentic_hive.Store.{Server, Store, StoreError, HostKey, select_host_key}
use agentic_hive.Store.Servers.{get_server, update_status}
use agentic_hive.Store.HostKeys.{get_host_key}
use agentic_hive.Keystore.{KeyError}
use agentic_hive.Pool.{
  PoolEnv, Attempt, ConnectError, host_key_callback, decide_key, known, connect, with_server,
  with_key, dial, authenticate, key_of,
}
use agentic_hive.Pool.HostKeys.{Remembers, connect-Remembers}

module _ (env : PoolEnv) (id : String) where
  -- The store after connections one after the other.
  pub after : List Attempt → Store → Store
  after [] s = s
  after (a ∷ as') s = after as' (connect env id a s).1

  module _ (row : HostKey) (readable : env.db select_host_key ≡ false) where
    abbrev IsPinned : Store → Type 0
    IsPinned s = lookup id s.host_keys ≡ some row

    known-IsPinned :
        (presented : List ℕ) (found : HostKey) (s : Store)
        → IsPinned s
        → IsPinned (known env id presented found s).1
    unfolding known update_status
    known-IsPinned presented found s h = ground (arith, h)

    host_key_callback-IsPinned :
        (presented : List ℕ) (s : Store)
        → IsPinned s
        → IsPinned (host_key_callback env id presented s).1
    unfolding host_key_callback decide_key get_host_key
    host_key_callback-IsPinned presented s h = rw (readable, h) (known-IsPinned presented row s h)

    authenticate-IsPinned :
        (client : Option ℕ) (seen : Bool × Store)
        → IsPinned seen.1
        → IsPinned (authenticate env client seen).1
    unfolding authenticate
    authenticate-IsPinned client (false, s) h = h
    authenticate-IsPinned none (true, s) h = h
    authenticate-IsPinned (some c) (true, s) h = h

    dial-IsPinned :
        (a : Attempt) (presented : Option (List ℕ)) (s : Store)
        → IsPinned s
        → IsPinned (dial env id a presented s).1
    unfolding dial
    dial-IsPinned a none s h = h
    dial-IsPinned a (some key) s h =
        authenticate-IsPinned a.client (host_key_callback env id key s)
          (host_key_callback-IsPinned key s h)

    with_key-IsPinned :
        (a : Attempt) (got : Result KeyError (List ℕ)) (s : Store)
        → IsPinned s
        → IsPinned (with_key env id a got s).1
    unfolding with_key
    with_key-IsPinned a (err e) s h = h
    with_key-IsPinned a (ok key) s h = elim (Bool-cases (a.parses key)) [
      | inl good ↦ rw (good, with_key) (dial-IsPinned a a.presented s h)
      | inr bad ↦ rw (bad, with_key) h
    ]

    with_server-IsPinned :
        (a : Attempt) (got : Result StoreError Server) (s : Store)
        → IsPinned s
        → IsPinned (with_server env id a got s).1
    unfolding with_server
    with_server-IsPinned a (err e) s h = h
    with_server-IsPinned a (ok srv) s h = with_key-IsPinned a (key_of env srv s) s h

    connect-IsPinned : (a : Attempt) (s : Store) → IsPinned s → IsPinned (connect env id a s).1
    unfolding connect
    connect-IsPinned a s h = with_server-IsPinned a (get_server env.db id "" s) s h

    after-IsPinned :
        (attempts : List Attempt) (s : Store) → IsPinned s → IsPinned (after attempts s)
    unfolding after
    after-IsPinned [] s h = h
    after-IsPinned (a ∷ as') s h =
        after-IsPinned as' (connect env id a s).1 (connect-IsPinned a s h)

    same_row : (key : List ℕ) (s : Store) → IsPinned s → Remembers id key s → row.host_key ≡ key
    same_row key s h (found, there, same) = ground (arith, h, there, same)

    pinned_presents :
        (a : Attempt) (s : Store) (result : Result ConnectError ℕ)
        → IsPinned s
        → (connect env id a s).0 ≡ result
        → ((e : ConnectError) × (result ≡ err e)) ⊎ (a.presented ≡ some row.host_key)
    pinned_presents a s (err e) h is = inl (e, refl)
    pinned_presents a s (ok c) h is =
        let (key, presented, there) = connect-Remembers env id a s c is in
        let same = same_row key (connect env id a s).1 (connect-IsPinned a s h) there in
        inr (presented ∙ ap some (sym same))

    -- Where the table of host keys can be read and has a key for the server: after any connections to
    -- it, one after the other and whatever the host does in each, the table still has that key; and a
    -- further connection fails, or the host presents that key in it.
    pub connect-pinned :
        (attempts : List Attempt) (a : Attempt) (s : Store)
        → lookup id s.host_keys ≡ some row
        → let s' = after attempts s in
          (lookup id s'.host_keys ≡ some row)
          × (((e : ConnectError) × ((connect env id a s').0 ≡ err e))
              ⊎ (a.presented ≡ some row.host_key))
    connect-pinned attempts a s h =
        let s' = after attempts s in
        let pinned = after-IsPinned attempts s h in
        (pinned, pinned_presents a s' (connect env id a s').0 pinned refl)
