-- ===== src/Pool/Keeping.antt =====
-- What the connections to one server leave to the others.
use agentic_hive.Prelude.{
  ℕ, ◌≡◌, ◌≢◌, inl, inr, Bool, true, false, String, List, arith, Option, none, some, lookup, subst,
  sym, Result, ok, err, Bool-cases, Option-cases, refl,
}
use agentic_hive.Store.{Server, Store, StoreError, HostKey, status_key_mismatch}
use agentic_hive.Store.Servers.{get_server}
use agentic_hive.Store.HostKeys.{get_host_key, store_host_key}
use agentic_hive.Store.Keeping.{
  Keeps, keeps, Keeps-trans, update_status-Keeps, store_host_key-Keeps,
}
use agentic_hive.Keystore.{KeyError}
use agentic_hive.Pool.{
  Pool, PoolEnv, Attempt, ConnectError, same_key, host_key_callback, decide_key, first_seen, known,
  connect, with_server, with_key, dial, authenticate, key_of, get_or_connect, installed, exec,
  on_client, forget, reconnected, run_on, session,
}

module _ (env : PoolEnv) (id j : String) (h : id ≢ j) where
  first_seen-store : (r : Result StoreError (Unit {0}) × Store) → (first_seen env r).1 ≡ r.1
  unfolding first_seen
  first_seen-store (ok u, s) = refl
  first_seen-store (err e, s) = refl

  decide_key-Keeps :
      (presented : List ℕ) (found : Result StoreError HostKey) (s : Store)
      → Keeps j s (decide_key env id presented found s).1
  unfolding decide_key known
  decide_key-Keeps presented (err e) s =
      rw (first_seen-store (store_host_key env.db id presented (env.fingerprint presented) s))
        (store_host_key-Keeps env.db id presented (env.fingerprint presented) j s h)
  decide_key-Keeps presented (ok row) s = elim (Bool-cases (same_key row.host_key presented)) [
    | inl same ↦ rw same (keeps j s)
    | inr differs ↦ rw differs (update_status-Keeps env.db id status_key_mismatch env.now j s h)
  ]

  authenticate-store :
      (client : Option ℕ) (seen : Bool × Store) → (authenticate env client seen).1 ≡ seen.1
  unfolding authenticate
  authenticate-store client (false, s) = refl
  authenticate-store none (true, s) = refl
  authenticate-store (some c) (true, s) = refl

  dial-Keeps :
      (a : Attempt) (presented : Option (List ℕ)) (s : Store)
      → Keeps j s (dial env id a presented s).1
  unfolding dial host_key_callback
  dial-Keeps a none s = keeps j s
  dial-Keeps a (some key) s =
      rw (authenticate-store a.client (decide_key env id key (get_host_key env.db id s) s))
        (decide_key-Keeps key (get_host_key env.db id s) s)

  with_key-Keeps :
      (a : Attempt) (got : Result KeyError (List ℕ)) (s : Store)
      → Keeps j s (with_key env id a got s).1
  unfolding with_key
  with_key-Keeps a (err e) s = keeps j s
  with_key-Keeps a (ok key) s = elim (Bool-cases (a.parses key)) [
    | inl good ↦ rw good (dial-Keeps a a.presented s)
    | inr bad ↦ rw bad (keeps j s)
  ]

  with_server-Keeps :
      (a : Attempt) (got : Result StoreError Server) (s : Store)
      → Keeps j s (with_server env id a got s).1
  unfolding with_server
  with_server-Keeps a (err e) s = keeps j s
  with_server-Keeps a (ok srv) s = with_key-Keeps a (key_of env srv s) s

  pub connect-Keeps : (a : Attempt) (s : Store) → Keeps j s (connect env id a s).1
  unfolding connect
  connect-Keeps a s = with_server-Keeps a (get_server env.db id "" s) s

  installed-store : (r : Result ConnectError ℕ × Store) (p : Pool) → (installed env id r p).2 ≡ r.1
  unfolding installed
  installed-store (err e, s) p = refl
  installed-store (ok c, s) p = refl

  dialled_store :
      (a : Attempt) (p : Pool) (s : Store)
      → lookup id p.conns ≡ none
      → (get_or_connect env id a p s).2 ≡ (connect env id a s).1
  unfolding get_or_connect
  dialled_store a p s fresh = ground (arith, fresh, installed-store (connect env id a s) p)

  pooled_store :
      (a : Attempt) (p : Pool) (s : Store) (c : ℕ)
      → lookup id p.conns ≡ some c
      → (get_or_connect env id a p s).2 ≡ s
  unfolding get_or_connect
  pooled_store a p s c pooled = ground (arith, pooled)

  get_or_connect-Keeps :
      (a : Attempt) (p : Pool) (s : Store) → Keeps j s (get_or_connect env id a p s).2
  get_or_connect-Keeps a p s = elim (Option-cases (lookup id p.conns)) [
    | inl fresh ↦ subst (Keeps j s) (sym (dialled_store a p s fresh)) (connect-Keeps a s)
    | inr (c, pooled) ↦ subst (Keeps j s) (sym (pooled_store a p s c pooled)) (keeps j s)
  ]

  module _ (gives_session : ℕ → Bool) (runs : ℕ → Bool) where
    reconnected-store :
        (r : Result ConnectError ℕ × Store) (p : Pool)
        → (reconnected env gives_session runs id r p).2 ≡ r.1
    unfolding reconnected run_on
    reconnected-store (err e, s) p = refl
    reconnected-store (ok c, s) p = ground arith

    on_client-Keeps :
        (again : Attempt) (r : Result ConnectError ℕ × Pool × Store) (s : Store)
        → Keeps j s r.2
        → Keeps j s (on_client env gives_session runs id again r).2
    unfolding on_client run_on
    on_client-Keeps again (err e, p, t) s k = k
    on_client-Keeps again (ok c, p, t) s k = elim (Bool-cases (gives_session c)) [
      | inl live ↦ rw live k
      | inr dead ↦
          rw (dead, reconnected-store (connect env id again t) (forget id p))
            (Keeps-trans j s t _ k (connect-Keeps again t))
    ]

    -- `Exec` for one server leaves the row and the keys of every other one.
    pub exec-Keeps :
        (first again : Attempt) (p : Pool) (s : Store)
        → Keeps j s (exec env gives_session runs id first again p s).2
    unfolding exec
    exec-Keeps first again p s =
        on_client-Keeps again (get_or_connect env id first p s) s (get_or_connect-Keeps first p s)

  -- `Session` for one server, too.
  pub session-Keeps :
      (gives_session : ℕ → Bool) (a : Attempt) (p : Pool) (s : Store)
      → Keeps j s (session env gives_session id a p s).2
  unfolding session
  session-Keeps gives_session a p s = get_or_connect-Keeps a p s
