-- ===== src/Pool.antt =====
-- internal/sshpool/pool.go: one SSH client for each server, made on demand. A client is a number.
-- What the network, the SSH library and the remote hosts do in one call is an argument, `Attempt`.
pub mod HostKeys
pub mod Pinning
pub mod Keeping
pub mod Counting
pub mod Gauge
pub mod Interleaving
pub mod Owning
pub mod Handing
mod Tests
use text.Mathlib.Text.{◌==◌}
use agentic_hive.Prelude.{
  ℕ, zero, suc, ◌+◌, String, Bool, true, false, not, ◌&&◌, Option, none, some, List, [], ◌∷◌,
  if◌then◌else◌, map, length, select, lookup, insert, delete, Result, ok, err, ◌==◌ as nat_eq,
}
use agentic_hive.Store.{Server, HostKey, Store, Engine, StoreError, status_key_mismatch}
use agentic_hive.Store.Servers.{get_server, update_status}
use agentic_hive.Store.HostKeys.{store_host_key, get_host_key}
use agentic_hive.Keystore.{KeyStore, KeyError, Cipher, get_key, get_from_path}

-- The metric of active connections is a gauge: `raised` is how often it has been incremented, and
-- `lowered` how often it has been decremented. `opened` are the clients that have been dialled and not
-- closed.
pub record Pool : Type 0 where
  pub conns : List (String × ℕ)
  pub raised : ℕ
  pub lowered : ℕ
  pub opened : List ℕ

-- `New`
abbrev pub new_pool : Pool
new_pool = record { conns = []; raised = 0; lowered = 0; opened = [] }

-- `presented` is the host key, if the host is reached; `client` is what the library returns, if the
-- host accepts the user's key.
pub record Attempt : Type 0 where
  pub parses : List ℕ → Bool
  pub presented : Option (List ℕ)
  pub client : Option ℕ

-- The engine, the cipher, the active key store, the SSH library's fingerprint, and the time.
pub record PoolEnv : Type 0 where
  pub db : Engine
  pub cipher : Cipher
  pub keystore : KeyStore
  pub fingerprint : List ℕ → String
  pub now : ℕ

pub data ConnectError : Type 0 where
  no_server no_key bad_key unreachable host_key_refused auth_failed : ConnectError

abbrev pub same_key : List ℕ → List ℕ → Bool
same_key [] [] = true
same_key [] (b ∷ bs) = false
same_key (a ∷ as') [] = false
same_key (a ∷ as') (b ∷ bs) = nat_eq a b && same_key as' bs

module _ (env : PoolEnv) where
  pub key_of : Server → Store → Result KeyError (List ℕ)
  key_of srv s =
      if srv.key_source == "vault_ref" && not (srv.vault_key_path == "")
      then get_from_path env.cipher env.db env.keystore srv.vault_key_path
      else get_key env.cipher env.db env.keystore srv.id s

  first_seen : Result StoreError (Unit {0}) × Store → Bool × Store
  first_seen (ok done, s) = (true, s)
  first_seen (err e, s) = (false, s)

  known : String → List ℕ → HostKey → Store → Bool × Store
  known id presented row s =
      if same_key row.host_key presented
      then (true, s)
      else (false, (update_status env.db id status_key_mismatch env.now s).1)

  -- Every error of `GetHostKey` counts as "no stored key".
  decide_key : String → List ℕ → Result StoreError HostKey → Store → Bool × Store
  unfolding first_seen known
  decide_key id presented (err e) s =
      first_seen (store_host_key env.db id presented (env.fingerprint presented) s)
  decide_key id presented (ok row) s = known id presented row s

  -- `hostKeyCallback`
  unfoldable pub host_key_callback : String → List ℕ → Store → Bool × Store
  unfolding decide_key
  host_key_callback id presented s = decide_key id presented (get_host_key env.db id s) s

  authenticate : Option ℕ → Bool × Store → Result ConnectError ℕ × Store
  authenticate client (false, s) = (err host_key_refused, s)
  authenticate none (true, s) = (err auth_failed, s)
  authenticate (some c) (true, s) = (ok c, s)

  dial : String → Attempt → Option (List ℕ) → Store → Result ConnectError ℕ × Store
  unfolding host_key_callback authenticate
  dial id a none s = (err unreachable, s)
  dial id a (some key) s = authenticate a.client (host_key_callback id key s)

  with_key : String → Attempt → Result KeyError (List ℕ) → Store → Result ConnectError ℕ × Store
  unfolding dial
  with_key id a (err e) s = (err no_key, s)
  with_key id a (ok key) s = if a.parses key then dial id a a.presented s else (err bad_key, s)

  with_server : String → Attempt → Result StoreError Server → Store → Result ConnectError ℕ × Store
  unfolding with_key key_of
  with_server id a (err e) s = (err no_server, s)
  with_server id a (ok srv) s = with_key id a (key_of srv s) s

  unfoldable pub connect : String → Attempt → Store → Result ConnectError ℕ × Store
  unfolding with_server
  connect id a s = with_server id a (get_server env.db id "" s) s

-- The critical sections of the pool, each under its mutex.
abbrev pub without : ℕ → List ℕ → List ℕ
without c = select (λ d. not (nat_eq d c))

abbrev pub dialled : ℕ → Pool → Pool
dialled c p = record p { opened = c ∷ p.opened }

-- The increment of the gauge, after the mutex has been released.
abbrev pub raise : Pool → Pool
raise p = record p { raised = p.raised + 1 }

-- The end of `getOrConnect`: the new client is closed if another goroutine was faster. The Boolean
-- says whether it is stored, and the gauge is still to be incremented.
unfoldable pub install : String → ℕ → Pool → ℕ × Bool × Pool
install id c p = elim (lookup id p.conns) [
  | some existing ↦ (existing, false, record p { opened = without c p.opened })
  | none ↦ (c, true, record p { conns = insert id c p.conns })
]

-- `Exec` forgets a client that gives no session. It does not close it.
unfoldable pub forget : String → Pool → Pool
forget id p = elim (lookup id p.conns) [
  | none ↦ p
  | some c ↦ record p { conns = delete id p.conns; lowered = p.lowered + 1 }
]

-- `Exec` stores the client of the second connection, whatever is there by now.
unfoldable pub reinstall : String → ℕ → Pool → Pool
reinstall id c p = record p { conns = insert id c p.conns }

unfoldable pub remove : String → Pool → Pool
remove id p = elim (lookup id p.conns) [
  | none ↦ p
  | some c ↦ record p {
    conns = delete id p.conns;
    lowered = p.lowered + 1;
    opened = without c p.opened;
  }
]

close_each : List (String × ℕ) → Pool → Pool
close_each [] p = p
close_each ((id, c) ∷ rest) p =
    close_each rest
      (record p { conns = delete id p.conns; lowered = p.lowered + 1; opened = without c p.opened })

unfoldable pub close : Pool → Pool
unfolding close_each
close p = close_each p.conns p

module _ (env : PoolEnv) where
  installed : String → Result ConnectError ℕ × Store → Pool → Result ConnectError ℕ × Pool × Store
  installed id (err e, s) p = (err e, p, s)
  installed id (ok c, s) p =
      let (got, new, p') = install id c (dialled c p) in (ok got, if new then raise p' else p', s)

  -- `getOrConnect`, where no other goroutine runs between its critical sections.
  unfoldable pub get_or_connect :
      String → Attempt → Pool → Store → Result ConnectError ℕ × Pool × Store
  unfolding installed
  get_or_connect id a p s = elim (lookup id p.conns) [
    | some c ↦ (ok c, p, s)
    | none ↦ installed id (connect env id a s) p
  ]

  -- Whether a client gives a session, and whether the command then succeeds.
  module _ (gives_session : ℕ → Bool) (runs : ℕ → Bool) where
    run_on : ℕ → Pool → Store → Bool × Pool × Store
    run_on c p s = (runs c, p, s)

    reconnected : String → Result ConnectError ℕ × Store → Pool → Bool × Pool × Store
    reconnected id (err e, s) p = (false, p, s)
    reconnected id (ok c, s) p =
        let p' = raise (reinstall id c (dialled c p)) in
        if gives_session c then run_on c p' s else (false, p', s)

    on_client : String → Attempt → Result ConnectError ℕ × Pool × Store → Bool × Pool × Store
    unfolding reconnected run_on
    on_client id again (err e, p, s) = (false, p, s)
    on_client id again (ok c, p, s) =
        if gives_session c
        then run_on c p s
        else reconnected id (connect env id again s) (forget id p)

    -- `Exec`: the result tells whether the command ran without an error. `again` is the second
    -- connection, which is made if the first client gives no session.
    unfoldable pub exec : String → (first again : Attempt) → Pool → Store → Bool × Pool × Store
    unfolding on_client
    exec id first again p s = on_client id again (get_or_connect id first p s)

  -- `Session`: no second connection is made; `none` where the client gives no session.
  unfoldable pub session :
      (gives_session : ℕ → Bool) → String → Attempt → Pool → Store → Option ℕ × Pool × Store
  session gives_session id a p s =
      let (result, p', s') = get_or_connect id a p s in
      (elim result [ err e ↦ none | ok c ↦ if gives_session c then some c else none ], p', s')
