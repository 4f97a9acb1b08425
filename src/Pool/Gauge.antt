-- ===== src/Pool/Gauge.antt =====
-- Clients that give no session, and clients that do.
use agentic_hive.Prelude.{
  ℕ, String, ◌≡◌, refl, inl, inr, Bool, true, false, some, arith, any, lookup, lookup-insert_self,
  Result, ok, err, Bool-cases, Option-cases, ◌==◌,
}
use agentic_hive.Store.{Store}
use agentic_hive.Pool.{
  Pool, PoolEnv, Attempt, ConnectError, connect, dialled, forget, reinstall, get_or_connect, exec,
  on_client, reconnected, run_on,
}

forget-opened : (id : String) (p : Pool) → (forget id p).opened ≡ p.opened
unfolding forget
forget-opened id p = elim (Option-cases (lookup id p.conns)) [
  | inl absent ↦ rw (absent, forget) refl
  | inr (c, there) ↦ rw (there, forget) refl
]

-- What is left open by the second connection.
module _ (env : PoolEnv) (gives_session runs : ℕ → Bool) (id : String) (old new : ℕ) (p : Pool)
    (was_open : any (λ d. d == old) p.opened ≡ true) where
  abbrev LeavesOpen : Pool → Type 0
  LeavesOpen q = (lookup id q.conns ≡ some new) × (any (λ d. d == old) q.opened ≡ true)

  reinstalled : LeavesOpen (reinstall id new (dialled new (forget id p)))
  unfolding reinstall
  reinstalled = (
    lookup-insert_self id new (forget id p).conns,
    rw (forget-opened id p) (ground (arith, was_open)),
  )

  reconnected-LeavesOpen :
      (result : Result ConnectError ℕ × Store)
      → result.0 ≡ ok new
      → LeavesOpen (reconnected env gives_session runs id result (forget id p)).1
  unfolding reconnected run_on
  reconnected-LeavesOpen (err e, s) h = absurd (ground (arith, h))
  reconnected-LeavesOpen (ok c, s) h =
      let same : c ≡ new = ground (arith, h) in
      rw (same) (elim (Bool-cases (gives_session new)) [
        | inl e ↦ rw (e, reconnected) reinstalled
        | inr e ↦ rw (e, reconnected) reinstalled
      ])

get_or_connect-there :
    (env : PoolEnv) (id : String) (a : Attempt) (p : Pool) (s : Store) (c : ℕ)
    → lookup id p.conns ≡ some c
    → get_or_connect env id a p s ≡ (ok c, p, s)
unfolding get_or_connect
get_or_connect-there env id a p s c there = rw (there, get_or_connect) refl

on_client-dead :
    (env : PoolEnv) (gives_session runs : ℕ → Bool) (id : String) (again : Attempt) (c : ℕ)
    (p : Pool) (s : Store)
    → gives_session c ≡ false
    → on_client env gives_session runs id again (ok c, p, s)
      ≡ reconnected env gives_session runs id (connect env id again s) (forget id p)
unfolding on_client
on_client-dead env gives_session runs id again c p s dead = rw (dead, on_client) refl

-- A client that is open and gives no session is forgotten without being closed: after a
-- reconnection that succeeds it is still open, and the pool has another client for the server.
pub exec_leaves_open :
    (env : PoolEnv) (gives_session runs : ℕ → Bool) (id : String) (first again : Attempt) (p : Pool)
    (s : Store) (old new : ℕ)
    → lookup id p.conns ≡ some old
    → gives_session old ≡ false
    → any (λ d. d == old) p.opened ≡ true
    → (connect env id again s).0 ≡ ok new
    → let q = (exec env gives_session runs id first again p s).1 in
      (lookup id q.conns ≡ some new) × (any (λ d. d == old) q.opened ≡ true)
unfolding exec
exec_leaves_open env gives_session runs id first again p s old new there dead was_open connected =
    rw
      (
        get_or_connect-there env id first p s old there,
        on_client-dead env gives_session runs id again old p s dead,
        exec,
      )
      (reconnected-LeavesOpen env gives_session runs id old new p was_open (connect env id again s)
        connected)

-- Where a client is pooled and gives a session, `Exec` runs the command on it and changes nothing.
pub exec-pooled :
    (env : PoolEnv) (gives_session runs : ℕ → Bool) (id : String) (first again : Attempt) (p : Pool)
    (s : Store) (c : ℕ)
    → lookup id p.conns ≡ some c
    → gives_session c ≡ true
    → exec env gives_session runs id first again p s ≡ (runs c, p, s)
unfolding exec
exec-pooled env gives_session runs id first again p s c there live =
    rw (get_or_connect-there env id first p s c there, on_client, live, run_on) refl
