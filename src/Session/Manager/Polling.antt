-- ===== src/Session/Manager/Polling.antt =====
-- One round of polling for one server: what becomes of its status and of its sessions.
use agentic_hive.Prelude.{
  ℕ, ◌≡◌, refl, ◌≢◌, false, String, List, [], ◌∷◌, Option, none, some, map, lookup,
  lookup-insert_self, arith, str_ne, eq_iff, ap, length, All,
}
use agentic_hive.Store.{Server, Store, status_unreachable, update_server_status}
use agentic_hive.Store.Servers.{update_status, with_status}
use agentic_hive.Pool.{Pool, PoolEnv}
use agentic_hive.Session.Listing.{Session}
use agentic_hive.Session.Manager.{
  Manager, Remote, list_sessions, poll_result, poll_server, get_sessions, or_no_sessions,
}

-- What the cache of a server holds after a round: what was listed, or what it held before.
abbrev pub refreshed : Option (List Session) → List Session → List Session
refreshed none cached = cached
refreshed (some listed) cached = listed

abbrev pub count : Option (List Session) → ℕ
count none = 0
count (some listed) = length listed

module _ (env : PoolEnv) (srv : Server) (m : Manager) where
  poll_result-cache :
      (got : Option (List Session) × Pool × Store)
      → (get_sessions srv.id (poll_result env srv got m).0
          ≡ refreshed got.0 (get_sessions srv.id m))
        × (lookup srv.id (poll_result env srv got m).0.active ≡ some (count got.0))
  unfolding poll_result get_sessions
  poll_result-cache (none, p, s) = (refl, lookup-insert_self srv.id 0 m.active)
  poll_result-cache (some listed, p, s) = (
    ap or_no_sessions (lookup-insert_self srv.id listed m.sessions),
    lookup-insert_self srv.id (length listed) m.active,
  )

  -- After a round of polling, the cache of the server holds the sessions that were listed, and what
  -- it held before where listing them failed. The metric then counts the sessions that were listed,
  -- and is 0 after a failure, although the cache still shows sessions.
  pub poll_server-cache :
      (remote : Remote) (p : Pool) (s : Store)
      → let listed = (list_sessions env remote srv p s).0 in
        let m' = (poll_server env remote srv m p s).0 in
        (get_sessions srv.id m' ≡ refreshed listed (get_sessions srv.id m))
        × (lookup srv.id m'.active ≡ some (count listed))
  unfolding poll_server
  poll_server-cache remote p s = poll_result-cache (list_sessions env remote srv p s)

-- Every row of the identifier has the status.
abbrev pub HasStatus : String → String → List Server → Type 0
HasStatus id status rows = All (λ x. x.id ≡ id → x.status ≡ status) rows

with_status-HasStatus :
    (id status : String) (now : ℕ) (rows : List Server)
    → HasStatus id status (map (with_status id status now) rows)
with_status-HasStatus id status now [] = tt
with_status-HasStatus id status now (x ∷ rows) =
    (λ same. ground (arith, eq_iff x.id id), with_status-HasStatus id status now rows)

module _ (env : PoolEnv) (srv : Server) (m : Manager) where
  failed-HasStatus :
      (got : Option (List Session) × Pool × Store)
      → got.0 ≡ none
      → srv.status ≢ status_unreachable
      → env.db update_server_status ≡ false
      → HasStatus srv.id status_unreachable (poll_result env srv got m).2.servers
  unfolding poll_result update_status
  failed-HasStatus (some listed, p, s) failed other up = cc (failed)
  failed-HasStatus (none, p, s) failed other up =
      rw (str_ne srv.status status_unreachable other, up)
        (with_status-HasStatus srv.id status_unreachable env.now s.servers)

  -- Where the engine writes the status, listing the sessions fails and the server was listed with another status, the server is
  -- marked unreachable, also if the reason is a host key that was refused, for which the connection
  -- has just marked it.
  pub poll_server-failed :
      (remote : Remote) (p : Pool) (s : Store)
      → (list_sessions env remote srv p s).0 ≡ none
      → srv.status ≢ status_unreachable
      → env.db update_server_status ≡ false
      → HasStatus srv.id status_unreachable (poll_server env remote srv m p s).2.servers
  unfolding poll_server
  poll_server-failed remote p s failed other up =
      failed-HasStatus (list_sessions env remote srv p s) failed other up
