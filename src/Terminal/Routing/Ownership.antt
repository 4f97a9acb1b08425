-- ===== src/Terminal/Routing/Ownership.antt =====
-- What a request for a terminal gives to a user, and what it leaves to the servers of others.
use text.Mathlib.Text.{◌==◌}
use agentic_hive.Prelude.{
  ℕ, ◌≡◌, refl, ◌≢◌, inl, inr, not, String, Option, none, some, Result, ok, err, Bool-cases, subst,
  sym, str_ne, eq_iff, ◌⊎◌, arith,
}
use agentic_hive.Text.{codes}
use agentic_hive.Http.{Request}
use agentic_hive.Store.{Server, StoreError, role_admin}
use agentic_hive.Store.Keeping.{Keeps, keeps, Keeps-trans}
use agentic_hive.Store.Servers.{get_server}
use agentic_hive.Store.Servers.Ownership.{AllForeign}
use agentic_hive.Session.{is_safe_name}
use agentic_hive.Pool.{session}
use agentic_hive.Pool.Keeping.{session-Keeps}
use agentic_hive.Auth.Tokens.{Claims}
use agentic_hive.Auth.Guards.{Access, denied, granted, require_auth}
use agentic_hive.Auth.Csrf.{Verdict, csrf_protect, forbidden, next, server_exemptions}
use agentic_hive.Server.{World, ServerEnv, owner_of, pool_env}
use agentic_hive.Server.Ownership.{audit-Keeps, get_server-hidden}
use agentic_hive.Terminal.{
  Peer, Opening, rejected, handle_terminal, on_client, upgraded, owned, audit_terminal,
  end_terminal,
}
use agentic_hive.Terminal.Origins.{handle_terminal-foreign}
use agentic_hive.Terminal.Routing.{behind_auth, behind_csrf, serve_terminal}

module _ (env : ServerEnv) (r : Request) (c : Claims) (peer : Peer)
    (server_id name j : String) where
  end_terminal-Keeps :
      (w : World) → Keeps j w.store (end_terminal env r (some c) server_id name w).store
  unfolding end_terminal
  end_terminal-Keeps w = audit-Keeps env r (some c) _ _ _ _ j w.store

  on_client-Keeps :
      (client : Option ℕ) (w : World)
      → Keeps j w.store (on_client env r (some c) peer server_id name client w).1.store
  unfolding on_client
  on_client-Keeps none w = end_terminal-Keeps w
  on_client-Keeps (some n) w = ground (arith, end_terminal-Keeps w, keeps j w.store)

  upgraded-Keeps :
      (w : World)
      → server_id ≢ j
      → Keeps j w.store (upgraded env r (some c) peer server_id name w).1.store
  unfolding upgraded
  upgraded-Keeps w other =
      let s = audit_terminal env r (some c) "terminal.connect" server_id name w.store in
      let seen = session (pool_env env w) peer.gives_session server_id peer.attempt w.pool s in
      let got =
        session-Keeps (pool_env env w) server_id j other peer.gives_session peer.attempt w.pool s in
      Keeps-trans j w.store s _ (audit-Keeps env r (some c) _ _ _ _ j w.store) (
        Keeps-trans j s seen.2 _ got
          (on_client-Keeps seen.0 (record w { pool = seen.1; store = seen.2 })))

  owned-Keeps :
      (found : Result StoreError Server) (w : World)
      → get_server env.auth.db server_id (owner_of (some c)) w.store ≡ found
      → ((srv : Server) → get_server env.auth.db j (owner_of (some c)) w.store ≢ ok srv)
      → Keeps j w.store (owned env r (some c) peer server_id name found w).1.store
  unfolding owned
  owned-Keeps (err e) w h hidden = keeps j w.store
  owned-Keeps (ok srv) w h hidden = elim (Bool-cases peer.upgrades) [
    | inr not ↦ rw not (keeps j w.store)
    | inl up ↦ rw up (
        upgraded-Keeps w λ same.
          hidden srv
            (subst (λ i. get_server env.auth.db i (owner_of (some c)) w.store ≡ ok srv) same h))
  ]

  handle_terminal-Keeps :
      (w : World)
      → ((srv : Server) → get_server env.auth.db j (owner_of (some c)) w.store ≢ ok srv)
      → Keeps j w.store (handle_terminal env r (some c) peer server_id name w).1.store
  unfolding handle_terminal
  handle_terminal-Keeps w hidden = elim (Bool-cases (is_safe_name (codes name))) [
    | inr unsafe ↦ rw unsafe (keeps j w.store)
    | inl safe ↦
        rw safe
          (owned-Keeps (get_server env.auth.db server_id (owner_of (some c)) w.store) w refl hidden)
  ]

module _ (env : ServerEnv) (r : Request) (peer : Peer) (server_id name : String) (w : World) where
  abbrev access : Access
  access = require_auth env.auth.jwt env.auth.secret env.auth.now r

  behind_csrf-granted :
      (c : Claims) (j : String) (v : Verdict)
      → access ≡ granted c
      → Keeps j w.store (handle_terminal env r (some c) peer server_id name w).1.store
      → Keeps j w.store (behind_csrf env r peer server_id name v w).1.store
  unfolding behind_csrf behind_auth
  behind_csrf-granted c j forbidden e k = keeps j w.store
  behind_csrf-granted c j next e k = rw e k

  serve_terminal-Keeps :
      (c : Claims) (j : String)
      → access ≡ granted c
      → c.role ≢ role_admin
      → c.user_id ≢ ""
      → AllForeign j c.user_id w.store.servers
      → Keeps j w.store (serve_terminal env r peer server_id name w).1.store
  unfolding serve_terminal
  serve_terminal-Keeps c j e plain named foreign =
      behind_csrf-granted c j (csrf_protect server_exemptions r) e (
        handle_terminal-Keeps env r c peer server_id name j w (
          subst (λ o. (srv : Server) → get_server env.auth.db j o w.store ≢ ok srv) own
            (get_server-hidden env.auth.db j c.user_id w.store named foreign)))
    where
      own : c.user_id ≡ owner_of (some c)
      own = rw (str_ne c.role role_admin plain) refl

  -- The request is rejected, and nothing changes.
  abbrev pub IsRejected : Opening × World → Type 0
  IsRejected result = (code : ℕ) × (message : String) × (result ≡ (rejected code message, w))

  behind_csrf-IsRejected :
      (v : Verdict)
      → IsRejected (behind_auth env r peer server_id name access w)
      → IsRejected (behind_csrf env r peer server_id name v w)
  unfolding behind_csrf
  behind_csrf-IsRejected forbidden h = (403, "csrf token mismatch", refl)
  behind_csrf-IsRejected next h = h

  -- A request for a terminal that `RequireAuth` does not let through is rejected, and changes nothing.
  pub serve_terminal-denied :
      (code : ℕ) (label : Option String)
      → access ≡ denied code label
      → IsRejected (serve_terminal env r peer server_id name w)
  unfolding serve_terminal behind_auth
  serve_terminal-denied code label e =
      behind_csrf-IsRejected (csrf_protect server_exemptions r) (rw e (_, _, refl))

  serve_terminal-rejects :
      (c : Claims)
      → access ≡ granted c
      → c.role ≢ role_admin
      → c.user_id ≢ ""
      → AllForeign server_id c.user_id w.store.servers
      → IsRejected (serve_terminal env r peer server_id name w)
  unfolding serve_terminal behind_auth
  serve_terminal-rejects c e plain named foreign =
      behind_csrf-IsRejected (csrf_protect server_exemptions r)
        (rw e (handle_terminal-foreign env r c peer server_id name w plain named foreign))

  -- For a server that only others own, a user who has an identifier and is no admin gets no terminal:
  -- a request for it is rejected before the upgrade, and changes nothing. A request for a terminal on
  -- another server, whatever becomes of it, leaves that server as it is: its row, its private key and
  -- its host key.
  pub serve_terminal-foreign :
      (c : Claims) (j : String)
      → access ≡ granted c
      → c.role ≢ role_admin
      → c.user_id ≢ ""
      → AllForeign j c.user_id w.store.servers
      → Keeps j w.store (serve_terminal env r peer server_id name w).1.store
        × ((server_id ≢ j) ⊎ IsRejected (serve_terminal env r peer server_id name w))
  serve_terminal-foreign c j e plain named foreign = (
    serve_terminal-Keeps c j e plain named foreign,
    elim (Bool-cases (server_id == j)) [
      | inl same ↦ inr (
          serve_terminal-rejects c e plain named (
            subst (λ i. AllForeign i c.user_id w.store.servers) (sym ((eq_iff server_id j).0 same))
              foreign))
      | inr differs ↦ inl (λ is. ground (arith, eq_iff server_id j, differs, is))
    ],
  )
