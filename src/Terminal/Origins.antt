-- ===== src/Terminal/Origins.antt =====
-- From where and for whom a terminal opens.
use Prim.Native.String.{◌++◌}
use agentic_hive.Prelude.{
  ℕ, ◌≡◌, refl, some, ◌≢◌, ◌↔◌, true, String, Result, ok, err, str_ne, inl, inr, Bool-cases,
}
use agentic_hive.Prelude.{◌++◌ as append}
use agentic_hive.Text.{Text, codes}
use agentic_hive.Text.Searching.{has_suffix_iff}
use agentic_hive.Http.{Request, header}
use agentic_hive.Store.{Server, StoreError, role_admin}
use agentic_hive.Store.Servers.{get_server}
use agentic_hive.Store.Servers.Ownership.{AllForeign}
use agentic_hive.Session.{is_safe_name}
use agentic_hive.Auth.Tokens.{Claims}
use agentic_hive.Server.{World, ServerEnv}
use agentic_hive.Server.Ownership.{get_server-hidden}
use agentic_hive.Terminal.{check_origin, Peer, rejected, owned, handle_terminal}

-- A request that names its origin passes the check exactly if the origin is some scheme with the host that the request names.
pub check_origin_iff :
    (host : String) (r : Request)
    → header r "Origin" ≢ ""
    → (check_origin host r ≡ true)
      ↔ ((scheme : Text) × (codes (header r "Origin") ≡ append scheme (codes ("://" ++ host))))
unfolding check_origin
check_origin_iff host r named =
    rw (str_ne (header r "Origin") "" named)
      (has_suffix_iff (codes ("://" ++ host)) (codes (header r "Origin")))

-- For a server that only others own, a user who has an identifier and is no admin gets no terminal: the request is
-- rejected before the upgrade, and nothing changes.
pub handle_terminal-foreign :
    (env : ServerEnv) (r : Request) (c : Claims) (peer : Peer) (server_id name : String) (w : World)
    → c.role ≢ role_admin
    → c.user_id ≢ ""
    → AllForeign server_id c.user_id w.store.servers
    → (code : ℕ) × (message : String) × (handle_terminal env r (some c) peer server_id name w
        ≡ (rejected code message, w))
unfolding handle_terminal
handle_terminal-foreign env r c peer server_id name w plain named foreign =
    elim (Bool-cases (is_safe_name (codes name))) [
      | inl safe ↦ (
        404,
        "server not found",
        rw (safe, str_ne c.role role_admin plain)
            (unseen (get_server env.auth.db server_id c.user_id w.store) refl),
      )
      | inr unsafe ↦ (400, "invalid session name", rw unsafe refl)
    ]
  where
    hidden : (srv : Server) → get_server env.auth.db server_id c.user_id w.store ≢ ok srv
    hidden srv = get_server-hidden env.auth.db server_id c.user_id w.store named foreign srv

    unseen :
        (found : Result StoreError Server)
        → get_server env.auth.db server_id c.user_id w.store ≡ found
        → owned env r (some c) peer server_id name found w ≡ (rejected 404 "server not found", w)
    unseen (err e) h = refl
    unseen (ok srv) h = absurd (hidden srv h)
