-- ===== src/Server/Ownership.antt =====
-- The guard of the handlers of one server, for a caller who does not see the server `j`.
use agentic_hive.Prelude.{
  ◌≡◌, refl, ◌≢◌, String, Option, Result, ok, err, subst, Bool-cases, inl, inr,
}
use agentic_hive.Http.{Request, Response}
use agentic_hive.Store.{Server, Store, StoreError, Engine, select_server}
use agentic_hive.Store.Servers.{get_server}
use agentic_hive.Store.Servers.Ownership.{AllForeign, get_server-foreign, get_server_sound}
use agentic_hive.Store.Keeping.{Keeps, keeps, log_audit-Keeps}
use agentic_hive.Auth.Tokens.{Claims}
use agentic_hive.Server.{World, ServerEnv, Reply, owner_of, checked, on_server, audit}

pub audit-Keeps :
    (env : ServerEnv) (r : Request) (user : Option Claims)
    (action target_type target_id details : String) (j : String) (s : Store)
    → Keeps j s (audit env r user action target_type target_id details s)
unfolding audit
audit-Keeps env r user action target_type target_id details j s =
    log_audit-Keeps env.auth.db env.auth.audit_id env.auth.now _ j s

-- No call of the store gives the server to the caller.
abbrev pub Hidden : Engine → String → Option Claims → Store → Type 0
Hidden db j user s = (srv : Server) → get_server db j (owner_of user) s ≢ ok srv

pub get_server-hidden :
    (db : Engine) (j owner : String) (s : Store)
    → owner ≢ ""
    → AllForeign j owner s.servers
    → (srv : Server) → get_server db j owner s ≢ ok srv
unfolding get_server
get_server-hidden db j owner s named foreign srv h = elim (Bool-cases (db select_server)) [
  | inl down ↦ let bad = rw (down, get_server) at h in cc (bad)
  | inr up ↦ cc (get_server-foreign db j owner s named up foreign, h)
]

-- A server that others own is hidden, whether or not the engine answers.
pub foreign-Hidden :
    (db : Engine) (j : String) (user : Option Claims) (s : Store)
    → owner_of user ≢ ""
    → AllForeign j (owner_of user) s.servers
    → Hidden db j user s
foreign-Hidden db j user s named foreign = get_server-hidden db j (owner_of user) s named foreign

module _ (env : ServerEnv) (j : String) (user : Option Claims) where
  checked-Keeps :
      (id : String) (act : Server → World → Response Reply × World) (w : World)
      (found : Result StoreError Server)
      → get_server env.auth.db id (owner_of user) w.store ≡ found
      → Hidden env.auth.db j user w.store
      → ((srv : Server) → srv.id ≡ id → id ≢ j → Keeps j w.store (act srv w).1.store)
      → Keeps j w.store (checked env found act w).1.store
  checked-Keeps id act w (err e) h hidden k = keeps j w.store
  checked-Keeps id act w (ok srv) h hidden k =
      k srv (get_server_sound env.auth.db id (owner_of user) w.store srv h).0 (λ same.
        hidden srv (subst (λ i. get_server env.auth.db i (owner_of user) w.store ≡ ok srv) same h))

  -- A handler behind the guard runs for other servers only.
  pub on_server-Keeps :
      (id : String) (act : Server → World → Response Reply × World) (w : World)
      → Hidden env.auth.db j user w.store
      → ((srv : Server) → srv.id ≡ id → id ≢ j → Keeps j w.store (act srv w).1.store)
      → Keeps j w.store (on_server env user id act w).1.store
  on_server-Keeps id act w hidden k =
      checked-Keeps id act w (get_server env.auth.db id (owner_of user) w.store) refl hidden k
