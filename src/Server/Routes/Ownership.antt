-- ===== src/Server/Routes/Ownership.antt =====
-- Who can change what through the routes behind the two guards.
use text.Mathlib.Text.{◌==◌}
use agentic_hive.Prelude.{
  ℕ, ◌≡◌, refl, ◌≢◌, ◌⊎◌, inl, inr, true, String, Option, none, some, any, sym, subst, arith,
  str_ne,
}
use agentic_hive.Http.{Request, Response}
use agentic_hive.Store.{role_admin}
use agentic_hive.Store.Templates.{list_templates}
use agentic_hive.Store.Servers.Ownership.{AllForeign}
use agentic_hive.Store.Keeping.{Keeps, keeps, log_audit-Keeps}
use agentic_hive.Auth.Auditing.{log_auth_audit}
use agentic_hive.Auth.Tokens.{Claims}
use agentic_hive.Auth.Local.{logout}
use agentic_hive.Auth.Csrf.{Verdict, csrf_protect, forbidden, next, server_exemptions}
use agentic_hive.Auth.Guards.{Access, denied, granted, require_auth, require_admin}
use agentic_hive.Server.{World, ServerEnv, Reply, owner_of}
use agentic_hive.Server.Ownership.{Hidden, foreign-Hidden}
use agentic_hive.Server.Servers.Keeping.{
  handle_list_servers-Keeps, handle_create_server-Keeps, handle_delete_server-Keeps,
  handle_upload_key-Keeps, handle_accept_key-Keeps,
}
use agentic_hive.Server.Sessions.Keeping.{
  handle_list_sessions-Keeps, handle_create_session-Keeps, handle_kill_session-Keeps,
}
use agentic_hive.Server.Admin.{handle_me, handle_list_templates}
use agentic_hive.Server.Routes.{
  UserRoute, get_me, get_templates, list_all, post_logout, create_one, delete_one, put_key_of,
  accept_key_of, sessions_of, create_session_on, kill_session_on, AdminRoute, Route, as_user,
  as_admin, Answer, run_user, refusal, csrf_refusal, past_csrf, behind, answered, dispatch,
  serve_request,
}

module _ (env : ServerEnv) (r : Request) (user : Option Claims) (j : String) (w : World) where
  logout-Keeps : Keeps j w.store (logout env.auth r user w.store).1
  unfolding logout log_auth_audit
  logout-Keeps = audited user
    where
      audited : (o : Option Claims) → Keeps j w.store (logout env.auth r o w.store).1
      audited none = log_audit-Keeps env.auth.db _ _ _ j w.store
      audited (some c) = log_audit-Keeps env.auth.db _ _ _ j w.store

  handle_me-Keeps : (o : Option Claims) → Keeps j w.store (handle_me env r o w).1.store
  unfolding handle_me
  handle_me-Keeps none = keeps j w.store
  handle_me-Keeps (some c) = keeps j w.store

  templates_same : (handle_list_templates env r user w).1 ≡ w
  unfolding handle_list_templates list_templates
  templates_same = ground arith

  handle_list_templates-Keeps : Keeps j w.store (handle_list_templates env r user w).1.store
  handle_list_templates-Keeps =
      subst (λ v. Keeps j w.store v.store) (sym templates_same) (keeps j w.store)

  run_user-Keeps :
      (route : UserRoute)
      → Hidden env.auth.db j user w.store
      → any (λ srv. srv.id == j) w.store.servers ≡ true
      → Keeps j w.store (run_user env r route user w).1.store
  unfolding run_user
  run_user-Keeps get_me hidden there = handle_me-Keeps user
  run_user-Keeps get_templates hidden there = handle_list_templates-Keeps
  run_user-Keeps list_all hidden there = handle_list_servers-Keeps env r user j w
  run_user-Keeps post_logout hidden there = logout-Keeps
  run_user-Keeps (create_one body) hidden there =
      handle_create_server-Keeps env r user j body w there
  run_user-Keeps (delete_one id) hidden there = handle_delete_server-Keeps env r user j id w hidden
  run_user-Keeps (put_key_of id body) hidden there =
      handle_upload_key-Keeps env r user j id body w hidden
  run_user-Keeps (accept_key_of id) hidden there = handle_accept_key-Keeps env r user j id w hidden
  run_user-Keeps (sessions_of id) hidden there = handle_list_sessions-Keeps env r user j id w hidden
  run_user-Keeps (create_session_on id body) hidden there =
      handle_create_session-Keeps env r user j id body w hidden
  run_user-Keeps (kill_session_on id name) hidden there =
      handle_kill_session-Keeps env r user j id name w hidden

module _ (env : ServerEnv) (r : Request) (j : String) (w : World) where
  past_csrf-Keeps :
      (v : Verdict) (run : World → Answer × World)
      → Keeps j w.store (run w).1.store
      → Keeps j w.store (past_csrf env r v run w).1.store
  past_csrf-Keeps forbidden run k = keeps j w.store
  past_csrf-Keeps next run k = k

  answered-world : (a : Response Reply × World) → (answered env r a).1 ≡ a.1
  unfolding answered
  answered-world (a, v) = refl

  dispatched-Keeps :
      (route : UserRoute) (c : Claims)
      → require_auth env.auth.jwt env.auth.secret env.auth.now r ≡ granted c
      → Hidden env.auth.db j (some c) w.store
      → any (λ srv. srv.id == j) w.store.servers ≡ true
      → Keeps j w.store (dispatch env r (as_user route) w).1.store
  unfolding dispatch behind
  dispatched-Keeps route c signed_in hidden there =
      rw (signed_in, behind, answered-world (run_user env r route (some c) w))
        (run_user-Keeps env r (some c) j w route hidden there)

module _ (env : ServerEnv) (r : Request) where
  abbrev pub user_access : Access
  user_access = require_auth env.auth.jwt env.auth.secret env.auth.now r

  abbrev pub admin_access : Access
  admin_access = require_admin env.auth.jwt env.auth.secret env.auth.now r

  -- A request of a user who has an identifier and is no admin leaves every server of the table that
  -- only others own as it is: its row, its private key and its host key. This holds for all modelled
  -- routes behind `RequireAuth`, whatever the remote hosts, the engine and the libraries do.
  pub serve_request-foreign :
      (route : UserRoute) (w : World) (c : Claims) (j : String)
      → user_access ≡ granted c
      → c.role ≢ role_admin
      → c.user_id ≢ ""
      → AllForeign j c.user_id w.store.servers
      → any (λ srv. srv.id == j) w.store.servers ≡ true
      → Keeps j w.store (serve_request env r (as_user route) w).1.store
  unfolding serve_request
  serve_request-foreign route w c j signed_in plain named foreign there =
      past_csrf-Keeps env r j w (csrf_protect server_exemptions r) (dispatch env r (as_user route))
        (dispatched-Keeps env r j w route c signed_in
          (foreign-Hidden env.auth.db j (some c) w.store (own_id plain named)
            (own_rows plain foreign))
          there)
    where
      own : c.role ≢ role_admin → owner_of (some c) ≡ c.user_id
      own plain = rw (str_ne c.role role_admin plain) refl

      own_id : c.role ≢ role_admin → c.user_id ≢ "" → owner_of (some c) ≢ ""
      own_id plain named = subst (λ o. o ≢ "") (sym (own plain)) named

      own_rows :
          c.role ≢ role_admin
          → AllForeign j c.user_id w.store.servers
          → AllForeign j (owner_of (some c)) w.store.servers
      own_rows plain foreign = subst (λ o. AllForeign j o w.store.servers) (sym (own plain)) foreign

  abbrev pub Refuses : World → ℕ → Answer × World → Type 0
  Refuses w code result =
      (result ≡ (some (refusal env r code), w)) ⊎ (result ≡ (some (csrf_refusal env r), w))

  past_csrf-Refuses :
      (v : Verdict) (run : World → Answer × World) (w : World) (code : ℕ)
      → run w ≡ (some (refusal env r code), w)
      → Refuses w code (past_csrf env r v run w)
  past_csrf-Refuses forbidden run w code h = inr refl
  past_csrf-Refuses next run w code h = inl h

  -- The answer of the guard of a route, and the route.
  abbrev pub access_of : UserRoute ⊎ AdminRoute → Access
  access_of (inl route) = user_access
  access_of (inr route) = admin_access

  abbrev pub guarded : UserRoute ⊎ AdminRoute → Route
  guarded (inl route) = as_user route
  guarded (inr route) = as_admin route

  -- A request for a route behind `RequireAuth` or `RequireAdmin` that the guard of the route does not
  -- let through is answered by the refusal, that of the guard or that of the CSRF check, and changes
  -- nothing.
  pub serve_request-denied :
      (route : UserRoute ⊎ AdminRoute) (w : World) (code : ℕ) (label : Option String)
      → access_of route ≡ denied code label
      → Refuses w code (serve_request env r (guarded route) w)
  unfolding serve_request dispatch
  serve_request-denied (inl route) w code label h =
      past_csrf-Refuses (csrf_protect server_exemptions r) (dispatch env r (as_user route)) w code
        (rw (h, behind) refl)
  serve_request-denied (inr route) w code label h =
      past_csrf-Refuses (csrf_protect server_exemptions r) (dispatch env r (as_admin route)) w code
        (rw (h, behind) refl)
