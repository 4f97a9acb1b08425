-- ===== src/Auth/Oidc/Callback.antt =====
-- What an OIDC sign-in needs, and what it gives.
use text.Mathlib.Text.{◌==◌}
use mathlib.Core.List.{Memᴰ, Mem}
use mathlib.Core.HLevel.{⊥_prop}
use mathlib.Core.Bool.{Bool-set}
use mathlib.Core.Logic.{∥∥₁_elim, ∥∥₁_map, ◌↔◌}
use agentic_hive.Prelude.{
  String, ◌≡◌, refl, sym, ap, ◌≢◌, ◌⊎◌, inl, inr, Bool, true, false, Option, none, some, List, [],
  ◌∷◌, arith, Result, ok, err, Bool-cases, eq_iff, any, str_ne,
}
use agentic_hive.Http.{Request, param, cookie, is_empty, lax, Response, failed}
use agentic_hive.Store.{User, Store, StoreError, role_admin, role_user}
use agentic_hive.Store.Users.{upsert_oidc_user}
use agentic_hive.Store.Users.Subjects.{IsUserOf, upsert_oidc_user-IsUserOf}
use agentic_hive.Auth.Cookies.{session_cookie, csrf_cookie, session_ttl}
use agentic_hive.Auth.Tokens.{sign_jwt}
use agentic_hive.Auth.Local.{AuthEnv, claims_of}
use agentic_hive.Auth.Oidc.{
  Claim, IdToken, OidcHandler, username_of, role_of, cleared_state_cookie, handle_callback,
  with_raw, with_id_token, with_claims, signed_in, finish_token, finish_csrf, state_ok,
  claim_string_slice,
}

-- A sign-in with a state that differs from the cookie of the browser, or with no such cookie, is
-- refused before the provider is asked, and changes nothing.
pub handle_callback-state :
    (env : AuthEnv) (r : Request) (h : OidcHandler) (s : Store)
    → cookie r "oidc_state" ≢ some (param r "state")
    → handle_callback env r h s ≡ (failed 400 "invalid state", s)
unfolding handle_callback
handle_callback-state env r h s differs =
    let refused' : state_ok env r h (cookie r "oidc_state") ≡ false =
      state_ok-false (cookie r "oidc_state") differs in
    rw refused' refl
  where
    state_ok-false : (o : Option String) → o ≢ some (param r "state") → state_ok env r h o ≡ false
    state_ok-false none d = refl
    state_ok-false (some v) d = str_ne v (param r "state") (λ e. d (ap some e))

module _ (env : AuthEnv) (r : Request) where
  -- A session for a user: the token is signed for the user, and the cookies are set.
  abbrev pub SignedIn : User → Response String → Type 0
  SignedIn u resp =
      (token : String) × (csrf : String) × (sign_jwt env.jwt (claims_of u) env.secret session_ttl
          env.now
        ≡ some token)
      × (resp.cookies ≡ cleared_state_cookie ∷ session_cookie token lax ∷ csrf_cookie csrf ∷ [])

  finish_csrf-SignedIn :
      (u : User) (token : String) (csrf : Option String) (s : Store)
      → sign_jwt env.jwt (claims_of u) env.secret session_ttl env.now ≡ some token
      → (finish_csrf env r u (session_cookie token lax) csrf s).0.status ≡ 302
      → SignedIn u (finish_csrf env r u (session_cookie token lax) csrf s).0
  unfolding finish_csrf
  finish_csrf-SignedIn u token none s e h = absurd (omega arith)
  finish_csrf-SignedIn u token (some csrf) s e h = (token, csrf, e, refl)

  finish_token-SignedIn :
      (u : User) (token : Option String) (s : Store)
      → sign_jwt env.jwt (claims_of u) env.secret session_ttl env.now ≡ token
      → (finish_token env r u token s).0.status ≡ 302
      → SignedIn u (finish_token env r u token s).0
  unfolding finish_token
  finish_token-SignedIn u none s e h = absurd (omega arith)
  finish_token-SignedIn u (some token) s e h = finish_csrf-SignedIn u token env.csrf_token s e h

  signed_in-SignedIn :
      (result : Result StoreError User × Store)
      → (signed_in env r result).0.status ≡ 302
      → (u : User) × (result.0 ≡ ok u) × SignedIn u (signed_in env r result).0
  unfolding signed_in
  signed_in-SignedIn (err e, s) h = absurd (omega arith)
  signed_in-SignedIn (ok u, s) h = (u, refl, finish_token-SignedIn u _ s refl h)

  module _ (h : OidcHandler) where
    -- What a sign-in that is answered by a redirect rests on.
    abbrev pub Verified : Store → Option (Option String) → Response String → Type 0
    Verified s exchanged resp =
        (raw : String) × (t : IdToken) × (claims : List (String × Claim)) × (u : User) × (exchanged
          ≡ some (some raw))
        × (h.provider.verify raw ≡ some t)
        × (t.claims ≡ some claims)
        × IsUserOf t.subject (username_of claims t.subject) (role_of h claims) u
        × SignedIn u resp

    with_raw-Verified :
        (exchanged : Option (Option String)) (s : Store)
        → (with_raw env r h exchanged s).0.status ≡ 302
        → Verified s exchanged (with_raw env r h exchanged s).0
    unfolding with_raw
    with_raw-Verified none s e = absurd (omega arith)
    with_raw-Verified (some none) s e = absurd (omega arith)
    with_raw-Verified (some (some raw)) s e = verified (h.provider.verify raw) refl e
      where
        claimed :
            (t : IdToken) (c : Option (List (String × Claim)))
            → h.provider.verify raw ≡ some t
            → t.claims ≡ c
            → (with_claims env r h t.subject c s).0.status ≡ 302
            → Verified s (some (some raw)) (with_claims env r h t.subject c s).0
        claimed t none v c' e' = absurd (omega arith)
        claimed t (some claims) v c' e' =
            let (u, made, signed) =
              signed_in-SignedIn
                (upsert_oidc_user env.db env.new_id t.subject (username_of claims t.subject)
                  (role_of h claims) env.now s)
                e' in
            (
              raw,
              t,
              claims,
              u,
              refl,
              v,
              c',
              upsert_oidc_user-IsUserOf env.db env.new_id t.subject (username_of claims t.subject)
                  (role_of h claims) env.now s u made,
              signed,
            )

        verified :
            (o : Option IdToken)
            → h.provider.verify raw ≡ o
            → (with_id_token env r h o s).0.status ≡ 302
            → Verified s (some (some raw)) (with_id_token env r h o s).0
        verified none v e' = absurd (omega arith)
        verified (some t) v e' = claimed t t.claims v refl e'

    -- A sign-in that is answered by a redirect came with the state of the browser's cookie and a
    -- code; the provider exchanged the code for an ID token that the verifier accepts; and the
    -- session is for the user of the token's subject, under the name and the role that its claims
    -- give.
    pub handle_callback_sound :
        (s : Store)
        → (handle_callback env r h s).0.status ≡ 302
        → (cookie r "oidc_state" ≡ some (param r "state"))
          × (param r "code" ≢ "")
          × Verified s (h.provider.exchange (param r "code")) (handle_callback env r h s).0
    unfolding handle_callback
    handle_callback_sound s e = elim (Bool-cases (state_ok env r h (cookie r "oidc_state"))) [
      | inr differs ↦ let bad = rw (differs, handle_callback) at e in absurd (omega (arith, bad))
      | inl same ↦ elim (Bool-cases (is_empty (param r "code"))) [
        | inl missing ↦
            let bad = rw (same, missing, handle_callback) at e in absurd (omega (arith, bad))
        | inr given ↦ (
          state_same (cookie r "oidc_state") same,
          λ none_sent. cc (given, (eq_iff (param r "code") "").1 none_sent),
          rw (same, given)
              (with_raw-Verified (h.provider.exchange (param r "code")) s
                (rw (same, given, handle_callback) at e)),
        )
      ]
    ]
      where
        state_same : (o : Option String) → state_ok env r h o ≡ true → o ≡ some (param r "state")
        state_same none c = cc
        state_same (some v) c = ap some ((eq_iff v (param r "state")).0 c)

any-text :
    (group : String) (groups : List String)
    → (any (λ g. g == group) groups ≡ true) ↔ ∥ Memᴰ group groups ∥₁
any-text group [] = (λ h. cc, λ m. absurd (∥∥₁_elim m ⊥_prop λ d. elim d [ ]))
any-text group (g ∷ groups) = (
  λ h. elim (Bool-cases (g == group)) [
    | inl hit ↦ ∣ Memᴰ.head (sym ((eq_iff g group).0 hit)) ∣₁
    | inr miss ↦ ∥∥₁_map ((any-text group groups).0 (ground arith)) Memᴰ.tail
  ],
  λ m. ∥∥₁_elim m (Bool-set _ _) λ d. found d (λ e. (any-text group groups).1 ∣ e ∣₁),
)
  where
    found :
        Memᴰ group (g ∷ groups)
        → (Memᴰ group groups → any (λ x. x == group) groups ≡ true)
        → any (λ x. x == group) (g ∷ groups) ≡ true
    found (Memᴰ.head e) rest = ground (arith, (eq_iff g group).1 (sym e))
    found (Memᴰ.tail d) rest = ground (arith, rest d)

-- A sign-in gives the admin role exactly if the admin group is one of the texts of the roles claim,
-- and the role of a user otherwise.
pub role_of-admin_iff :
    (h : OidcHandler) (claims : List (String × Claim))
    → ((role_of h claims ≡ role_admin)
        ↔ Mem h.admin_group (claim_string_slice claims h.roles_claim))
      × ((role_of h claims ≡ role_admin) ⊎ (role_of h claims ≡ role_user))
unfolding role_of
role_of-admin_iff h claims =
    let (to, from) = any-text h.admin_group (claim_string_slice claims h.roles_claim) in
    elim (Bool-cases (any (λ g. g == h.admin_group) (claim_string_slice claims h.roles_claim))) [
      | inl member ↦ rw member ((λ e. to member, λ m. refl), inl refl)
      | inr outsider ↦ rw outsider (
        (λ e. absurd (user_not_admin e), λ m. absurd (contradiction (from m) outsider)),
        inr refl,
      )
    ]
  where
    user_not_admin : ◌≡◌ {A = String} role_user role_admin → ⊥
    user_not_admin e = ground (arith, eq_iff role_user role_admin)

    contradiction : {b : Bool} → b ≡ true → b ≡ false → ⊥
    contradiction p q = cc
