-- ===== src/Auth/Guards/Granting.antt =====
-- Who gets past the two middlewares.
use agentic_hive.Prelude.{ℕ, String, ◌≡◌, refl, ◌↔◌, Option, none, some, arith, eq_iff, ok}
use agentic_hive.Http.{Request, cookie}
use agentic_hive.Store.{role_admin}
use agentic_hive.Auth.Tokens.{Claims, JwtLibrary, verify_jwt}
use agentic_hive.Auth.Guards.{
  Access, denied, granted, require_auth, require_admin, cookie_access, admin_access,
}

module _ (jwt : JwtLibrary) (secret : String) (now : ℕ) (c : Claims) where
  cookie_access-granted_iff :
      (o : Option String)
      → (cookie_access jwt secret now o ≡ granted c)
        ↔ ((token : String) × (o ≡ some token) × (verify_jwt jwt token secret now ≡ ok c))
  unfolding cookie_access
  cookie_access-granted_iff none = (λ h. cc, λ h. cc (h.1))
  cookie_access-granted_iff (some token) =
      (λ h. (token, refl, ground arith), λ h. ground (arith, h.1, h.2))

-- `RequireAuth` goes on as a user exactly if the session cookie holds a token that verifies to it.
pub require_auth-granted_iff :
    (jwt : JwtLibrary) (secret : String) (now : ℕ) (r : Request) (c : Claims)
    → (require_auth jwt secret now r ≡ granted c) ↔ (
        (token : String) × (cookie r "session" ≡ some token)
        × (verify_jwt jwt token secret now ≡ ok c))
unfolding require_auth
require_auth-granted_iff jwt secret now r c =
    cookie_access-granted_iff jwt secret now c (cookie r "session")

admin_access_cases :
    (a : Access)
    → ((c : Claims) → (admin_access a ≡ granted c) ↔ ((a ≡ granted c) × (c.role ≡ role_admin)))
      × ((c : Claims) → a ≡ granted c → ¬ (c.role ≡ role_admin) → admin_access a ≡ denied 403 none)
      × ((code : ℕ) (label : Option String)
          → a ≡ denied code label
          → admin_access a ≡ denied code label)
admin_access_cases (denied code label) =
    (λ c. (λ h. cc, λ h. cc (h.0)), λ c e n. cc, λ code' label' e. e)
admin_access_cases (granted d) = (
  λ c. (
    λ h. (ground (arith, eq_iff d.role role_admin), ground (arith, eq_iff d.role role_admin)),
    λ h. ground (arith, h.0, h.1, eq_iff d.role role_admin),
  ),
  λ c e n. ground (arith, eq_iff d.role role_admin),
  λ code label e. cc,
)

-- `RequireAdmin` lets through exactly the users of `RequireAuth` that are admins, answers 403 to its
-- other users, and answers as `RequireAuth` does to everybody else.
pub require_admin_cases :
    (jwt : JwtLibrary) (secret : String) (now : ℕ) (r : Request)
    → ((c : Claims)
        → (require_admin jwt secret now r ≡ granted c)
          ↔ ((require_auth jwt secret now r ≡ granted c) × (c.role ≡ role_admin)))
      × ((c : Claims)
          → require_auth jwt secret now r ≡ granted c
          → ¬ (c.role ≡ role_admin)
          → require_admin jwt secret now r ≡ denied 403 none)
      × ((code : ℕ) (label : Option String)
          → require_auth jwt secret now r ≡ denied code label
          → require_admin jwt secret now r ≡ denied code label)
unfolding require_auth require_admin
require_admin_cases jwt secret now r =
    admin_access_cases (cookie_access jwt secret now (cookie r "session"))
