-- ===== src/Auth/Tokens/Lifetime.antt =====
-- A session token stands for its claims as long as `SessionTTL`, and not longer.
use agentic_hive.Prelude.{ℕ, ◌+◌, ◌≤◌, ◌<◌, ◌≡◌, refl, String, some, ok, err}
use agentic_hive.Auth.Tokens.{
  Claims, JwtLibrary, IsFaithful, token_expired, key_for, sign_jwt, verify_jwt,
}

-- With a JWT library that does what it documents, a token that was signed at a time gives its
-- claims back until the time to live has passed, and is refused as expired from then on.
pub verify_jwt-sign_jwt :
    (jwt : JwtLibrary) (faithful : IsFaithful jwt) (c : Claims) (secret token : String)
    (ttl signed now : ℕ)
    → sign_jwt jwt c secret ttl signed ≡ some token
    → (now < signed + ttl → verify_jwt jwt token secret now ≡ ok c)
      × (signed + ttl ≤ now → verify_jwt jwt token secret now ≡ err token_expired)
unfolding sign_jwt verify_jwt
verify_jwt-sign_jwt jwt faithful c secret token ttl signed now e = (
  λ early. rw (faithful.parse_signed _ secret token (key_for secret) now e refl early) refl,
  λ late. rw (faithful.parse_expired _ secret token (key_for secret) now e refl late) refl,
)
