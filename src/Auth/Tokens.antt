-- ===== src/Auth/Tokens.antt =====
-- `SignJWT` and `VerifyJWT` of internal/auth/auth.go, over the JWT library as a parameter.
pub mod Lifetime
use agentic_hive.Prelude.{
  ℕ, ◌+◌, ◌≤◌, ◌<◌, ◌≡◌, String, Bool, true, false, Option, none, some, if◌then◌else◌, Result, ok,
  err,
}
use agentic_hive.Auth.Cookies.{session_ttl}

pub record Claims : Type 0 where
  pub user_id : String
  pub username : String
  pub role : String

-- `Claims` with the registered claims that `SignJWT` fills in; times in seconds.
pub record SignedClaims : Type 0 where
  pub claims : Claims
  pub expires_at : ℕ
  pub issued_at : ℕ

-- The two kinds of parse error that `jwtFailureReason` tells apart.
pub data JwtError : Type 0 where
  token_expired token_invalid : JwtError

-- github.com/golang-jwt/jwt: `sign` is HS256, and `parse` asks its caller for the key of the
-- token's signing method (here: whether that is an HMAC method), checks signature and times at the
-- given time, and tells whether the token is valid.
pub record JwtLibrary : Type 0 where
  pub sign : SignedClaims → String → Option String
  pub parse : (Bool → Option String) → ℕ → String → Result JwtError (SignedClaims × Bool)

-- What the library documents of a token that it signed itself.
pub record IsFaithful (jwt : JwtLibrary) : Type 0 where
  pub parse_signed :
      (c : SignedClaims) (secret token : String) (key : Bool → Option String) (now : ℕ)
      → jwt.sign c secret ≡ some token
      → key true ≡ some secret
      → now < c.expires_at
      → jwt.parse key now token ≡ ok (c, true)
  pub parse_expired :
      (c : SignedClaims) (secret token : String) (key : Bool → Option String) (now : ℕ)
      → jwt.sign c secret ≡ some token
      → key true ≡ some secret
      → c.expires_at ≤ now
      → jwt.parse key now token ≡ err token_expired

-- Only HMAC methods get the key.
abbrev pub key_for : String → Bool → Option String
key_for secret true = some secret
key_for secret false = none

verified : Result JwtError (SignedClaims × Bool) → Result JwtError Claims
verified (err e) = err e
verified (ok (c, valid)) = if valid then ok c.claims else err token_invalid

module _ (jwt : JwtLibrary) where
  -- `now` is the time at which the token is signed.
  unfoldable pub sign_jwt : Claims → String → ℕ → ℕ → Option String
  sign_jwt c secret ttl now =
      jwt.sign (record { claims = c; expires_at = now + ttl; issued_at = now }) secret

  unfoldable pub verify_jwt : String → String → ℕ → Result JwtError Claims
  unfolding verified
  verify_jwt token secret now = verified (jwt.parse (key_for secret) now token)
