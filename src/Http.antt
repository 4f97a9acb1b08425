-- ===== src/Http.antt =====
-- The parts of net/http that the handlers read and write: requests as values, and what a handler
-- sends back. A body is the value that its JSON decodes to, so it is an argument of each handler.
pub mod ClientIp
use text.Mathlib.Text.{◌==◌, starts_with}
use agentic_hive.Prelude.{
  ℕ, String, Bool, true, false, Option, none, some, List, [], ◌∷◌, if◌then◌else◌, lookup, Result,
  ok, err,
}

pub record Request : Type 0 where
  pub method : String
  pub path : String
  pub query : List (String × String)
  pub headers : List (String × String)
  pub cookies : List (String × String)
  pub remote_addr : String

-- `Get` of a header or a query: the first value, or the empty text.
abbrev pub or_empty : Option String → String
or_empty none = ""
or_empty (some v) = v

abbrev pub header : Request → String → String
header r name = or_empty (lookup name r.headers)

abbrev pub param : Request → String → String
param r name = or_empty (lookup name r.query)

abbrev pub cookie : Request → String → Option String
cookie r name = lookup name r.cookies

abbrev pub is_empty : String → Bool
is_empty s = s == ""

-- A cookie that a handler sets; a `max_age` of `none` is negative and deletes the cookie.
pub data SameSite : Type 0 where
  same_site_default lax strict : SameSite

pub record SetCookie : Type 0 where
  pub name : String
  pub value : String
  pub path : String
  pub http_only : Bool
  pub secure : Bool
  pub same_site : SameSite
  pub max_age : Option ℕ

-- What a handler sends: a status, the cookies set up to then, and a body or the text of an error.
pub record Response {ℓ} (B : Type ℓ) : Type ℓ where
  pub status : ℕ
  pub cookies : List SetCookie
  pub body : Result String B

abbrev pub failed {ℓ} : {B : Type ℓ} → ℕ → String → Response B
failed code message = record { status = code; cookies = []; body = err message }

abbrev pub succeeded {ℓ} : {B : Type ℓ} → ℕ → B → Response B
succeeded code b = record { status = code; cookies = []; body = ok b }
