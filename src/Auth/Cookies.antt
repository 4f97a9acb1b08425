-- ===== src/Auth/Cookies.antt =====
-- The cookies of internal/auth/auth.go.
use agentic_hive.Prelude.{ℕ, String, true, false, none, some}
use agentic_hive.Http.{Request, cookie, or_empty, SetCookie, SameSite, strict}

-- Seconds; `SessionTTL` is the same time.
abbrev pub session_cookie_max_age : ℕ
session_cookie_max_age = 86400

abbrev pub session_ttl : ℕ
session_ttl = 86400

unfoldable pub session_cookie : String → SameSite → SetCookie
session_cookie token same_site = record {
  name = "session";
  value = token;
  path = "/";
  http_only = true;
  secure = true;
  same_site = same_site;
  max_age = some session_cookie_max_age;
}

-- JavaScript reads this one.
unfoldable pub csrf_cookie : String → SetCookie
csrf_cookie token = record {
  name = "csrf";
  value = token;
  path = "/";
  http_only = false;
  secure = true;
  same_site = strict;
  max_age = some session_cookie_max_age;
}

unfoldable pub cleared_session_cookie : SetCookie
cleared_session_cookie = record {
  name = "session";
  value = "";
  path = "/";
  http_only = true;
  secure = true;
  same_site = strict;
  max_age = none;
}

abbrev pub read_csrf_cookie : Request → String
read_csrf_cookie r = or_empty (cookie r "csrf")
