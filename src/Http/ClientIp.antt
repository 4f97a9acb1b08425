-- ===== src/Http/ClientIp.antt =====
-- The client's address: `clientIP` of internal/server/clientip.go, its two copies in internal/auth,
-- `extractIP` of the rate limiter, and the one of internal/terminal/bridge.go, which differs.

pub mod Agreement
mod Tests
use agentic_hive.Prelude.{
  ℕ, String, Bool, true, false, ◌||◌, ◌&&◌, not, Option, none, some, List, [], ◌∷◌, ◌++◌, ◌==◌,
  if◌then◌else◌,
}
use agentic_hive.Text.{Text, codes, trim_space, contains, before, cut, cut_last}
use agentic_hive.Http.{Request, header, is_empty}

abbrev starts_with_code : ℕ → Text → Bool
starts_with_code x [] = false
starts_with_code x (c ∷ s) = c == x

abbrev tail : Text → Text
tail [] = []
tail (c ∷ s) = s

-- `[host]:port`, after the bracket: `none` unless the text is bracketed up to its last colon.
abbrev split_bracketed : Option (Text × Text) → Text → Option Text
split_bracketed none port = none
split_bracketed (some (host, [])) port =
    if contains b'[' host || contains b'[' port || contains b']' port then none else some host
split_bracketed (some (host, c ∷ rest)) port = none

split_at_colon : Text → Option (Text × Text) → Option Text
split_at_colon s none = none
split_at_colon s (some (left, port)) =
    if starts_with_code b'[' left
    then split_bracketed (cut b']' (tail left)) port
    else if contains b':' left || contains b'[' s || contains b']' s
    then none
    else some left

-- The host that `net.SplitHostPort` returns, `none` where it returns an error.
pub split_host_port : Text → Option Text
unfolding split_at_colon
split_host_port s = split_at_colon s (cut_last b':' s)

abbrev or_whole : Text → Option Text → Text
or_whole s none = s
or_whole s (some host) = host

-- `extractIP`
pub extract_ip : Request → Text
extract_ip r = or_whole (codes r.remote_addr) (split_host_port (codes r.remote_addr))

-- The headers of a proxy, the first entry of a list of addresses.
forwarded : Request → Text → Text
forwarded r direct =
    if not (is_empty (header r "X-Forwarded-For"))
    then trim_space (before b',' (codes (header r "X-Forwarded-For")))
    else if not (is_empty (header r "X-Real-IP"))
    then trim_space (codes (header r "X-Real-IP"))
    else direct

-- `clientIP` of the server, `clientIPFromRequest` and `clientIPAuth`.
pub client_ip : Request → Text
unfolding forwarded
client_ip r = forwarded r (extract_ip r)

-- The port is stripped at the last colon, whatever stands before it.
abbrev or_left : Text → Option (Text × Text) → Text
or_left s none = s
or_left s (some (left, port)) = left

pub terminal_client_ip : Request → Text
unfolding forwarded
terminal_client_ip r =
    forwarded r (or_left (codes r.remote_addr) (cut_last b':' (codes r.remote_addr)))
