-- ===== src/Auth/Csrf/Soundness.antt =====
-- What the CSRF check lets through.
use text.Mathlib.Text.{starts_with}
use agentic_hive.Prelude.{
  String, ◌≡◌, ◌≢◌, ◌↔◌, inl, inr, Bool, true, false, not, ◌||◌, ◌&&◌, List, arith, if◌then◌else◌,
  eq_iff, Bool-cases,
}
use agentic_hive.Http.{Request, header, param}
use agentic_hive.Auth.Cookies.{read_csrf_cookie}
use agentic_hive.Auth.Csrf.{
  forbidden, has_session, matching, is_safe_method, is_exempt, csrf_protect,
}

-- The value that the page sends beside the cookie: a query parameter for a WebSocket, else a header.
abbrev pub sent_token : Request → String
sent_token r = if starts_with r.path "/ws/" then param r "csrf" else header r "X-CSRF-Token"

pub matching_iff :
    (sent stored : String) → (matching sent stored ≡ true) ↔ ((stored ≢ "") × (sent ≡ stored))
unfolding matching
matching_iff sent stored = (
  λ h. ground (arith, eq_iff stored "", eq_iff sent "", eq_iff sent stored),
  λ h. ground (arith, h.1, eq_iff stored "", eq_iff sent "", eq_iff sent stored),
)

-- A request is checked if no exemption fits its path, it carries a session, and it is a WebSocket or
-- has a method that is not safe.
abbrev pub is_checked : List String → Request → Bool
is_checked exempt r =
    not (is_exempt exempt r)
    && has_session r
    && (starts_with r.path "/ws/" || not (is_safe_method r.method))

decided :
    (exempt : List String) (r : Request)
    → (csrf_protect exempt r ≡ forbidden)
      ↔ ((is_checked exempt r ≡ true) × (matching (sent_token r) (read_csrf_cookie r) ≡ false))
unfolding csrf_protect
decided exempt r = (λ h. ground arith, λ h. ground arith)

-- The requests that are refused are exactly those that are checked and whose cookie is empty or
-- differs from the token that they send.
pub csrf_protect-forbidden_iff :
    (exempt : List String) (r : Request)
    → (csrf_protect exempt r ≡ forbidden) ↔ (
        (is_checked exempt r ≡ true)
        × ¬ ((read_csrf_cookie r ≢ "") × (sent_token r ≡ read_csrf_cookie r)))
csrf_protect-forbidden_iff exempt r =
    let (to, from) = decided exempt r in
    let (fits, fit) = matching_iff (sent_token r) (read_csrf_cookie r) in
    (
      λ h. ((to h).0, λ same. cc ((to h).1, fit same)),
      λ h. from (
        h.0,
        elim (Bool-cases (matching (sent_token r) (read_csrf_cookie r))) [
          | inl yes' ↦ absurd (h.1 (fits yes'))
          | inr no' ↦ no'
        ],
      ),
    )
