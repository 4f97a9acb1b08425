-- ===== src/Http/ClientIp/Agreement.antt =====
-- Where the two readings of the client's address agree, and where they differ.
use agentic_hive.Prelude.{ℕ, ◌≡◌, refl, ap, false, some, [], ◌∷◌, ◌++◌, arith, ◌==◌}
use agentic_hive.Text.{Text, codes, contains}
use agentic_hive.Text.Searching.{cut_last-append, cut-append}
use agentic_hive.Http.{Request, header}
use agentic_hive.Http.ClientIp.{
  starts_with_code, split_host_port, extract_ip, client_ip, terminal_client_ip,
}

-- A text with none of the characters that tell an IPv6 address.
abbrev pub IsPlain : Text → Type 0
IsPlain s = (contains b':' s ≡ false) × (contains b'[' s ≡ false) × (contains b']' s ≡ false)

-- No proxy has put a header on the request.
abbrev pub IsDirect : Request → Type 0
IsDirect r = (header r "X-Forwarded-For" ≡ "") × (header r "X-Real-IP" ≡ "")

contains-join :
    (x : ℕ) (host port : Text)
    → contains x host ≡ false
    → contains x port ≡ false
    → (b':' == x) ≡ false
    → contains x (host ++ b':' ∷ port) ≡ false
unfolding contains
contains-join x [] port h k n = ground arith
contains-join x (c ∷ host) port h k n = ground (arith, contains-join x host port)

starts_with_code-contains : (x : ℕ) (s : Text) → contains x s ≡ false → starts_with_code x s ≡ false
unfolding contains
starts_with_code-contains x [] h = refl
starts_with_code-contains x (c ∷ s) h = ground arith

-- `host:port` splits into its host.
pub split_host_port-plain :
    (host port : Text)
    → IsPlain host
    → IsPlain port
    → split_host_port (host ++ b':' ∷ port) ≡ some host
unfolding split_host_port
split_host_port-plain host port (colon, open', close) (colon', open'', close') =
    rw (cut_last-append b':' host port colon') (
      ground (
        arith,
        starts_with_code-contains b'[' host open',
        contains-join b'[' host port open' open'' refl,
        contains-join b']' host port close close' refl,
      ))

regroup : (a : Text) (x y : ℕ) (c : Text) → a ++ x ∷ y ∷ c ≡ (a ++ x ∷ []) ++ y ∷ c
regroup [] x y c = refl
regroup (d ∷ a) x y c = ap (λ s. d ∷ s) (regroup a x y c)

-- `[host]:port` splits into the host between the brackets.
pub split_host_port-bracketed :
    (host port : Text)
    → contains b'[' host ≡ false
    → contains b']' host ≡ false
    → IsPlain port
    → split_host_port (b'[' ∷ host ++ b']' ∷ b':' ∷ port) ≡ some host
unfolding split_host_port
split_host_port-bracketed host port h k (colon, open', close) =
    rw
      (
        ap (λ s. b'[' ∷ s) (regroup host b']' b':' port),
        cut_last-append b':' (b'[' ∷ host ++ b']' ∷ []) port colon,
        cut-append b']' host [] k,
      )
      (ground arith)

-- The address that the audit entries of a request carry. With no proxy in between, for a peer with
-- an IPv4 address the server's and the terminal's reading are that address. For a peer with an IPv6
-- address the server writes it without its brackets and the terminal with them.
pub client_ip_readings :
    (r : Request) (host port : Text)
    → IsDirect r
    → IsPlain port
    → contains b'[' host ≡ false
    → contains b']' host ≡ false
    → (codes r.remote_addr ≡ host ++ b':' ∷ port
        → contains b':' host ≡ false
        → (client_ip r ≡ host) × (terminal_client_ip r ≡ host))
      × (codes r.remote_addr ≡ b'[' ∷ host ++ b']' ∷ b':' ∷ port
          → (client_ip r ≡ host) × (terminal_client_ip r ≡ b'[' ∷ host ++ b']' ∷ []))
unfolding client_ip terminal_client_ip extract_ip
client_ip_readings r host port (no_list, no_real) plain h k = (
  λ e colon. (
    rw (no_list, no_real, e, split_host_port-plain host port (colon, h, k) plain) refl,
    rw (no_list, no_real, e, cut_last-append b':' host port plain.0) refl,
  ),
  λ e. (
    rw (no_list, no_real, e, split_host_port-bracketed host port h k plain) refl,
    rw
        (
          no_list,
          no_real,
          e,
          ap (λ s. b'[' ∷ s) (regroup host b']' b':' port),
          cut_last-append b':' (b'[' ∷ host ++ b']' ∷ []) port plain.0,
        )
        refl,
  ),
)
