-- ===== src/Pool/Tests.antt =====
-- Connections to one host that presents one key.
use agentic_hive.Prelude.{ℕ, ◌+◌, ◌≡◌, ◌⊎◌, refl, err, List, [], ◌∷◌, true, some, lookup}
use agentic_hive.Store.{Engine, HostKey, working}
use agentic_hive.Store.Tests.{store}
use agentic_hive.Store.Servers.{get_server}
use agentic_hive.Store.HostKeys.{get_host_key}
use agentic_hive.Keystore.{local, get_key}
use agentic_hive.Pool.{Pool, Attempt, PoolEnv, ConnectError, host_key_callback, connect, close}
use agentic_hive.Pool.Pinning.{after, connect-pinned}
use agentic_hive.Pool.HostKeys.{Remembers, connect-Remembers}
use agentic_hive.Pool.Counting.{IsCounted, close_empties}

abbrev env_on : Engine → PoolEnv
env_on db = record {
  db = db;
  cipher = record {
    derive = λ secret salt. salt;
    seal = λ key nonce plain. plain;
    decrypt = λ key nonce sealed. some sealed;
  };
  keystore = local "secret";
  fingerprint = λ key. "print";
  now = 50;
}

abbrev env : PoolEnv
env = env_on working

abbrev reached : Attempt
reached = record { parses = λ key. true; presented = some (7 ∷ []); client = some 3 }

connect-Remembers_example :
    (key : List ℕ) × (some (7 ∷ []) ≡ some key)
    × Remembers "v1" key (connect env "v1" reached store).1
unfolding connect get_server get_key get_host_key host_key_callback lookup
connect-Remembers_example = connect-Remembers env "v1" reached store 3 refl

-- The host of the server presents another key, and then the one that is stored.
abbrev stored_key : HostKey
stored_key = record { host_key = 7 ∷ []; fingerprint = "f" }

abbrev impostor : Attempt
impostor = record { parses = λ key. true; presented = some (8 ∷ []); client = some 4 }

connect-pinned_example :
    let s' = after env "v1" (impostor ∷ []) store in
    (lookup "v1" s'.host_keys ≡ some stored_key)
    × (((e : ConnectError) × ((connect env "v1" reached s').0 ≡ err e))
        ⊎ (reached.presented ≡ some stored_key.host_key))
unfolding lookup
connect-pinned_example = connect-pinned env "v1" stored_key refl (impostor ∷ []) reached store refl

abbrev connected : Pool
connected = record { conns = ("v1", 2) ∷ []; raised = 1; lowered = 0; opened = 2 ∷ [] }

connected-IsCounted : IsCounted connected
connected-IsCounted = record { distinct = (tt, tt); counted = refl }

close_empties_example :
    ((close connected).conns ≡ []) × ((close connected).raised + 0 ≡ (close connected).lowered + 0)
close_empties_example = close_empties connected connected-IsCounted
