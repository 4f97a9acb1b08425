-- ===== src/Session/Manager/Tests.antt =====
-- A round of polling for a host that presents another key than the stored one.
use agentic_hive.Prelude.{◌≡◌, true, [], ◌∷◌, none, some, lookup}
use agentic_hive.Store.{working}
use agentic_hive.Store.Tests.{store, web}
use agentic_hive.Keystore.{local}
use agentic_hive.Pool.{Pool, PoolEnv}
use agentic_hive.Session.Manager.{Manager, Remote, get_sessions, list_sessions, poll_server}
use agentic_hive.Session.Manager.Polling.{refreshed, count, poll_server-cache}

abbrev env : PoolEnv
env = record {
  db = working;
  cipher = record {
    derive = λ secret salt. salt;
    seal = λ key nonce plain. plain;
    decrypt = λ key nonce sealed. some sealed;
  };
  keystore = local "secret";
  fingerprint = λ key. "print";
  now = 50;
}

abbrev changed : Remote
changed = record {
  first = record { parses = λ key. true; presented = some (8 ∷ []); client = some 3 };
  again = record { parses = λ key. true; presented = some (8 ∷ []); client = some 3 };
  gives_session = λ c. true;
  runs = λ c line. true;
  stdout = λ line. [];
}

abbrev empty_pool : Pool
empty_pool = record { conns = []; raised = 0; lowered = 0; opened = [] }

abbrev manager : Manager
manager = record { sessions = []; interval = none; active = [] }

poll_server-cache_example :
    let listed = (list_sessions env changed web empty_pool store).0 in
    let m' = (poll_server env changed web manager empty_pool store).0 in
    (get_sessions "v1" m' ≡ refreshed listed (get_sessions "v1" manager))
    × (lookup "v1" m'.active ≡ some (count listed))
poll_server-cache_example = poll_server-cache env web manager changed empty_pool store
