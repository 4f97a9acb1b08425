-- ===== src/RateLimit/Clearing.antt =====
-- What the expiry of attempts and the clean-up leave.
use agentic_hive.Prelude.{
  ℕ, ◌≤◌, ◌≡◌, String, List, [], ◌∷◌, ◌++◌, arith, if◌then◌else◌, HasDistinctKeys, IsFresh,
}
use agentic_hive.RateLimit.{filter_expired, cleanup_trackers, is_empty}
use agentic_hive.RateLimit.Decisions.{settled}

pub filter_expired-append :
    (ts : List ℕ) (now window t : ℕ)
    → now ≤ t
    → filter_expired (ts ++ t ∷ []) now window ≡ filter_expired ts now window ++ t ∷ []
unfolding filter_expired
filter_expired-append [] now window t h = ground arith
filter_expired-append (s ∷ ts) now window t h =
    ground (arith, filter_expired-append ts now window t)

pub filter_expired-settled :
    (ts : List ℕ) (now window code t : ℕ)
    → now ≤ t
    → settled (filter_expired ts now window) code t ≡ filter_expired (settled ts code t) now window
unfolding filter_expired
filter_expired-settled ts now window code t h =
    ground (arith, filter_expired-append ts now window t h)

pub cleanup-IsFresh :
    (k : String) (m : List (String × List ℕ)) (now window : ℕ)
    → IsFresh k m
    → IsFresh k (cleanup_trackers m now window)
unfolding cleanup_trackers
cleanup-IsFresh k [] now window h = tt
cleanup-IsFresh k ((ip, ts) ∷ m) now window (f, h) =
    kept (filter_expired ts now window) (cleanup-IsFresh k m now window h)
  where
    kept :
        (live : List ℕ)
        → IsFresh k (cleanup_trackers m now window)
        → IsFresh k (
            if is_empty live
            then cleanup_trackers m now window
            else (ip, live) ∷ cleanup_trackers m now window)
    kept [] rest = rest
    kept (t ∷ live) rest = (f, rest)

pub cleanup-HasDistinctKeys :
    (m : List (String × List ℕ)) (now window : ℕ)
    → HasDistinctKeys m
    → HasDistinctKeys (cleanup_trackers m now window)
unfolding cleanup_trackers
cleanup-HasDistinctKeys [] now window h = tt
cleanup-HasDistinctKeys ((ip, ts) ∷ m) now window (f, h) =
    kept (filter_expired ts now window) (cleanup-IsFresh ip m now window f)
      (cleanup-HasDistinctKeys m now window h)
  where
    kept :
        (live : List ℕ)
        → IsFresh ip (cleanup_trackers m now window)
        → HasDistinctKeys (cleanup_trackers m now window)
        → HasDistinctKeys (
            if is_empty live
            then cleanup_trackers m now window
            else (ip, live) ∷ cleanup_trackers m now window)
    kept [] fresh rest = rest
    kept (t ∷ live) fresh rest = (fresh, rest)
