-- ===== src/RateLimit/Expiry.antt =====
-- The expiry of attempts, against a filter that looks at every attempt, and the order of trackers.
use agentic_hive.Prelude.{
  ℕ, ◌+◌, ◌≤◌, ◌≡◌, refl, Bool, not, List, [], ◌∷◌, ◌++◌, arith, ltb, length, select,
}
use agentic_hive.RateLimit.{filter_expired}

-- The times rise along the list, from `low` up to `high`.
abbrev pub Between : ℕ → ℕ → List ℕ → Type 0
Between low high [] = low ≤ high
Between low high (t ∷ ts) = (low ≤ t) × Between t high ts

-- An attempt counts up to and with the end of its window.
abbrev pub in_window : ℕ → ℕ → ℕ → Bool
in_window now window t = not (ltb (t + window) now)

pub Between-le : (low high : ℕ) (ts : List ℕ) → Between low high ts → low ≤ high
Between-le low high [] h = h
Between-le low high (t ∷ ts) (p, h) = omega (arith, Between-le t high ts h)

pub Between-mono :
    (low high low' high' : ℕ) (ts : List ℕ)
    → low' ≤ low
    → high ≤ high'
    → Between low high ts
    → Between low' high' ts
Between-mono low high low' high' [] p q h = omega arith
Between-mono low high low' high' (t ∷ ts) p q (r, h) =
    (omega arith, Between-mono t high t high' ts (omega arith) q h)

pub Between-append :
    (low high now : ℕ) (ts : List ℕ)
    → Between low high ts
    → high ≤ now
    → Between low now (ts ++ now ∷ [])
Between-append low high now [] h p = (omega arith, omega arith)
Between-append low high now (t ∷ ts) (q, h) p = (q, Between-append t high now ts h p)

pub select-all_in_window :
    (now window low high : ℕ) (ts : List ℕ)
    → now ≤ low + window
    → Between low high ts
    → select (in_window now window) ts ≡ ts
select-all_in_window now window low high [] p h = refl
select-all_in_window now window low high (t ∷ ts) p (q, h) =
    ground (arith, select-all_in_window now window t high ts (omega arith) h)

-- On a tracker whose attempts are in the order of time, stopping at the first attempt in the
-- window keeps exactly the attempts in the window.
pub filter_expired-eq-select :
    (now window low high : ℕ) (ts : List ℕ)
    → Between low high ts
    → filter_expired ts now window ≡ select (in_window now window) ts
unfolding filter_expired
filter_expired-eq-select now window low high [] h = refl
filter_expired-eq-select now window low high (t ∷ ts) (p, h) = ground (
  arith,
  filter_expired-eq-select now window t high ts h,
  select-all_in_window now window t high ts,
)

pub filter_expired-Between :
    (now window low high : ℕ) (ts : List ℕ)
    → Between low high ts
    → Between low high (filter_expired ts now window)
unfolding filter_expired
filter_expired-Between now window low high [] h = h
filter_expired-Between now window low high (t ∷ ts) (p, h) = ground (
  arith,
  Between-mono t high low high (filter_expired ts now window),
  filter_expired-Between now window t high ts h,
)

pub length-filter_expired :
    (ts : List ℕ) (now window : ℕ) → length (filter_expired ts now window) ≤ length ts
unfolding filter_expired
length-filter_expired [] now window = omega arith
length-filter_expired (t ∷ ts) now window = ground (arith, length-filter_expired ts now window)

-- Expiring at an earlier time first changes nothing.
pub filter_expired-filter_expired :
    (ts : List ℕ) (earlier now window : ℕ)
    → earlier ≤ now
    → filter_expired (filter_expired ts earlier window) now window ≡ filter_expired ts now window
unfolding filter_expired
filter_expired-filter_expired [] earlier now window h = refl
filter_expired-filter_expired (t ∷ ts) earlier now window h =
    ground (arith, filter_expired-filter_expired ts earlier now window h)

-- An attempt that is kept was in the window.
pub filter_expired-head :
    (ts rest : List ℕ) (t now window : ℕ)
    → filter_expired ts now window ≡ t ∷ rest
    → now ≤ t + window
unfolding filter_expired
filter_expired-head [] rest t now window h = cc
filter_expired-head (s ∷ ts) rest t now window h =
    ground (arith, filter_expired-head ts rest t now window)
