-- ===== src/RateLimit/Refinement.antt =====
-- The limiter lets through what its specification allows.
use agentic_hive.Prelude.{
  ℕ, ◌≤◌, ◌<◌, ◌≡◌, refl, sym, ap, subst, ◌*◌, ◌∙◌, inl, inr, Bool, true, false, List, [], ◌∷◌,
  arith, if◌then◌else◌, str_eq, Bool-cases, lookup,
}
use agentic_hive.RateLimit.{
  RateLimiter, new_rate_limiter, filter_expired, Verdict, allowed, limited, panics, hangs, check,
  settle, cleanup, Attempt, serve_on, serve, second,
}
use agentic_hive.RateLimit.Expiry.{Between, Between-mono, Between-append}
use agentic_hive.RateLimit.Decisions.{settled, attempts-settle, attempts-cleanup, settle_settings}
use agentic_hive.RateLimit.Invariant.{settle-HasDistinctKeys}
use agentic_hive.RateLimit.History.{
  Event, request, tick, is_allowed, decisions, History, recorded, allows, after_request, specified,
  InOrder,
}
use agentic_hive.RateLimit.Clearing.{filter_expired-settled, cleanup-HasDistinctKeys}
use agentic_hive.RateLimit.Refining.{Refines, live-history, decides, checked-Refines}

Refines-later :
    (limit window clock later : ℕ) (rl : RateLimiter) (h : History)
    → clock ≤ later
    → Refines limit window clock rl h
    → Refines limit window later rl h
Refines-later limit window clock later rl h le sim = record {
  distinct = sim.distinct;
  free = sim.free;
  same_limit = sim.same_limit;
  same_window = sim.same_window;
  ordered = λ ip. Between-mono 0 clock 0 later (h ip) (omega arith) le (sim.ordered ip);
  expired = λ ip. let (e, before, same) = sim.expired ip in (e, omega arith, same);
}

settled-Between :
    (ts : List ℕ) (clock code t : ℕ)
    → Between 0 clock ts
    → clock ≤ t
    → Between 0 t (settled ts code t)
settled-Between ts clock code t h le =
    ground (arith, Between-append 0 clock t ts h le, Between-mono 0 clock 0 t ts (omega arith) le h)

settle-Refines :
    (limit window clock : ℕ) (rl : RateLimiter) (h : History) (a : Attempt)
    → Refines limit window clock rl h
    → clock ≤ a.finished
    → Refines limit window a.finished (settle rl a.ip a.code a.finished) (recorded a h)
settle-Refines limit window clock rl h a sim le =
    let (same, same', same'') = settle_settings rl a.ip a.code a.finished in
    record {
      distinct = settle-HasDistinctKeys rl a.ip a.code a.finished sim.distinct;
      free = same'' ∙ sim.free;
      same_limit = same ∙ sim.same_limit;
      same_window = same' ∙ sim.same_window;
      ordered = λ j. elim (Bool-cases (str_eq a.ip j)) [
        | inl hit ↦ rw hit (settled-Between (h a.ip) clock a.code a.finished (sim.ordered a.ip) le)
        | inr miss ↦
            rw miss (Between-mono 0 clock 0 a.finished (h j) (omega arith) le (sim.ordered j))
      ];
      expired = λ j. elim (Bool-cases (str_eq a.ip j)) [
        | inl hit ↦
            let (e, before, kept) = sim.expired a.ip in
            (
              e,
              omega arith,
              attempts-settle rl a.ip j a.code a.finished
                  ∙ rw (hit, kept)
                      (filter_expired-settled (h a.ip) e window a.code a.finished (omega arith)),
            )
        | inr miss ↦
            let (e, before, kept) = sim.expired j in
            (e, omega arith, attempts-settle rl a.ip j a.code a.finished ∙ rw miss kept)
      ];
    }

serve_on-allowed :
    (v : Verdict) (rl : RateLimiter) (a : Attempt)
    → (is_allowed (serve_on v rl a).0 ≡ is_allowed v)
      × ((serve_on v rl a).1 ≡ (if is_allowed v then settle rl a.ip a.code a.finished else rl))
serve_on-allowed allowed rl a = (refl, refl)
serve_on-allowed (limited seconds) rl a = (refl, refl)
serve_on-allowed panics rl a = (refl, refl)
serve_on-allowed hangs rl a = (refl, refl)

branch-Refines :
    (limit window clock : ℕ) (rl : RateLimiter) (h : History) (a : Attempt) (b : Bool)
    → Refines limit window clock rl h
    → clock ≤ a.finished
    → Refines limit window a.finished
        (if b then settle rl a.ip a.code a.finished else rl)
        (if b then recorded a h else h)
branch-Refines limit window clock rl h a true sim le =
    settle-Refines limit window clock rl h a sim le
branch-Refines limit window clock rl h a false sim le =
    Refines-later limit window clock a.finished rl h le sim

module _ (limit window : ℕ) (positive : 0 < limit) where
  serve-Refines :
      (clock : ℕ) (rl : RateLimiter) (h : History) (a : Attempt)
      → Refines limit window clock rl h
      → clock ≤ a.arrived
      → a.arrived ≤ a.finished
      → (is_allowed (serve rl a).0 ≡ allows limit window h a)
        × Refines limit window a.finished (serve rl a).1 (after_request limit window a h)
  unfolding serve
  serve-Refines clock rl h a sim later le =
      let v = (check rl a.ip a.arrived a.measured).0 in
      let rl' = (check rl a.ip a.arrived a.measured).1 in
      let (kept, next) = serve_on-allowed v rl' a in
      let same = decides limit window clock rl h sim a later in
      (
        kept ∙ same,
        subst (λ x. Refines limit window a.finished x (after_request limit window a h)) (sym next)
            (subst
              (λ b.
                Refines limit window a.finished
                  (if is_allowed v then settle rl' a.ip a.code a.finished else rl')
                  (if b then recorded a h else h))
              same
              (branch-Refines limit window a.arrived rl' h a (is_allowed v)
                (checked-Refines limit window clock rl h sim a later positive) le)),
      )

  cleanup-Refines :
      (clock now : ℕ) (rl : RateLimiter) (h : History)
      → Refines limit window clock rl h
      → clock ≤ now
      → Refines limit window now (cleanup rl now) h
  unfolding cleanup
  cleanup-Refines clock now rl h sim later = record {
    distinct = cleanup-HasDistinctKeys rl.trackers now rl.window sim.distinct;
    free = sim.free;
    same_limit = sim.same_limit;
    same_window = sim.same_window;
    ordered = λ ip. Between-mono 0 clock 0 now (h ip) (omega arith) later (sim.ordered ip);
    expired = λ ip. (
      now,
      omega arith,
      attempts-cleanup rl ip now sim.distinct
          ∙ live-history limit window clock rl h sim ip now later,
    );
  }

  decisions-Refines :
      (clock : ℕ) (rl : RateLimiter) (h : History) (events : List Event)
      → Refines limit window clock rl h
      → InOrder clock events
      → decisions rl events ≡ specified limit window h events
  unfolding decisions specified
  decisions-Refines clock rl h [] sim order = refl
  decisions-Refines clock rl h (request a ∷ events) sim (later, le, order) =
      let (same, next) = serve-Refines clock rl h a sim later le in
      ap (λ b. b ∷ decisions (serve rl a).1 events) same
      ∙ ap (λ rest. allows limit window h a ∷ rest)
          (decisions-Refines a.finished (serve rl a).1 (after_request limit window a h) events next
            order)
  decisions-Refines clock rl h (tick now ∷ events) sim (later, order) =
      decisions-Refines now (cleanup rl now) h events (cleanup-Refines clock now rl h sim later)
        order

-- A limiter with a limit above 0 lets through exactly the requests that the specification allows:
-- those of an address with fewer failures than the limit in the window, counting all failures since
-- its last success. This holds for every sequence of requests and ticks of the clean-up in which each
-- event begins after the one before it has ended.
pub decisions-specified :
    (limit window_secs : ℕ) (events : List Event)
    → 0 < limit
    → InOrder 0 events
    → decisions (new_rate_limiter limit window_secs) events
      ≡ specified limit (window_secs * second) (λ ip. []) events
unfolding new_rate_limiter lookup filter_expired
decisions-specified limit window_secs events positive order =
    decisions-Refines limit (window_secs * second) positive 0 (new_rate_limiter limit window_secs)
      (λ ip. []) events
      (record {
        distinct = tt;
        free = refl;
        same_limit = refl;
        same_window = refl;
        ordered = λ ip. omega arith;
        expired = λ ip. (0, omega arith, refl);
      })
      order
