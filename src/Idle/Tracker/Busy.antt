-- ===== src/Idle/Tracker/Busy.antt =====
-- When the tracker of internal/idle/idle.go is idle.
use shfm.Common.{
  ℕ, zero, suc, ◌+◌, ◌≤◌, ◌≡◌, ◌↔◌, refl, ap, Bool, true, false, List, [], ◌∷◌, ◌++◌, All, length,
  arith, if◌then◌else◌,
}
use shfm.Idle.Tracker.{
  Tracker, Requests, new_tracker, begin, is_open, close, end_as, end_request, is_idle, Call, begins,
  ends, run_calls,
}

-- How many requests are in progress.
unfoldable pub open_count : List Bool → ℕ
open_count [] = 0
open_count (b ∷ bs) = let rest = open_count bs in if b then rest else suc rest

open_count-append : (bs : List Bool) → open_count (bs ++ false ∷ []) ≡ open_count bs + 1
unfolding open_count
open_count-append [] = refl
open_count-append (true ∷ bs) = open_count-append bs
open_count-append (false ∷ bs) = omega (arith, open_count-append bs)

open_count-close :
    (k : ℕ) (bs : List Bool) → is_open k bs ≡ true → open_count bs ≡ suc (open_count (close k bs))
unfolding open_count is_open close
open_count-close k [] h = cc
open_count-close zero (true ∷ bs) h = cc
open_count-close zero (false ∷ bs) h = refl
open_count-close (suc k) (true ∷ bs) h = open_count-close k bs h
open_count-close (suc k) (false ∷ bs) h = ap suc (open_count-close k bs h)

abbrev pub IsCounted : Requests → Type 0
IsCounted r = r.tracker.active ≡ open_count r.ended

-- When requests ended: the times of the calls that are the first of their function. `bs` says
-- which functions were called before.
unfoldable pub end_times : List Call → List Bool → List ℕ
unfolding is_open close
end_times [] bs = []
end_times (begins ∷ cs) bs = end_times cs (bs ++ false ∷ [])
end_times (ends now k ∷ cs) bs =
    let again = end_times cs bs in
    let first = now ∷ end_times cs (close k bs) in if is_open k bs then first else again

-- The clock does not go back.
abbrev pub IsClock : ℕ → List ℕ → Type 0
IsClock t [] = Unit
IsClock t (u ∷ us) = (t ≤ u) × IsClock u us

unfoldable pub begin_count : List Call → ℕ
begin_count [] = 0
begin_count (begins ∷ cs) = suc (begin_count cs)
begin_count (ends now k ∷ cs) = begin_count cs

run_calls-active :
    (cs : List Call) (r : Requests)
    → IsCounted r
    → (run_calls cs r).tracker.active + length (end_times cs r.ended)
      ≡ r.tracker.active + begin_count cs
unfolding run_calls begin end_request end_as end_times begin_count
run_calls-active [] r h = omega arith
run_calls-active (begins ∷ cs) r h =
    omega (arith, run_calls-active cs (begin r) (omega (arith, open_count-append r.ended)))
run_calls-active (ends now k ∷ cs) r h =
    go (λ s c. run_calls-active cs s c) (is_open k r.ended) refl
  where
    go :
        ((s : Requests)
          → IsCounted s
          → (run_calls cs s).tracker.active + length (end_times cs s.ended)
            ≡ s.tracker.active + begin_count cs)
        → (b : Bool) → is_open k r.ended ≡ b
        → (run_calls cs (end_as b now k r)).tracker.active
            + length (if b then now ∷ end_times cs (close k r.ended) else end_times cs r.ended)
          ≡ r.tracker.active + begin_count cs
    go ih true e =
        let n = open_count-close k r.ended e in
        let i = ih (end_as true now k r) (omega (arith, n, h)) in omega (arith, i, n, h)
    go ih false e = ih r h

-- `d` has passed since each of the times.
abbrev pub ArePast : ℕ → ℕ → List ℕ → Type 0
ArePast now d ts = All (λ t. t + d ≤ now) ts

run_calls-ArePast :
    (now d : ℕ) (cs : List Call) (r : Requests)
    → IsClock r.tracker.last (end_times cs r.ended)
    → ((run_calls cs r).tracker.last + d ≤ now)
      ↔ ArePast now d (r.tracker.last ∷ end_times cs r.ended)
unfolding run_calls begin end_request end_as end_times
run_calls-ArePast now d [] r h = (λ l. (l, tt), λ a. a.0)
run_calls-ArePast now d (begins ∷ cs) r h = run_calls-ArePast now d cs (begin r) h
run_calls-ArePast now d (ends u k ∷ cs) r h =
    go (λ s c. run_calls-ArePast now d cs s c) (is_open k r.ended) h
  where
    go :
        ((s : Requests)
          → IsClock s.tracker.last (end_times cs s.ended)
          → ((run_calls cs s).tracker.last + d ≤ now)
            ↔ ArePast now d (s.tracker.last ∷ end_times cs s.ended))
        → (b : Bool)
        → IsClock r.tracker.last
            (if b then u ∷ end_times cs (close k r.ended) else end_times cs r.ended)
        → ((run_calls cs (end_as b u k r)).tracker.last + d ≤ now)
          ↔ ArePast now d (
              r.tracker.last
              ∷ (if b then u ∷ end_times cs (close k r.ended) else end_times cs r.ended))
    go ih true (le, c) =
        let i = ih (end_as true u k r) c in
        (λ l. let a = i.0 l in (omega (arith, a.0, le), a), λ a. i.1 a.1)
    go ih false c = ih r c

is_idle-both :
    (now d : ℕ) (t : Tracker) → (is_idle now d t ≡ true) ↔ ((t.active ≡ 0) × (t.last + d ≤ now))
unfolding is_idle
is_idle-both now d t = (λ h. (ground arith, ground arith), λ h. ground arith)

-- However requests begin and their functions are called, also more than once, on a clock that does
-- not go back: the tracker is idle exactly if as many requests have ended as have begun, and `d` has
-- passed since the tracker was made and since each of those ends.
pub run_calls-is_idle :
    (cs : List Call) (start now d : ℕ)
    → IsClock start (end_times cs [])
    → (is_idle now d (run_calls cs (new_tracker start)).tracker ≡ true)
      ↔ ((begin_count cs ≡ length (end_times cs [])) × ArePast now d (start ∷ end_times cs []))
unfolding new_tracker open_count
run_calls-is_idle cs start now d h =
    let r = new_tracker start in
    let both = is_idle-both now d (run_calls cs r).tracker in
    let n = run_calls-active cs r refl in
    let past = run_calls-ArePast now d cs r h in
    (
      λ i. let (a, l) = both.0 i in (omega (arith, a, n), past.0 l),
      λ (e, a). both.1 (omega (arith, e, n), past.1 a),
    )
