-- ===== src/Idle/Tracker.antt =====
-- Tracker, with the functions that Begin has returned: each has a sync.Once, which is a flag here.
pub mod Busy
pub mod Tests
use shfm.Common.{
  ℕ, zero, suc, ◌+◌, ◌-◌, Bool, true, false, ◌&&◌, List, [], ◌∷◌, ◌++◌, ◌==◌, leb, if◌then◌else◌,
}

pub record Tracker : Type 0 where
  pub active : ℕ
  pub last : ℕ

-- `ended` has, for each request in the order of their beginning, whether its function was called.
pub record Requests : Type 0 where
  pub tracker : Tracker
  pub ended : List Bool

-- New
unfoldable pub new_tracker : ℕ → Requests
new_tracker now = record { tracker = record { active = 0; last = now }; ended = [] }

unfoldable pub begin : Requests → Requests
begin r = record {
  tracker = record { active = r.tracker.active + 1; last = r.tracker.last };
  ended = r.ended ++ false ∷ [];
}

-- Whether the function of request `k` runs: it was not called before.
pub is_open : ℕ → List Bool → Bool
is_open k [] = false
is_open zero (b ∷ bs) = if b then false else true
is_open (suc k) (b ∷ bs) = is_open k bs

pub close : ℕ → List Bool → List Bool
close k [] = []
close zero (b ∷ bs) = true ∷ bs
close (suc k) (b ∷ bs) = b ∷ close k bs

end_as : Bool → ℕ → ℕ → Requests → Requests
end_as false now k r = r
end_as true now k r = record {
  tracker = record { active = r.tracker.active - 1; last = now };
  ended = close k r.ended;
}

-- The function of request `k` is called at the time `now`, for the first time or again.
unfoldable pub end_request : ℕ → ℕ → Requests → Requests
unfolding end_as is_open close
end_request now k r = end_as (is_open k r.ended) now k r

-- `time.Since(t.last) >= d`, without the difference, which is negative before `last`.
unfoldable pub is_idle : ℕ → ℕ → Tracker → Bool
is_idle now d t = t.active == 0 && leb (t.last + d) now

pub data Call : Type 0 where
  begins : Call
  ends : ℕ → ℕ → Call

unfoldable pub run_calls : List Call → Requests → Requests
run_calls [] r = r
run_calls (begins ∷ cs) r = run_calls cs (begin r)
run_calls (ends now k ∷ cs) r = run_calls cs (end_request now k r)
