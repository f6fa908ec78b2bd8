-- ===== src/Idle/Tracker/Tests.antt =====
-- Two requests, one of which is ended twice.
use shfm.Common.{◌≡◌, ◌↔◌, refl, true, List, [], ◌∷◌, length, arith}
use shfm.Idle.Tracker.{Call, begins, ends, new_tracker, begin, end_request, run_calls, is_idle}
use shfm.Idle.Tracker.Busy.{end_times, IsClock, begin_count, ArePast, run_calls-is_idle}

abbrev calls : List Call
calls = begins ∷ begins ∷ ends 12 0 ∷ ends 90 0 ∷ ends 20 1 ∷ []

calls-IsClock : IsClock 10 (end_times calls [])
unfolding end_times
calls-IsClock = (omega arith, (omega arith, tt))

run_calls-is_idle_example :
    (is_idle 95 60 (run_calls calls (new_tracker 10)).tracker ≡ true)
    ↔ ((begin_count calls ≡ length (end_times calls [])) × ArePast 95 60 (10 ∷ end_times calls []))
run_calls-is_idle_example = run_calls-is_idle calls 10 95 60 calls-IsClock

idle_by_then : is_idle 95 60 (run_calls calls (new_tracker 10)).tracker ≡ true
unfolding is_idle run_calls new_tracker begin end_request
idle_by_then = refl
