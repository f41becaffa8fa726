-- ===== src/ReplayLimiter/Tests.antt =====
-- The replay limiter at concrete inputs.
use tinvest.Prelude.{◌≡◌, ◌≢◌, ◌≤◌, refl, false, [], ◌∷◌, arith}
use tinvest.ReplayLimiter.{
  Limiter, new_limiter, Timers, active, unfinished, wait_loop, wait_n, Call, run_calls,
}
use tinvest.ReplayLimiter.Terminates.{wait_n-finishes}
use tinvest.ReplayLimiter.Paced.{count_within, run_calls-count_within}

abbrev timers : Timers
timers = record { late = λ i. 1; cut_off = λ i. false }

abbrev call : Call
call = record { gap = 2; count = 1; timers = timers }

-- Two sends in a window of ten: the third waits for the first to leave it.
third_waits : run_calls (call ∷ call ∷ call ∷ []) 0 (new_limiter 2 10) [] ≡ 13 ∷ 4 ∷ 2 ∷ []
unfolding run_calls wait_n wait_loop active new_limiter
third_waits = refl

run_calls-count_within_example :
    count_within 10 3 (run_calls (call ∷ call ∷ call ∷ []) 0 (new_limiter 2 10) []) ≤ 2
unfolding new_limiter
run_calls-count_within_example = run_calls-count_within (call ∷ call ∷ call ∷ []) 2 10 0 3

abbrev full : Limiter
full = record { limit = 2; window = 10; timestamps = 2 ∷ 4 ∷ [] }

wait_n-finishes_example : wait_n timers 2 0 6 1 full ≢ unfinished
wait_n-finishes_example = wait_n-finishes timers 0 0 6 1 full (omega arith, (omega arith, tt))
