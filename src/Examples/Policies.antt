-- ===== src/Examples/Policies.antt =====
-- Examples of the policies, the retries and the runs.
use mad_edge.Prelude.{ℕ, ◌+◌, ◌*◌, ◌/◌, ◌≤◌, ◌<◌, ◌≡◌, false, none, some, [], ◌∷◌, arith}
use mad_edge.Policy.{work_window, is_open, next_window_opening, day, minute}
use mad_edge.Policy.Opening.{IsFirstOpening, next_window_opening-first}
use mad_edge.Run.{backoff, capped, Reading, Round, rate_limited, RunState, run_task}
use mad_edge.Run.Schedule.{backoff_bounds}
use mad_edge.Run.Progress.{IsFinished}
use mad_edge.Run.Ends.{run_task_finishes}
use mad_edge.Tasks.{new}
use mad_edge.Examples.{utc, hour, night, task}

next_window_opening-first_example :
    ((t : ℕ)
      → next_window_opening utc (work_window (night ∷ [])) (7 * hour) 2 ≡ some t
      → IsFirstOpening utc (night ∷ []) (7 * hour) (7 * hour + 2 * day) t)
    × (next_window_opening utc (work_window (night ∷ [])) (7 * hour) 2 ≡ none
        → (j : ℕ) → j < 1440 * 2
        → is_open utc (night ∷ []) (7 * hour + j * minute) ≡ false)
next_window_opening-first_example = next_window_opening-first utc (night ∷ []) (7 * hour) 2

backoff_bounds_example :
    (capped 3 * 9 / 10 ≤ backoff 3 5)
    × (backoff 3 5 ≤ capped 3 * 11 / 10)
    × (27_000 ≤ backoff 3 5)
    × (backoff 3 5 ≤ 3_960_000)
backoff_bounds_example = backoff_bounds 3 5 (omega arith)

abbrev no_clock : Reading
no_clock = record { clock = none; dispatch_policy = none; deployment = none }

-- Every launch meets the rate limit.
abbrev limited : ℕ → Round
limited n = record {
  outcome = rate_limited none "429" none;
  seen_id = none;
  random = 0;
  at_failure = no_clock;
  at_wake = no_clock;
}

run_task_finishes_example :
    (done : RunState) × (run_task utc (task 1 "a" 10) limited none ≡ some done)
    × IsFinished 1 new done
run_task_finishes_example = run_task_finishes utc (task 1 "a" 10) limited none (λ n. omega arith)
