-- ===== src/Run.antt =====
-- core/orchestration/domain/retry_schedule.py, and `_run_task` of
-- core/orchestration/use_cases/dispatcher.py: one task driven to its end, through the rate-limit
-- retries. Durations are in milliseconds, rounded down; the floats of the program are exact to well
-- below that.
pub mod Schedule
pub mod Progress
pub mod Ends
use mad_edge.Prelude.{
  ℕ, zero, suc, ◌+◌, ◌-◌, ◌*◌, ◌/◌, ◌^◌, min, max, Bool, true, false, not, Option, none, some, List,
  [], ◌∷◌, ◌++◌, String, ltb, leb, if◌then◌else◌,
}
use mad_edge.Policy.{
  Zones, DispatchPolicy, immediate, work_window, manual, is_open, next_window_opening,
  resolve_effective_policy,
}
use mad_edge.Tasks.{ConversationMode, new, resume, Task}
use mad_edge.Events.{
  Body, GitResult, task_retrying, task_deferred, task_completed, task_failed, task_git_result,
}

-- `CUMULATIVE_CEILING_S`, `_BASE_S`, `_CAP_S` and `_MIN_BACKOFF_S`
abbrev pub cumulative_ceiling : ℕ
cumulative_ceiling = 18_000_000

abbrev pub base : ℕ
base = 30_000

abbrev pub cap_wait : ℕ
cap_wait = 3_600_000

abbrev min_backoff : ℕ
min_backoff = 1_000

-- `random.random()` is `r / 2 ^ 53` for an `r` below `2 ^ 53`.
abbrev pub random_range : ℕ
random_range = 9_007_199_254_740_992

-- `min(_BASE_S * _MULTIPLIER ** attempt, _CAP_S)`
unfoldable pub capped : ℕ → ℕ
capped attempt = min (base * 2 ^ attempt) cap_wait

-- `capped + capped * 0.10 * (2 * random() - 1)`
unfoldable pub jittered : ℕ → ℕ → ℕ
jittered c r = c * (9 * random_range + 2 * r) / (10 * random_range)

unfoldable pub backoff : ℕ → ℕ → ℕ
unfolding capped jittered
backoff attempt r = max min_backoff (jittered (capped attempt) r)

unfoldable pub exceeds_ceiling : ℕ → Bool
exceeds_ceiling cumulative = leb cumulative_ceiling cumulative

-- What `_window_closed` reads at an instant: the clock if one is wired, the session's policy override
-- and the deployment default. `_next_window_opening_iso` reads the clock once more; the instants are
-- taken as one.
pub record Reading : Type 0 where
  pub clock : Option ℕ
  pub dispatch_policy : Option DispatchPolicy
  pub deployment : Option DispatchPolicy

unfoldable policy_closed : Zones → DispatchPolicy → ℕ → Bool
policy_closed z (work_window windows) now = not (is_open z windows now)
policy_closed z immediate now = false
policy_closed z manual now = false

unfoldable pub window_closed : Zones → Reading → Bool
unfolding policy_closed
window_closed z g = elim g.clock [
  | none ↦ false
  | some now ↦ policy_closed z (resolve_effective_policy g.dispatch_policy g.deployment) now
]

unfoldable pub next_window_opening_iso : Zones → Reading → Option ℕ
next_window_opening_iso z g = elim g.clock [
  | none ↦ none
  | some now ↦
      next_window_opening z (resolve_effective_policy g.dispatch_policy g.deployment) now 14
]

-- How one call of `_run_launcher` ends: it returns, and the git inspector reports; it raises
-- RateLimitError with its three fields; or it raises any other exception.
pub data Outcome : Type 0 where
  success : Option GitResult → Outcome
  rate_limited : Option String → String → Option ℕ → Outcome
  failed : String → Outcome

-- What the environment gives in one round of the loop: the outcome, the conversation id that the
-- launcher put on the session if any, the random number, and the readings of the window right after
-- the failure and after the sleep.
pub record Round : Type 0 where
  pub outcome : Outcome
  pub seen_id : Option String
  pub random : ℕ
  pub at_failure : Reading
  pub at_wake : Reading

-- The variables of the loop, the events emitted and the conversation modes launched with so far.
pub record RunState : Type 0 where
  pub attempt : ℕ
  pub cumulative_wait : ℕ
  pub mode : ConversationMode
  pub last_conversation_id : Option String
  pub emitted : List Body
  pub launches : List ConversationMode

abbrev pub or_else : Option String → Option String → Option String
or_else none old = old
or_else (some id) old = some id

unfoldable emit_run : Body → RunState → RunState
emit_run b st = record st { emitted = st.emitted ++ b ∷ [] }

-- The exponential delay, unless the limit advertises a later reset.
unfoldable pub retry_delay : ℕ → ℕ → Option ℕ → ℕ
retry_delay attempt r none = backoff attempt r
retry_delay attempt r (some retry_after_floor) =
    if ltb (backoff attempt r) retry_after_floor then retry_after_floor else backoff attempt r

-- `_defer_to_window`
unfoldable defer_to_window : Zones → ℕ → Reading → RunState → RunState
unfolding emit_run
defer_to_window z id g st =
    emit_run (task_deferred id "work_window_closed" (next_window_opening_iso z g)) st

pub data Next : Type 0 where
  return : RunState → Next
  continue : RunState → Next

-- The `except RateLimitError` handler, from the delay on.
unfoldable pub after_rate_limit : Zones → ℕ → Round → String → ℕ → RunState → Next
unfolding emit_run defer_to_window exceeds_ceiling
after_rate_limit z id round reason delay st =
    let cumulative = st.cumulative_wait + delay in
    let retrying =
      emit_run (task_retrying id (st.attempt + 1) delay reason)
        (record st { attempt = st.attempt + 1; cumulative_wait = cumulative }) in
    if window_closed z round.at_failure
    then return (defer_to_window z id round.at_failure st)
    else if exceeds_ceiling cumulative
    then return (emit_run (task_failed id "rate_limit_exhausted") st)
    else if window_closed z round.at_wake
    then return (defer_to_window z id round.at_wake retrying)
    else continue (record retrying { mode = resume })

-- What follows the launch, by its outcome.
unfoldable pub on_outcome : Zones → ℕ → Round → Outcome → RunState → Next
unfolding after_rate_limit emit_run retry_delay
on_outcome z id round (success none) st = return (emit_run (task_completed id) st)
on_outcome z id round (success (some git)) st =
    return (emit_run (task_git_result id git) (emit_run (task_completed id) st))
on_outcome z id round (failed reason) st = return (emit_run (task_failed id reason) st)
on_outcome z id round (rate_limited captured_id reason floor) st =
    after_rate_limit z id round reason (retry_delay st.attempt round.random floor)
      (record st { last_conversation_id = or_else captured_id st.last_conversation_id })

-- The launch itself.
unfoldable pub launch : Round → RunState → RunState
launch round st = record st {
  launches = st.launches ++ st.mode ∷ [];
  last_conversation_id = or_else round.seen_id st.last_conversation_id;
}

-- One pass through the body of `while True`.
unfoldable pub run_round : Zones → ℕ → Round → RunState → Next
unfolding on_outcome launch
run_round z id round st = on_outcome z id round round.outcome (launch round st)

-- The loop, on fuel; `none` means that the fuel ran out. Each attempt has a round of its own.
unfoldable pub run_loop : Zones → ℕ → (ℕ → Round) → ℕ → RunState → Option RunState
run_loop z id rounds zero st = none
run_loop z id rounds (suc fuel) st = elim (run_round z id (rounds st.attempt) st) [
  | return st' ↦ some st'
  | continue st' ↦ run_loop z id rounds fuel st'
]

unfoldable pub start_run : Task → Option String → RunState
start_run task last_conversation_id = record {
  attempt = 0;
  cumulative_wait = 0;
  mode = task.conversation_mode;
  last_conversation_id = last_conversation_id;
  emitted = [];
  launches = [];
}

-- Twelve launches: by then the waits have passed the ceiling.
abbrev pub run_fuel : ℕ
run_fuel = 12

unfoldable pub run_task : Zones → Task → (ℕ → Round) → Option String → Option RunState
unfolding run_loop start_run
run_task z task rounds last_conversation_id =
    run_loop z task.task_id rounds run_fuel (start_run task last_conversation_id)
