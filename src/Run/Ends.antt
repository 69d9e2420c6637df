-- ===== src/Run/Ends.antt =====
-- The whole of `_run_task`, of core/orchestration/use_cases/dispatcher.py.
use mathlib.Core.List.{append_assoc}
use mad_edge.Prelude.{
  ℕ, zero, suc, ◌+◌, ◌≤◌, ◌<◌, ◌≡◌, refl, ap, subst, ◌∙◌, false, Option, none, some, List, [], ◌∷◌,
  ◌++◌, String, inl, inr, Bool-cases, arith,
}
use mad_edge.Policy.{Zones}
use mad_edge.Tasks.{ConversationMode, resume, Task}
use mad_edge.Events.{
  Body, task_retrying, task_deferred, task_completed, task_failed, task_git_result,
}
use mad_edge.Run.{
  cumulative_ceiling, random_range, exceeds_ceiling, Reading, window_closed, Outcome, success,
  rate_limited, failed, Round, RunState, retry_delay, next_window_opening_iso, Next, return,
  continue, after_rate_limit, on_outcome, launch, run_round, run_loop, start_run, run_fuel,
  run_task,
}
use mad_edge.Run.Schedule.{least_wait, least_wait-twelve, least_wait-suc}
use mad_edge.Run.Progress.{
  IsEnding, resumes, launches_upto, Inv, IsFinished, Numbered-snoc, total_wait-snoc,
  launches_upto-suc, start-Inv, Verdict,
}

module _ (id : ℕ) (mode : ConversationMode) (st : RunState) (inv : Inv id mode st)
    (few : st.attempt < run_fuel) where
  launches_now : st.launches ++ st.mode ∷ [] ≡ mode ∷ resumes st.attempt
  launches_now =
      ap (λ l. l ++ st.mode ∷ []) inv.launched
      ∙ ap (λ m. launches_upto mode st.attempt ++ m ∷ []) inv.next_mode
      ∙ launches_upto-suc mode st.attempt

  finish :
      (done : RunState) (ending : List Body)
      → done.emitted ≡ st.emitted ++ ending
      → done.launches ≡ st.launches ++ st.mode ∷ []
      → IsEnding id ending
      → IsFinished id mode done
  finish done ending e l h = record {
    retries = st.emitted;
    ending = ending;
    attempts = st.attempt;
    relaunches = st.attempt;
    emitted_is = e;
    numbered = inv.numbered;
    waited = omega (arith, inv.counted, inv.below);
    ends = h;
    launches_are = l ∙ launches_now;
    bounded = few;
  }

  -- A retry whose wait stays below the ceiling, and then the ending of a run that is deferred.
  finish_after_retry :
      (done : RunState) (w : ℕ) (reason : String) (ending : List Body)
      → st.cumulative_wait + w < cumulative_ceiling
      → done.emitted ≡ (st.emitted ++ task_retrying id (st.attempt + 1) w reason ∷ []) ++ ending
      → done.launches ≡ st.launches ++ st.mode ∷ []
      → IsEnding id ending
      → IsFinished id mode done
  finish_after_retry done w reason ending c e l h = record {
    retries = st.emitted ++ task_retrying id (st.attempt + 1) w reason ∷ [];
    ending = ending;
    attempts = st.attempt + 1;
    relaunches = st.attempt;
    emitted_is = e;
    numbered = Numbered-snoc id 0 st.attempt w st.emitted reason inv.numbered;
    waited = omega (arith, total_wait-snoc st.emitted id (st.attempt + 1) w reason, inv.counted, c);
    ends = h;
    launches_are = l ∙ launches_now;
    bounded = few;
  }

  -- The state of the next round.
  again :
      (next : RunState) (w : ℕ) (reason : String)
      → least_wait (suc st.attempt) ≤ least_wait st.attempt + w
      → st.cumulative_wait + w < cumulative_ceiling
      → next.attempt ≡ st.attempt + 1
      → next.cumulative_wait ≡ st.cumulative_wait + w
      → next.emitted ≡ st.emitted ++ task_retrying id (st.attempt + 1) w reason ∷ []
      → next.launches ≡ st.launches ++ st.mode ∷ []
      → next.mode ≡ resume
      → Inv id mode next
  again next w reason grows c a cw e l m =
      let a' : next.attempt ≡ suc st.attempt = omega arith in
      record {
        waited = rw a' (omega (arith, inv.waited, grows));
        below = omega arith;
        counted =
            rw e
              (omega (arith, total_wait-snoc st.emitted id (st.attempt + 1) w reason, inv.counted));
        numbered = rw (e, a) (Numbered-snoc id 0 st.attempt w st.emitted reason inv.numbered);
        launched = rw a' (l ∙ launches_now);
        next_mode = rw a' m;
      }

  module _ (z : Zones) (round : Round) (fair : round.random < random_range) where
    abbrev deferral : Reading → Body
    deferral g = task_deferred id "work_window_closed" (next_window_opening_iso z g)

    -- The state that the handler sees: nothing but the launches and the conversation id has changed.
    after_rate_limit-Verdict :
        (mid : RunState) (reason : String) (delay : ℕ)
        → mid.attempt ≡ st.attempt
        → mid.cumulative_wait ≡ st.cumulative_wait
        → mid.emitted ≡ st.emitted
        → mid.launches ≡ st.launches ++ st.mode ∷ []
        → least_wait (suc st.attempt) ≤ least_wait st.attempt + delay
        → Verdict id mode st.attempt (after_rate_limit z id round reason delay mid)
    unfolding after_rate_limit
    after_rate_limit-Verdict mid reason delay a c e l grows =
        elim (Bool-cases (window_closed z round.at_failure)) [
          | inl shut ↦ rw shut (
              finish _ (deferral round.at_failure ∷ [])
                (ap (λ l. l ++ deferral round.at_failure ∷ []) e) l refl)
          | inr opened ↦
              rw opened (elim (Bool-cases (exceeds_ceiling (mid.cumulative_wait + delay))) [
                | inl over ↦ rw over (
                    finish _ (task_failed id "rate_limit_exhausted" ∷ [])
                      (ap (λ l. l ++ task_failed id "rate_limit_exhausted" ∷ []) e) l refl)
                | inr under ↦
                    let c' : st.cumulative_wait + delay < cumulative_ceiling = within under in
                    rw under (elim (Bool-cases (window_closed z round.at_wake)) [
                      | inl shut ↦ rw shut (
                          finish_after_retry _ delay reason (deferral round.at_wake ∷ []) c'
                            (ap (λ l. l ++ deferral round.at_wake ∷ []) retried) l refl)
                      | inr still ↦ rw still (
                        again _ delay reason grows c' (omega arith) (omega arith) retried l refl,
                        omega arith,
                      )
                    ])
              ])
        ]
      where
        within :
            exceeds_ceiling (mid.cumulative_wait + delay) ≡ false
            → st.cumulative_wait + delay < cumulative_ceiling
        within under = unfold exceeds_ceiling in ground arith

        retried :
            mid.emitted ++ task_retrying id (mid.attempt + 1) delay reason ∷ []
            ≡ st.emitted ++ task_retrying id (st.attempt + 1) delay reason ∷ []
        retried = rw (e, a) refl

    on_outcome-Verdict :
        (o : Outcome) → Verdict id mode st.attempt (on_outcome z id round o (launch round st))
    unfolding on_outcome launch
    on_outcome-Verdict (success none) = finish _ _ refl refl refl
    on_outcome-Verdict (success (some git)) =
        finish _ (task_completed id ∷ task_git_result id git ∷ [])
          (append_assoc st.emitted (task_completed id ∷ []) (task_git_result id git ∷ [])) refl
          (refl, refl)
    on_outcome-Verdict (failed reason) = finish _ _ refl refl refl
    on_outcome-Verdict (rate_limited captured_id reason floor) =
        after_rate_limit-Verdict _ reason (retry_delay st.attempt round.random floor) refl refl refl
          refl (least_wait-suc st.attempt round.random floor fair)

    run_round-Verdict : Verdict id mode st.attempt (run_round z id round st)
    unfolding run_round
    run_round-Verdict = on_outcome-Verdict round.outcome

module _ (z : Zones) (id : ℕ) (mode : ConversationMode) (rounds : ℕ → Round)
    (fair : (n : ℕ) → (rounds n).random < random_range) where
  loop_finishes :
      (fuel : ℕ) (st : RunState)
      → Inv id mode st
      → st.attempt + fuel ≡ run_fuel
      → (done : RunState) × (run_loop z id rounds fuel st ≡ some done) × IsFinished id mode done
  unfolding run_loop
  loop_finishes zero st inv h =
      let twelve : st.attempt ≡ 12 = omega arith in
      let waited = subst (λ n. least_wait n ≤ st.cumulative_wait) twelve inv.waited in
      absurd (omega (arith, least_wait-twelve, waited, inv.below))
  loop_finishes (suc fuel) st inv h =
      go (run_round z id (rounds st.attempt) st) refl
        (run_round-Verdict id mode st inv (omega arith) z (rounds st.attempt) (fair st.attempt))
        (loop_finishes fuel)
    where
      go :
          (next : Next)
          → run_round z id (rounds st.attempt) st ≡ next
          → Verdict id mode st.attempt next
          → ((st' : RunState)
              → Inv id mode st'
              → st'.attempt + fuel ≡ run_fuel
              → (done : RunState) × (run_loop z id rounds fuel st' ≡ some done)
                × IsFinished id mode done)
          → (done : RunState) × (run_loop z id rounds (suc fuel) st ≡ some done)
            × IsFinished id mode done
      go (return done) e v ih = (done, rw (e, run_loop) refl, v)
      go (continue st') e v ih =
          let r = ih st' v.0 (omega (arith, v.1)) in (r.0, rw (e, run_loop) r.1, r.2)

-- With random numbers in range, `_run_task` comes to an end within twelve launches, whatever the
-- launcher and the clock do. It has then emitted some `task.retrying` events, numbered from 1 in
-- order, whose waits stay below the ceiling in all, and after them one ending: `task.completed`,
-- perhaps followed by `task.git_result`, or `task.failed`, or `task.deferred`. The first launch had
-- the task's own conversation mode, and every later one resumed.
pub run_task_finishes :
    (z : Zones) (task : Task) (rounds : ℕ → Round) (last : Option String)
    → ((n : ℕ) → (rounds n).random < random_range)
    → (done : RunState) × (run_task z task rounds last ≡ some done)
      × IsFinished task.task_id task.conversation_mode done
unfolding run_task
run_task_finishes z task rounds last fair =
    loop_finishes z task.task_id task.conversation_mode rounds fair run_fuel (start_run task last)
      (start-Inv task last) (started task last)
  where
    started : (task : Task) (last : Option String) → (start_run task last).attempt + 12 ≡ 12
    started task last = unfold start_run in refl
