-- ===== src/Coordinator/Starts.antt =====
-- The transitions of core/orchestration/use_cases/workflow_coordinator.py and those counts.
use mad_edge.Prelude.{
  ◌≡◌, refl, subst, Bool, true, false, not, ◌&&◌, ◌||◌, Option, none, some, List, [], ◌∷◌, ◌++◌,
  String, map, all, elem, if_either, if◌then◌else◌,
}
use mad_edge.Events.{workflow_completed}
use mad_edge.Workflow.{WorkflowStep}
use mad_edge.Coordinator.{
  Key, has_key, Coordinator, MountError, Provisioned, provisioned, refused, emitted_by, is_quiet,
  Surroundings, emit, completed_ids, subset, lookup_key, Terminal, completed, failed,
}
use mathlib.Core.Option.{some-injective}
use mad_edge.Prelude.Dict.{Dict, lookup, insert}
use mad_edge.Json.{then_some, get, read_text}
use mad_edge.Workflow.Serial.{steps_from_created_data}
use mad_edge.Coordinator.Mounts.{resolve_mounts}
use mad_edge.Coordinator.Advance.{
  start_step, after_provision, enqueue_or_fail, complete_if_done, advance_loop, advance,
  on_task_terminal, end_of_session, end_step, handle_trigger, registered, Trigger, created, ended,
  ignored,
}
use mad_edge.Coordinator.Restart.{resume_step, resume_steps, resume, reconcile, terminal_of}
use mad_edge.Coordinator.Counts.{
  IsCounted, quiet-IsCounted, emit-IsCounted, end-IsCounted, start-IsCounted,
  mark_step_completed-IsCounted, mark_step_failed-IsCounted,
}

module _ (s : Surroundings) where
  enqueue_or_fail-IsCounted :
      (wf_id : String) (step : WorkflowStep) (session_id : String) (errors : List MountError)
      (c : Coordinator)
      → IsCounted c
      → IsCounted (enqueue_or_fail s wf_id step session_id errors c)
  unfolding enqueue_or_fail
  enqueue_or_fail-IsCounted wf_id step session_id [] c i =
      emit-IsCounted session_id _ c (λ k. refl) (λ w. refl) i
  enqueue_or_fail-IsCounted wf_id step session_id (e ∷ errors) c i =
      mark_step_failed-IsCounted wf_id step.step_id _ _
        (emit-IsCounted session_id _ c (λ k. refl) (λ w. refl) i)

  after_provision-IsCounted :
      (wf_id : String) (step : WorkflowStep) (errors : List MountError) (p : Provisioned)
      (c : Coordinator)
      → all (λ e. is_quiet e.1) (emitted_by p) ≡ true
      → has_key (wf_id, step.step_id) c.started ≡ false
      → IsCounted c
      → IsCounted (
          after_provision s wf_id step errors p
            (record c { started = (wf_id, step.step_id) ∷ c.started }))
  unfolding after_provision
  after_provision-IsCounted wf_id step errors (refused exc es) c h fresh i =
      mark_step_failed-IsCounted wf_id step.step_id _ _ (
        start-IsCounted wf_id step.step_id none (record c { log = c.log ++ es }) fresh
          (quiet-IsCounted es c h i))
  after_provision-IsCounted wf_id step errors (provisioned session_id es) c h fresh i =
      enqueue_or_fail-IsCounted wf_id step session_id errors _ (
        start-IsCounted wf_id step.step_id (some session_id)
          (record c {
            log = c.log ++ es;
            step_session = ((wf_id, step.step_id), session_id) ∷ c.step_session;
            session_step = insert session_id (wf_id, step.step_id) c.session_step;
          })
          fresh
          (record {
            starts = (quiet-IsCounted es c h i).starts;
            ends = (quiet-IsCounted es c h i).ends;
          }))

  start_step-IsCounted :
      (wf_id : String) (steps : List WorkflowStep) (step : WorkflowStep) (c : Coordinator)
      → has_key (wf_id, step.step_id) c.started ≡ false
      → IsCounted c
      → IsCounted (start_step s wf_id steps step c)
  unfolding start_step
  start_step-IsCounted wf_id steps step c fresh i =
      let (specs, errors) = resolve_mounts wf_id steps c step.mounts in
      after_provision-IsCounted wf_id step errors (s.provision step specs c.log) c
        (s.quiet step specs c.log) fresh i

  complete_if_done-IsCounted :
      (wf_id : String) (steps : List WorkflowStep) (done : List String) (c : Coordinator)
      → IsCounted c
      → IsCounted (complete_if_done s wf_id steps done c)
  unfolding complete_if_done
  complete_if_done-IsCounted wf_id steps done c i =
      let all_ids = map (λ step. step.step_id) steps in
      go (subset done all_ids && subset all_ids done) (elem wf_id c.workflow_terminal) refl
    where
      go :
          (a b : Bool)
          → elem wf_id c.workflow_terminal ≡ b
          → IsCounted (
              if a && not b
              then emit wf_id workflow_completed
                  (record c { workflow_terminal = wf_id ∷ c.workflow_terminal })
              else c)
      go true false q = end-IsCounted wf_id workflow_completed c (λ k. refl) (λ w. refl) q i
      go true true q = i
      go false b q = i

  advance_loop-IsCounted :
      (wf_id : String) (steps : List WorkflowStep) (done : List String) (rest : List WorkflowStep)
      (c : Coordinator)
      → IsCounted c
      → IsCounted (advance_loop s wf_id steps done rest c)
  unfolding advance_loop
  advance_loop-IsCounted wf_id steps done [] c i = complete_if_done-IsCounted wf_id steps done c i
  advance_loop-IsCounted wf_id steps done (step ∷ rest) c i =
      go (has_key (wf_id, step.step_id) c.started) refl
        (has_key (wf_id, step.step_id) c.failed_steps) (subset step.depends_on done)
        (advance_loop-IsCounted wf_id steps done rest)
    where
      branch : Bool → Coordinator
      branch eligible =
          let c' = if eligible then start_step s wf_id steps step c else c in
          if eligible && elem wf_id c'.workflow_terminal
          then c'
          else advance_loop s wf_id steps done rest c'

      go :
          (a : Bool)
          → has_key (wf_id, step.step_id) c.started ≡ a
          → (b d : Bool)
          → ((x : Coordinator) → IsCounted x → IsCounted (advance_loop s wf_id steps done rest x))
          → IsCounted (branch (not (a || b) && d))
      go true q b d ih = ih c i
      go false q true d ih = ih c i
      go false q false false ih = ih c i
      go false q false true ih =
          let now = start_step-IsCounted wf_id steps step c q i in
          if_either IsCounted (elem wf_id (start_step s wf_id steps step c).workflow_terminal) now
            (ih (start_step s wf_id steps step c) now)

  advance-IsCounted :
      (wf_id : String) (steps : List WorkflowStep) (c : Coordinator)
      → IsCounted c
      → IsCounted (advance s wf_id steps c)
  unfolding advance
  advance-IsCounted wf_id steps c i =
      if_either IsCounted (elem wf_id c.workflow_terminal) i
        (advance_loop-IsCounted wf_id steps (completed_ids wf_id c.completed_steps) steps c i)

  end_of_session-IsCounted :
      (k : Option Key) (failure : Option String) (c : Coordinator)
      → IsCounted c
      → IsCounted (end_of_session s k failure c)
  unfolding end_step
  end_of_session-IsCounted none failure c i = i
  end_of_session-IsCounted (some (wf_id, step_id)) failure c i =
      go failure (lookup wf_id c.workflows)
    where
      go :
          (failure : Option String) (w : Option (List WorkflowStep))
          → IsCounted (end_step s wf_id step_id failure w c)
      go failure none = i
      go none (some steps) =
          advance-IsCounted wf_id steps _ (mark_step_completed-IsCounted wf_id step_id c i)
      go (some reason) (some steps) = mark_step_failed-IsCounted wf_id step_id reason c i

  on_task_terminal-IsCounted :
      (session_id : String) (failure : Option String) (c : Coordinator)
      → IsCounted c
      → IsCounted (on_task_terminal s session_id failure c)
  unfolding on_task_terminal
  on_task_terminal-IsCounted session_id failure c i =
      end_of_session-IsCounted (lookup session_id c.session_step) failure c i

  pub handle_trigger-IsCounted :
      (sid : String) (t : Trigger) (c c' : Coordinator)
      → IsCounted c
      → handle_trigger s sid t c ≡ some c'
      → IsCounted c'
  unfolding handle_trigger
  handle_trigger-IsCounted sid (created data') c c' i h =
      let (wf_id, q, h1) = then_some (read_text (get "workflow_id" data')) _ c' h in
      let (steps, r, h2) = then_some (steps_from_created_data data') _ c' h1 in
      subst IsCounted (some-injective _ c' h2) (
        advance-IsCounted wf_id steps (registered wf_id steps c)
          (record { starts = i.starts; ends = i.ends }))
  handle_trigger-IsCounted sid (ended failure) c c' i h =
      subst IsCounted (some-injective _ c' h) (on_task_terminal-IsCounted sid failure c i)
  handle_trigger-IsCounted sid ignored c c' i h = subst IsCounted (some-injective c c' h) i

  resume_step-IsCounted :
      (wf_id step_id : String) (c : Coordinator)
      → IsCounted c
      → IsCounted (resume_step wf_id step_id c)
  unfolding resume_step reconcile
  resume_step-IsCounted wf_id step_id c i =
      if_either IsCounted
        (has_key (wf_id, step_id) c.started
          && not (
              has_key (wf_id, step_id) c.completed_steps
              || has_key (wf_id, step_id) c.failed_steps))
        (go (terminal_of (lookup_key (wf_id, step_id) c.step_session) c)) i
    where
      go : (t : Option Terminal) → IsCounted (reconcile wf_id step_id t c)
      go none = i
      go (some completed) = mark_step_completed-IsCounted wf_id step_id c i
      go (some failed) = mark_step_failed-IsCounted wf_id step_id "interrupted_by_restart" c i

  resume_steps-IsCounted :
      (wf_id : String) (steps : List WorkflowStep) (c : Coordinator)
      → IsCounted c
      → IsCounted (resume_steps wf_id steps c)
  unfolding resume_steps
  resume_steps-IsCounted wf_id [] c i = i
  resume_steps-IsCounted wf_id (step ∷ steps) c i =
      resume_steps-IsCounted wf_id steps (resume_step wf_id step.step_id c)
        (resume_step-IsCounted wf_id step.step_id c i)

  pub resume-IsCounted :
      (ws : Dict (List WorkflowStep)) (c : Coordinator) → IsCounted c → IsCounted (resume s ws c)
  unfolding resume
  resume-IsCounted [] c i = i
  resume-IsCounted ((wf_id, steps) ∷ rest) c i = resume-IsCounted rest _ (
      if_either IsCounted (elem wf_id c.workflow_terminal) i (
        advance-IsCounted wf_id steps (resume_steps wf_id steps c)
          (resume_steps-IsCounted wf_id steps c i)))
