-- ===== src/Coordinator/Advance.antt =====
-- `_start_step`, `_advance`, `_on_task_terminal` and `_handle` of
-- core/orchestration/use_cases/workflow_coordinator.py.
use mad_edge.Prelude.{
  not, ◌&&◌, ◌||◌, Option, none, some, List, [], ◌∷◌, ◌++◌, map, String, elem, if◌then◌else◌,
}
use mad_edge.Prelude.Dict.{lookup, insert}
use mad_edge.Json.{Fields, get, ◌>>=◌, read_text}
use mad_edge.Events.{
  Body, Raw, task_queued, task_completed, task_failed, workflow_created, workflow_step_started,
  workflow_completed,
}
use mad_edge.Workflow.{WorkflowStep}
use mad_edge.Workflow.Serial.{steps_from_created_data}
use mad_edge.Coordinator.{
  Entry, Key, has_key, Coordinator, MountError, Provisioned, Surroundings, emit,
  mark_step_completed, mark_step_failed, completed_ids, subset, provisioning_failed, unresolved,
  provisioned, refused,
}
use mad_edge.Coordinator.Mounts.{resolve_mounts}

-- `_register_workflow`, with the payload read.
abbrev pub registered : String → List WorkflowStep → Coordinator → Coordinator
registered wf_id steps c = record c { workflows = insert wf_id steps c.workflows }

-- The tests of `_handle` on the event's type: a new workflow, or the end of a task, with the reason
-- of a failure.
pub data Trigger : Type 0 where
  created : Fields → Trigger
  ended : Option String → Trigger
  ignored : Trigger

abbrev pub trigger_of : Body → Trigger
trigger_of (workflow_created data') = created data'
trigger_of (task_completed id) = ended none
trigger_of (task_failed id reason) = ended (some reason)
trigger_of _ = ignored

module _ (s : Surroundings) where
  -- What follows the provisioning in `_start_step`, by the errors of the mounts.
  unfoldable pub enqueue_or_fail :
      String → WorkflowStep → String → List MountError → Coordinator → Coordinator
  unfolding emit mark_step_failed
  enqueue_or_fail wf_id step session_id [] c =
      emit session_id
        (task_queued (record {
          task_id = s.new_task_id c.log;
          content = step.prompt;
          scheduled_for = "now";
          model = none;
          effort = none;
          conversation_mode = Raw.text "new";
          auto_sync = Raw.absent;
        }))
        c
  enqueue_or_fail wf_id step session_id (e ∷ errors) c =
      let reason = s.text_of (unresolved (e ∷ errors)) in
      mark_step_failed wf_id step.step_id reason
        (emit session_id (task_failed (s.new_task_id c.log) reason) c)

  unfoldable pub after_provision :
      String → WorkflowStep → List MountError → Provisioned → Coordinator → Coordinator
  unfolding emit mark_step_failed
  after_provision wf_id step errors (refused exc es) c =
      mark_step_failed wf_id step.step_id (s.text_of (provisioning_failed exc))
        (emit wf_id (workflow_step_started step.step_id none) (record c { log = c.log ++ es }))
  after_provision wf_id step errors (provisioned session_id es) c =
      let key : Key = (wf_id, step.step_id) in
      enqueue_or_fail wf_id step session_id errors (
        emit wf_id (workflow_step_started step.step_id (some session_id)) (record c {
          log = c.log ++ es;
          step_session = (key, session_id) ∷ c.step_session;
          session_step = insert session_id key c.session_step;
        }))

  unfoldable pub start_step : String → List WorkflowStep → WorkflowStep → Coordinator → Coordinator
  unfolding resolve_mounts
  start_step wf_id steps step c =
      let (specs, errors) = resolve_mounts wf_id steps c step.mounts in
      after_provision wf_id step errors (s.provision step specs c.log)
        (record c { started = (wf_id, step.step_id) ∷ c.started })

  -- The end of `_advance`.
  unfoldable pub complete_if_done :
      String → List WorkflowStep → List String → Coordinator → Coordinator
  unfolding emit
  complete_if_done wf_id steps done c =
      let all_ids = map (λ step. step.step_id) steps in
      if subset done all_ids && subset all_ids done && not (elem wf_id c.workflow_terminal)
      then emit wf_id workflow_completed
          (record c { workflow_terminal = wf_id ∷ c.workflow_terminal })
      else c

  -- The loop of `_advance` over the steps that are left, and its end; `done` is `completed_ids`.
  unfoldable pub advance_loop :
      String → List WorkflowStep → List String → List WorkflowStep → Coordinator → Coordinator
  unfolding start_step complete_if_done
  advance_loop wf_id steps done [] c = complete_if_done wf_id steps done c
  advance_loop wf_id steps done (step ∷ rest) c =
      let key : Key = (wf_id, step.step_id) in
      let eligible =
        not (has_key key c.started || has_key key c.failed_steps) && subset step.depends_on done in
      let c' = if eligible then start_step wf_id steps step c else c in
      let next = advance_loop wf_id steps done rest c' in
      if eligible && elem wf_id c'.workflow_terminal then c' else next

  unfoldable pub advance : String → List WorkflowStep → Coordinator → Coordinator
  unfolding advance_loop completed_ids
  advance wf_id steps c =
      if elem wf_id c.workflow_terminal
      then c
      else advance_loop wf_id steps (completed_ids wf_id c.completed_steps) steps c

  -- `_on_task_terminal`: `failure` is the reason, if the task failed.
  unfoldable pub end_step :
      String → String → Option String → Option (List WorkflowStep) → Coordinator → Coordinator
  unfolding advance mark_step_completed mark_step_failed
  end_step wf_id step_id failure none c = c
  end_step wf_id step_id none (some steps) c =
      advance wf_id steps (mark_step_completed wf_id step_id c)
  end_step wf_id step_id (some reason) (some steps) c = mark_step_failed wf_id step_id reason c

  abbrev pub end_of_session : Option Key → Option String → Coordinator → Coordinator
  end_of_session none failure c = c
  end_of_session (some (wf_id, step_id)) failure c =
      end_step wf_id step_id failure (lookup wf_id c.workflows) c

  unfoldable pub on_task_terminal : String → Option String → Coordinator → Coordinator
  on_task_terminal session_id failure c =
      end_of_session (lookup session_id c.session_step) failure c

  -- `_handle`, on an event of the bus; `none` is a KeyError, of a payload that lacks its keys.
  unfoldable pub handle_trigger : String → Trigger → Coordinator → Option Coordinator
  unfolding advance on_task_terminal
  handle_trigger sid (created data') c = do
    wf_id ← read_text (get "workflow_id" data')
    steps ← steps_from_created_data data'
    some (advance wf_id steps (registered wf_id steps c))
  handle_trigger sid (ended failure) c = some (on_task_terminal sid failure c)
  handle_trigger sid ignored c = some c

  unfoldable pub handle : Entry → Coordinator → Option Coordinator
  unfolding handle_trigger
  handle (sid, b) c = handle_trigger sid (trigger_of b) c
