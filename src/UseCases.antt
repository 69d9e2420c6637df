-- ===== src/UseCases.antt =====
-- The use cases of core/orchestration/use_cases and core/sessions/use_cases/delete_session.py, on the
-- dispatcher's state: the session index, the projection and the log. A refused call leaves the state
-- as it is.
pub mod Effects
pub mod Drain
pub mod Deletion
pub mod Gates
use mad_edge.Prelude.{
  ℕ, Bool, true, false, not, Option, none, some, List, [], ◌∷◌, ◌++◌, String, length, any, ◌==◌,
  if◌then◌else◌,
}
use mad_edge.Prelude.Dict.{Dict, lookup, insert}
use mad_edge.Policy.{DispatchPolicy, is_manual, resolve_effective_policy}
use mad_edge.Tasks.{Task, ConversationMode, new, resume}
use mad_edge.Sessions.{Session, SessionStatus, mark_deleted}
use mad_edge.Events.{
  Raw, QueuedData, Body, task_queued, task_cancelled, workflow_created, dispatch_policy_updated,
  dispatch_policy_cleared, dispatch_priority_updated, session_deleted,
}
use mad_edge.Projection.{Projection, queued, in_flight, is_task}
use mad_edge.Ordering.{Given, validate_priority}
use mad_edge.Dispatcher.{Stamp, Dispatcher, emit}
use mad_edge.Workflow.{WorkflowStep}
use mad_edge.Workflow.Serial.{workflow_to_created_data}
use mad_edge.Workflow.Validate.{
  Invalid, Checked, ok, invalid, key_error, out_of_fuel, validate_workflow,
}

-- The exceptions.
pub data Refusal : Type 0 where
  session_not_found model_rejected task_already_dispatched task_not_found : Refusal
  trigger_not_applicable invalid_priority workflow_error : Refusal
  invalid_workflow : Invalid → Refusal

pub data Answer (A : Type 0) : Type 0 where
  accepted : A → Dispatcher → Answer A
  refused : Refusal → Answer A

pub record EnqueueTaskInput : Type 0 where
  pub session_id : String
  pub content : String
  pub scheduled_for : String
  pub model : Option String
  pub effort : Option String
  pub conversation_mode : ConversationMode
  pub auto_sync : Option Bool

abbrev pub mode_text : ConversationMode → Raw
mode_text new = Raw.text "new"
mode_text resume = Raw.text "resume"

abbrev pub flag_or_null : Option Bool → Raw
flag_or_null none = Raw.absent
flag_or_null (some b) = Raw.flag b

-- Whether the model catalog, if there is one, lists the model for the session's provider ("" for
-- none); the catalog is a parameter.
abbrev pub model_ok : Option (String → String → Bool) → Session → Option String → Bool
model_ok none s model = true
model_ok (some catalog) s none = true
model_ok (some catalog) s (some model) = catalog (elim s.provider [ none ↦ "" | some p ↦ p ]) model

unfoldable pub queued_data : ℕ → EnqueueTaskInput → QueuedData
queued_data task_id payload = record {
  task_id = task_id;
  content = payload.content;
  scheduled_for = payload.scheduled_for;
  model = payload.model;
  effort = payload.effort;
  conversation_mode = mode_text payload.conversation_mode;
  auto_sync = flag_or_null payload.auto_sync;
}

abbrev pub is_queued : ℕ → List Task → Bool
is_queued task_id ts = any (λ t. t.task_id == task_id) ts

abbrev pub marked : String → Dict Session → Dict Session
marked session_id sessions = elim (lookup session_id sessions) [
  | none ↦ sessions
  | some s ↦ insert session_id (mark_deleted s) sessions
]

abbrev pub status_text : SessionStatus → String
status_text SessionStatus.created = "created"
status_text SessionStatus.running = "running"
status_text SessionStatus.idle = "idle"
status_text SessionStatus.error = "error"
status_text SessionStatus.deleted = "deleted"

module _ (stamp : ℕ → Stamp) where
  -- `EnqueueTaskUseCase.execute`, with the id that `uuid4()` returns.
  unfoldable pub enqueue_task :
      Option (String → String → Bool) → ℕ → EnqueueTaskInput → Dispatcher → Answer ℕ
  unfolding emit queued_data
  enqueue_task catalog task_id payload d = elim (lookup payload.session_id d.sessions) [
    | none ↦ refused session_not_found
    | some s ↦
        if model_ok catalog s payload.model
        then accepted task_id
            (emit stamp payload.session_id (task_queued (queued_data task_id payload)) d)
        else refused model_rejected
  ]

  -- `CancelTaskUseCase.execute`
  unfoldable pub cancel_task : String → ℕ → String → Dispatcher → Answer (Unit {0})
  unfolding emit queued in_flight
  cancel_task session_id task_id reason d = elim (lookup session_id d.sessions) [
    | none ↦ refused session_not_found
    | some s ↦
        if is_task task_id (in_flight d.projection session_id)
        then refused task_already_dispatched
        else if not (is_queued task_id (queued d.projection session_id))
        then refused task_not_found
        else accepted tt (emit stamp session_id (task_cancelled task_id reason) d)
  ]

  -- `ListTasksUseCase.execute`
  unfoldable list_tasks : String → Dispatcher → Answer (List Task × Option Task)
  list_tasks session_id d = elim (lookup session_id d.sessions) [
    | none ↦ refused session_not_found
    | some s ↦ accepted (queued d.projection session_id, in_flight d.projection session_id) d
  ]

  -- `UpdateDispatchPolicyUseCase.execute`
  unfoldable pub update_dispatch_policy :
      String → DispatchPolicy → Dispatcher → Answer DispatchPolicy
  unfolding emit
  update_dispatch_policy session_id policy d = elim (lookup session_id d.sessions) [
    | none ↦ refused session_not_found
    | some s ↦
        let s' : Session = record s { dispatch_policy = some policy; manual_drain_remaining = 0 } in
        accepted policy (
          emit stamp session_id (dispatch_policy_updated policy)
            (record d { sessions = insert session_id s' d.sessions }))
  ]

  -- `ClearDispatchPolicyUseCase.execute`; the output is the effective policy.
  unfoldable pub clear_dispatch_policy : String → Dispatcher → Answer DispatchPolicy
  unfolding emit
  clear_dispatch_policy session_id d = elim (lookup session_id d.sessions) [
    | none ↦ refused session_not_found
    | some s ↦
        let s' : Session = record s { dispatch_policy = none; manual_drain_remaining = 0 } in
        accepted (resolve_effective_policy s'.dispatch_policy d.deployment) (
          emit stamp session_id dispatch_policy_cleared
            (record d { sessions = insert session_id s' d.sessions }))
  ]

  -- `UpdateDispatchPriorityUseCase.execute`
  unfoldable update_dispatch_priority : String → Given → Dispatcher → Answer ℕ
  unfolding emit validate_priority
  update_dispatch_priority session_id given d = elim (lookup session_id d.sessions) [
    | none ↦ refused session_not_found
    | some s ↦ elim (validate_priority given) [
      | none ↦ refused invalid_priority
      | some priority ↦
          let s' : Session = record s { priority = priority } in
          accepted priority (
            emit stamp session_id (dispatch_priority_updated priority)
              (record d { sessions = insert session_id s' d.sessions }))
    ]
  ]

  -- `TriggerManualDispatchUseCase.execute`; the output is the number of tasks to drain.
  unfoldable pub trigger_manual_dispatch : String → Dispatcher → Answer ℕ
  unfolding queued
  trigger_manual_dispatch session_id d = elim (lookup session_id d.sessions) [
    | none ↦ refused session_not_found
    | some s ↦
        let queued_count = length (queued d.projection session_id) in
        let s' : Session = record s { manual_drain_remaining = queued_count } in
        if is_manual (resolve_effective_policy s.dispatch_policy d.deployment)
        then accepted queued_count (record d { sessions = insert session_id s' d.sessions })
        else refused trigger_not_applicable
  ]

  -- `CreateWorkflowUseCase.execute`, with the workflow id that is made.
  unfoldable create_workflow : String → List WorkflowStep → Dispatcher → Answer String
  unfolding emit validate_workflow workflow_to_created_data
  create_workflow workflow_id steps d = elim (validate_workflow steps) [
    | invalid e ↦ refused (invalid_workflow e)
    | key_error ↦ refused workflow_error
    | out_of_fuel ↦ refused workflow_error
    | ok u ↦
        accepted workflow_id
          (emit stamp workflow_id (workflow_created (workflow_to_created_data workflow_id steps)) d)
  ]

  -- `destroy_session` of core/sessions/use_cases/delete_session.py: each task of the queue is
  -- cancelled, and the entity marked. The removal of the workspace is not modelled.
  unfoldable pub cancel_all : String → List Task → Dispatcher → Dispatcher
  unfolding emit
  cancel_all session_id [] d = d
  cancel_all session_id (t ∷ ts) d =
      cancel_all session_id ts
        (emit stamp session_id (task_cancelled t.task_id "session_deleted") d)

  unfoldable pub delete_session : String → Dispatcher → Answer (Unit {0})
  unfolding cancel_all emit
  delete_session session_id d = elim (lookup session_id d.sessions) [
    | none ↦ refused session_not_found
    | some s ↦
        let d' = cancel_all session_id (queued d.projection session_id) d in
        accepted tt (
          emit stamp session_id (session_deleted (status_text s.status))
            (record d' { sessions = marked session_id d'.sessions }))
  ]
