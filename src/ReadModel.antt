-- ===== src/ReadModel.antt =====
-- adapters/outbound/orchestration/workflow_projection.py: the status of each workflow and of its steps,
-- from the `workflow.*` events.
pub mod Steps
pub mod Replay
use mad_edge.Prelude.{ℕ, take, Bool, true, false, Option, none, some, List, [], ◌∷◌, String, map}
use mad_edge.Prelude.Dict.{Dict, lookup, insert, values}
use mad_edge.Json.{Fields, get, ◌>>=◌, read_text}
use mad_edge.Events.{
  Body, workflow_created, workflow_step_started, workflow_step_completed, workflow_step_failed,
}
use mad_edge.Workflow.{WorkflowStep, StepStatus, derive_step_status, derive_workflow_status}
use mad_edge.Workflow.Serial.{steps_from_created_data}
use mad_edge.Coordinator.{Entry}

pub record StepState : Type 0 where
  pub depends_on : List String
  pub started : Bool
  pub completed : Bool
  pub failed : Bool
  pub session_id : Option String
  pub reason : Option String

pub record WorkflowState : Type 0 where
  pub order : List String
  pub steps : Dict StepState

abbrev pub States : Type 0
States = Dict WorkflowState

-- `_StepState(depends_on)`
unfoldable pub new_step : List String → StepState
new_step depends_on = record {
  depends_on = depends_on;
  started = false;
  completed = false;
  failed = false;
  session_id = none;
  reason = none;
}

-- `{s.step_id: _StepState(tuple(s.depends_on)) for s in steps}`
unfoldable step_states : List WorkflowStep → Dict StepState → Dict StepState
unfolding new_step
step_states [] d = d
step_states (s ∷ steps) d = step_states steps (insert s.step_id (new_step s.depends_on) d)

-- `_on_created`; `none` is a KeyError.
unfoldable pub on_created : Fields → States → Option States
unfolding step_states
on_created data' states = do
  workflow_id ← read_text (get "workflow_id" data')
  steps ← steps_from_created_data data'
  some (
      insert workflow_id
        (record { order = map (λ s. s.step_id) steps; steps = step_states steps [] }) states)

-- A change to a step, if the workflow and the step are known.
abbrev pub change_step :
    String → (StepState → StepState) → Option StepState → Dict StepState → Dict StepState
change_step step_id f none d = d
change_step step_id f (some s) d = insert step_id (f s) d

abbrev pub change_workflow :
    String → String → (StepState → StepState) → Option WorkflowState → States → States
change_workflow wf_id step_id f none states = states
change_workflow wf_id step_id f (some w) states =
    insert wf_id (record w { steps = change_step step_id f (lookup step_id w.steps) w.steps })
      states

unfoldable pub change : String → String → (StepState → StepState) → States → States
change wf_id step_id f states = change_workflow wf_id step_id f (lookup wf_id states) states

-- `_on_started` and `_on_step_terminal`
unfoldable pub on_started : String → String → Option String → States → States
unfolding change
on_started wf_id step_id session_id states =
    change wf_id step_id (λ s. record s { started = true; session_id = session_id }) states

unfoldable pub on_step_completed : String → String → States → States
unfolding change
on_step_completed wf_id step_id states =
    change wf_id step_id (λ s. record s { completed = true }) states

unfoldable pub on_step_failed : String → String → String → States → States
unfolding change
on_step_failed wf_id step_id reason states =
    change wf_id step_id (λ s. record s { failed = true; reason = some reason }) states

-- The branches of `apply`, by the event's type.
pub data Kind : Type 0 where
  created : Fields → Kind
  started : String → Option String → Kind
  completed : String → Kind
  failed : String → String → Kind
  ignored : Kind

abbrev pub kind_of : Body → Kind
kind_of (workflow_created data') = created data'
kind_of (workflow_step_started step_id session_id) = started step_id session_id
kind_of (workflow_step_completed step_id) = completed step_id
kind_of (workflow_step_failed step_id reason) = failed step_id reason
kind_of _ = ignored

unfoldable pub apply_kind : String → Kind → States → Option States
unfolding on_created on_started on_step_completed on_step_failed
apply_kind wf_id (created data') states = on_created data' states
apply_kind wf_id (started step_id session_id) states =
    some (on_started wf_id step_id session_id states)
apply_kind wf_id (completed step_id) states = some (on_step_completed wf_id step_id states)
apply_kind wf_id (failed step_id reason) states = some (on_step_failed wf_id step_id reason states)
apply_kind wf_id ignored states = some states

unfoldable pub apply : Entry → States → Option States
unfolding apply_kind
apply (wf_id, b) states = apply_kind wf_id (kind_of b) states

unfoldable pub apply_all : List Entry → States → Option States
unfolding apply
apply_all [] states = some states
apply_all (e ∷ log) states = apply e states >>= apply_all log

-- `bootstrap_from_log`, of the log in the order of its ids, in which the query returns it.
abbrev pub bootstrap_limit : ℕ
bootstrap_limit = 1_000_000

unfoldable pub bootstrap_from_log : List Entry → States → Option States
unfolding apply_all
bootstrap_from_log log states = apply_all (take bootstrap_limit log) states

-- `get`
abbrev status_of : StepState → StepStatus
status_of s = derive_step_status s.started s.completed s.failed

-- The statuses in the order of the steps; `none` is a KeyError.
unfoldable step_statuses : List String → Dict StepState → Option (List (String × StepStatus))
unfolding derive_step_status
step_statuses [] d = some []
step_statuses (sid ∷ order) d = do
  s ← lookup sid d
  rest ← step_statuses order d
  some ((sid, status_of s) ∷ rest)

abbrev collapse : List (String × StepStatus) → Dict StepStatus → Dict StepStatus
collapse [] d = d
collapse ((sid, status) ∷ rest) d = collapse rest (insert sid status d)

pub record WorkflowSnapshot : Type 0 where
  pub workflow_id : String
  pub status : StepStatus
  pub steps : List (String × StepStatus)

unfoldable get_workflow : String → States → Option WorkflowSnapshot
unfolding step_statuses derive_workflow_status
get_workflow workflow_id states = do
  w ← lookup workflow_id states
  steps ← step_statuses w.order w.steps
  some (record {
    workflow_id = workflow_id;
    status = derive_workflow_status (values (collapse steps []));
    steps = steps;
  })
