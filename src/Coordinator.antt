-- ===== src/Coordinator.antt =====
-- core/orchestration/use_cases/workflow_coordinator.py: the steps of a workflow, started when their
-- dependencies have completed. Every method runs alone, from the event that calls it to its end: the
-- loop and the resumption before it are one coroutine, and no other one writes these fields. The log
-- is the entries (session id, type with data) in the order in which they are written; a restart may
-- read them in another order. The timestamps are not read.
pub mod Mounts
pub mod Advance
pub mod Restart
pub mod Counts
pub mod Starts
pub mod Once
pub mod Gate
pub mod GitResults
pub mod Urls
use mad_edge.Prelude.{
  ℕ, zero, suc, ◌≡◌, Bool, true, false, not, ◌&&◌, ◌||◌, Option, none, some, List, [], ◌∷◌, ◌++◌,
  map, String, any, all, keep, elem, ◌⊎◌, inl, inr, str_eq, if◌then◌else◌,
}
use mad_edge.Prelude.Dict.{Dict, lookup, insert}
use mad_edge.Json.{Json, Fields, get, ◌>>=◌, read_text}
use mad_edge.Events.{
  QueuedData, GitResult, Raw, Body, task_queued, task_completed, task_failed, task_git_result,
  workflow_created, workflow_step_started, workflow_step_completed, workflow_step_failed,
  workflow_completed, workflow_failed,
}
use mad_edge.Workflow.{WorkflowMount, WorkflowStep, is_github, github}
use mad_edge.Workflow.Serial.{steps_from_created_data}
use mad_edge.Workflow.Validate.{find_step}

abbrev pub Entry : Type 0
Entry = String × Body

-- (workflow id, step id)
abbrev pub Key : Type 0
Key = String × String

abbrev pub key_eq : Key → Key → Bool
key_eq a b = str_eq a.0 b.0 && str_eq a.1 b.1

-- key in set
abbrev pub has_key : Key → List Key → Bool
has_key k ks = any (λ j. key_eq j k) ks

-- dict.get(key), with the last entry put first
abbrev pub lookup_key : Key → List (Key × String) → Option String
lookup_key k [] = none
lookup_key k ((j, v) ∷ m) = if key_eq j k then some v else lookup_key k m

pub data Terminal : Type 0 where
  completed failed : Terminal

pub record Coordinator : Type 0 where
  pub workflows : Dict (List WorkflowStep)
  pub session_step : Dict Key
  pub step_session : List (Key × String)
  pub started : List Key
  pub completed_steps : List Key
  pub failed_steps : List Key
  pub workflow_terminal : List String
  pub session_terminal : Dict Terminal
  pub log : List Entry

unfoldable pub fresh_coordinator : List Entry → Coordinator
fresh_coordinator log = record {
  workflows = [];
  session_step = [];
  step_session = [];
  started = [];
  completed_steps = [];
  failed_steps = [];
  workflow_terminal = [];
  session_terminal = [];
  log = log;
}

-- `ResourceSpec` of core/sessions/use_cases/create_session.py
pub record ResourceSpec : Type 0 where
  pub type : String
  pub mount_path : String
  pub url : String
  pub content : String
  pub base_branch : Option String

-- The errors of a mount, each for one message; the text is the step's id.
pub data MountError : Type 0 where
  no_url no_git_result not_pushed detached no_sha : String → MountError

pub data Reason : Type 0 where
  provisioning_failed : String → Reason
  unresolved : List MountError → Reason

-- What `CreateSessionUseCase` answers: the new session's id or an exception, with the events that it
-- emitted on the way.
pub data Provisioned : Type 0 where
  provisioned : String → List Entry → Provisioned
  refused : String → List Entry → Provisioned

abbrev pub emitted_by : Provisioned → List Entry
emitted_by (provisioned sid es) = es
emitted_by (refused reason es) = es

-- `workflow.step.started` of the step, and the end of the workflow, which only the coordinator emits.
abbrev pub is_start_of : Key → Entry → Bool
is_start_of k (sid, workflow_step_started step_id session_id) = key_eq (sid, step_id) k
is_start_of k (sid, _) = false

abbrev pub is_end_of : String → Entry → Bool
is_end_of w (sid, workflow_completed) = str_eq sid w
is_end_of w (sid, workflow_failed reason) = str_eq sid w
is_end_of w (sid, _) = false

abbrev pub is_quiet : Body → Bool
is_quiet (workflow_created data') = false
is_quiet (workflow_step_started step_id session_id) = false
is_quiet (workflow_step_completed step_id) = false
is_quiet (workflow_step_failed step_id reason) = false
is_quiet workflow_completed = false
is_quiet (workflow_failed reason) = false
is_quiet _ = true

-- What the coordinator asks of its surroundings: the creation of a session, which emits no event of
-- a workflow; a new task id; and the text of a failure.
pub record Surroundings : Type 0 where
  pub provision : WorkflowStep → List ResourceSpec → List Entry → Provisioned
  pub new_task_id : List Entry → ℕ
  pub text_of : Reason → String
  pub quiet :
      (step : WorkflowStep) (specs : List ResourceSpec) (log : List Entry)
      → all (λ e. is_quiet e.1) (emitted_by (provision step specs log)) ≡ true

unfoldable pub emit : String → Body → Coordinator → Coordinator
emit sid body c = record c { log = c.log ++ (sid, body) ∷ [] }

-- `_mark_step_completed` and `_mark_step_failed`
unfoldable pub mark_step_completed : String → String → Coordinator → Coordinator
unfolding emit
mark_step_completed wf_id step_id c =
    let key : Key = (wf_id, step_id) in
    if has_key key c.completed_steps || has_key key c.failed_steps
    then c
    else emit wf_id (workflow_step_completed step_id)
        (record c { completed_steps = key ∷ c.completed_steps })

-- A step's failure ends its workflow, once.
unfoldable pub fail_workflow : String → String → Coordinator → Coordinator
unfolding emit
fail_workflow wf_id reason c =
    if elem wf_id c.workflow_terminal
    then c
    else emit wf_id (workflow_failed reason)
        (record c { workflow_terminal = wf_id ∷ c.workflow_terminal })

unfoldable pub mark_step_failed : String → String → String → Coordinator → Coordinator
unfolding emit fail_workflow
mark_step_failed wf_id step_id reason c =
    let key : Key = (wf_id, step_id) in
    if has_key key c.completed_steps || has_key key c.failed_steps
    then c
    else fail_workflow wf_id reason (
        emit wf_id (workflow_step_failed step_id reason)
          (record c { failed_steps = key ∷ c.failed_steps }))

-- `{sid for (w, sid) in self._completed if w == wf_id}`
unfoldable pub completed_ids : String → List Key → List String
completed_ids wf_id [] = []
completed_ids wf_id ((w, sid) ∷ keys) =
    if str_eq w wf_id then sid ∷ completed_ids wf_id keys else completed_ids wf_id keys

-- `set(xs) <= set(ys)`
abbrev pub subset : List String → List String → Bool
subset xs ys = all (λ x. elem x ys) xs
