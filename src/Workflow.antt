-- ===== src/Workflow.antt =====
-- core/orchestration/domain/workflow.py: the graph of steps.
pub mod Validate
pub mod Serial
use mad_edge.Prelude.{
  ℕ, Option, List, String, Bool, str_eq, any, all, true, false, some, none, ◌&&◌, not, map,
  if◌then◌else◌, ◌||◌, [],
}
use mad_edge.Json.{Fields}

-- `ref` is any text here: the values "sha" and "branch" are checked by `validate_workflow`.
pub record WorkflowMount : Type 0 where
  pub mount_path : String
  pub type : String
  pub url : Option String
  pub from_step : Option String
  pub ref : String
  pub content : String

-- `agent` is an opaque dict.
pub record WorkflowStep : Type 0 where
  pub step_id : String
  pub agent : Fields
  pub prompt : String
  pub mounts : List WorkflowMount
  pub depends_on : List String
  pub base_branch : Option String
  pub working_directory : Option String
  pub model : Option String
  pub effort : Option String
  pub timeout_s : Option ℕ

abbrev pub github : String
github = "github_repository"

unfoldable pub is_github : WorkflowMount → Bool
is_github m = str_eq m.type github

pub data StepStatus : Type 0 where
  pending running completed failed : StepStatus

unfoldable pub derive_step_status : Bool → Bool → Bool → StepStatus
derive_step_status started is_completed is_failed =
    if is_failed
    then failed
    else if is_completed
    then completed
    else if started
    then running
    else pending

abbrev is_failed : StepStatus → Bool
is_failed failed = true
is_failed _ = false

abbrev is_completed : StepStatus → Bool
is_completed completed = true
is_completed _ = false

abbrev is_running : StepStatus → Bool
is_running running = true
is_running _ = false

-- `values and …`
abbrev non_empty {ℓ} : {A : Type ℓ} → List A → Bool
non_empty [] = false
non_empty _ = true

unfoldable pub derive_workflow_status : List StepStatus → StepStatus
derive_workflow_status values =
    if any is_failed values
    then failed
    else if non_empty values && all is_completed values
    then completed
    else if any (λ v. is_running v || is_completed v) values
    then running
    else pending
