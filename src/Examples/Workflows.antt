-- ===== src/Examples/Workflows.antt =====
-- Examples of the workflows and of their coordinator.
use mad_edge.Prelude.{
  arith, ◌≤◌, ◌<◌, ◌≡◌, ◌≢◌, refl, sym, length, true, false, Option, none, some, List, [], ◌∷◌, ◌⊎◌,
}
use mathlib.Core.List.{append-nil}
use mad_edge.Events.{
  workflow_step_started, workflow_step_completed, GitResult, task_git_result, workflow_created,
}
use mad_edge.Workflow.Validate.{validate_workflow}
use mad_edge.Workflow.Validate.Accepted.{IsValid, validate_workflow-IsValid}
use mad_edge.Workflow.Serial.{
  workflow_to_created_data, steps_from_created_data,
  steps_from_created_data-workflow_to_created_data,
}
use mad_edge.Coordinator.{
  Coordinator, Surroundings, provisioned, Entry, has_key, fresh_coordinator, emit,
}
use mad_edge.Coordinator.Mounts.{
  resolve_mount, last_of, git_results, git_result_for, url_fuel, too_deep, resolve_repo_url,
}
use mad_edge.Coordinator.Urls.{resolve_repo_url_lem}
use mad_edge.Coordinator.GitResults.{get_elem?, git_result_for_lem}
use mad_edge.Workflow.Validate.Answers.{Answers}
use mad_edge.Workflow.Validate.Total.{validate_workflow-Answers}
use mad_edge.Prelude.Dict.{lookup, insert}
use mad_edge.Json.{get, read_text}
use mad_edge.Coordinator.Advance.{after_provision, enqueue_or_fail, advance, handle}
use mad_edge.Coordinator.Once.{IsOnce, installed, restarted, accepted, handled, Reach-IsOnce}
use mad_edge.Coordinator.Gate.{MayStart, advance-MayStart}
use mad_edge.Coordinator.Restart.{apply_persisted, bootstrap_from_log, resume}
use mad_edge.ReadModel
use mad_edge.ReadModel.{States, on_created}
use mad_edge.Examples.{two_steps}

two_steps-IsValid : IsValid two_steps
unfolding validate_workflow insert lookup
two_steps-IsValid = validate_workflow-IsValid two_steps refl

validate_workflow-IsValid_example : IsValid two_steps
unfolding validate_workflow insert lookup
validate_workflow-IsValid_example = validate_workflow-IsValid two_steps refl

steps_from_created_data-workflow_to_created_data_example :
    steps_from_created_data (workflow_to_created_data "wkfl_1" two_steps) ≡ some two_steps
steps_from_created_data-workflow_to_created_data_example =
    steps_from_created_data-workflow_to_created_data "wkfl_1" two_steps

abbrev surroundings : Surroundings
surroundings = record {
  provision = λ step specs log. provisioned step.step_id [];
  new_task_id = λ log. 1;
  text_of = λ reason. "failed";
  quiet = λ step specs log. refl;
}

abbrev created : Entry
created = ("wkfl_1", workflow_created (workflow_to_created_data "wkfl_1" two_steps))

abbrev submitted : Coordinator
submitted = emit "wkfl_1" created.1 (fresh_coordinator [])

abbrev or_submitted : Option Coordinator → Coordinator
or_submitted none = submitted
or_submitted (some c) = c

abbrev under_way : Coordinator
under_way = or_submitted (handle surroundings created submitted)

-- A restart then.
abbrev rebooted : Coordinator
rebooted = or_submitted (bootstrap_from_log under_way.log (fresh_coordinator under_way.log))

Reach-IsOnce_example : IsOnce (resume surroundings rebooted.workflows rebooted).log
unfolding handle workflow_to_created_data read_text get steps_from_created_data bootstrap_from_log
    apply_persisted fresh_coordinator after_provision enqueue_or_fail resolve_mount
Reach-IsOnce_example =
    Reach-IsOnce surroundings (resume surroundings rebooted.workflows rebooted)
      (restarted under_way.log [] under_way.log
        (handled created (accepted "wkfl_1" (workflow_to_created_data "wkfl_1" two_steps) installed)
          refl)
        (sym (append-nil under_way.log)) (λ p. refl) refl)
      (omega arith, tt)

advance-MayStart_example :
    (has_key ("wkfl_1", "build") submitted.started ≡ true)
    ⊎ MayStart "wkfl_1" two_steps submitted ("wkfl_1", "build")
unfolding advance emit fresh_coordinator after_provision enqueue_or_fail resolve_mount
advance-MayStart_example =
    advance-MayStart surroundings "wkfl_1" two_steps submitted ("wkfl_1", "build") refl

validate_workflow-Answers_example : Answers (validate_workflow two_steps)
validate_workflow-Answers_example = validate_workflow-Answers two_steps

-- A session with one git result.
abbrev pushed : GitResult
pushed = record {
  base_sha = "a1";
  head_branch = some "main";
  head_sha = "b2";
  commits = [];
  dirty = false;
  pushed = true;
}

abbrev one_result : List Entry
one_result = ("s", task_git_result 1 pushed) ∷ []

git_result_for_lem_example :
    (length (git_results "s" one_result) ≤ 100
      → git_result_for one_result (some "s") ≡ last_of (git_results "s" one_result))
    × (100 < length (git_results "s" one_result)
        → git_result_for one_result (some "s") ≡ get_elem? (git_results "s" one_result) 99)
git_result_for_lem_example = git_result_for_lem one_result "s" refl

resolve_repo_url_lem_example :
    (resolve_repo_url (url_fuel two_steps) two_steps "test" ≢ too_deep)
    × (resolve_repo_url (url_fuel two_steps) two_steps "test" ≡ resolve_repo_url 9 two_steps "test")
resolve_repo_url_lem_example =
    resolve_repo_url_lem two_steps two_steps-IsValid 9 "test" (omega arith)

abbrev or_none : Option States → States
or_none none = []
or_none (some states) = states

-- The two steps in the read model, and "build" started and completed.
abbrev shown : States
shown = or_none (on_created (workflow_to_created_data "wkfl_1" two_steps) [])

abbrev progress : List Entry
progress =
    ("wkfl_1", workflow_step_started "build" (some "s"))
    ∷ ("wkfl_1", workflow_step_completed "build")
    ∷ []
