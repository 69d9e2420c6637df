-- ===== src/Coordinator/Mounts.antt =====
-- `_resolve_ref`, `_git_result_for`, `_resolve_repo_url` and `_resolve_mounts` of
-- core/orchestration/use_cases/workflow_coordinator.py: a step's mounts, with what they take from
-- the steps before.
use mad_edge.Prelude.{
  ℕ, zero, suc, not, ◌||◌, Option, none, some, List, [], ◌∷◌, String, ◌⊎◌, inl, inr, str_eq,
  if◌then◌else◌, take,
}
use mad_edge.Events.{GitResult, task_git_result}
use mad_edge.Workflow.{WorkflowMount, WorkflowStep, is_github, github}
use mad_edge.Workflow.Validate.{find_step}
use mad_edge.Coordinator.{
  Entry, lookup_key, Coordinator, ResourceSpec, MountError, no_url, no_git_result, not_pushed,
  detached, no_sha,
}

-- `_resolve_ref`
unfoldable pub resolve_branch : String → Option String → MountError ⊎ String
resolve_branch from_step none = inl (detached from_step)
resolve_branch from_step (some head_branch) =
    if str_eq head_branch "" || str_eq head_branch "HEAD"
    then inl (detached from_step)
    else inr head_branch

unfoldable pub resolve_ref : String → String → Option GitResult → MountError ⊎ String
unfolding resolve_branch
resolve_ref from_step ref_mode none = inl (no_git_result from_step)
resolve_ref from_step ref_mode (some git) =
    if not git.pushed
    then inl (not_pushed from_step)
    else if str_eq ref_mode "branch"
    then resolve_branch from_step git.head_branch
    else if str_eq git.head_sha ""
    then inl (no_sha from_step)
    else inr git.head_sha

-- The git results of a session, in the order of the log, and `_git_result_for`: the query gives at
-- most 100 events, from the oldest on.
unfoldable pub git_results : String → List Entry → List GitResult
git_results session_id [] = []
git_results session_id ((sid, task_git_result id git) ∷ log) =
    if str_eq sid session_id then git ∷ git_results session_id log else git_results session_id log
git_results session_id (_ ∷ log) = git_results session_id log

abbrev pub last_of {ℓ} : {A : Type ℓ} → List A → Option A
last_of [] = none
last_of (x ∷ []) = some x
last_of (x ∷ y ∷ ys) = last_of (y ∷ ys)

unfoldable pub git_result_for : List Entry → Option String → Option GitResult
unfolding git_results
git_result_for log none = none
git_result_for log (some session_id) =
    if str_eq session_id "" then none else last_of (take 100 (git_results session_id log))

-- The URL that a step hands on, its `None`, or a chain that the fuel does not reach the end of.
pub data Inherited : Type 0 where
  repo : String → Inherited
  no_repo too_deep : Inherited

-- `_resolve_repo_url`, on fuel for the depth of the chain: the loop over a step's mounts, and the
-- step's lookup.
abbrev pub given_url : Option String → Option String
given_url none = none
given_url (some url) = if str_eq url "" then none else some url

unfoldable pub url_of_mounts : (String → Inherited) → List WorkflowMount → Inherited
unfolding is_github
url_of_mounts resolve [] = no_repo
url_of_mounts resolve (mount ∷ mounts) =
    let rest = url_of_mounts resolve mounts in
    if not (is_github mount) then rest else elim (given_url mount.url) [
      | some url ↦ repo url
      | none ↦ elim mount.from_step [ some from_step ↦ resolve from_step | none ↦ rest ]
    ]

abbrev pub url_of_step : (String → Inherited) → Option WorkflowStep → Inherited
url_of_step resolve none = no_repo
url_of_step resolve (some step) = url_of_mounts resolve step.mounts

unfoldable pub resolve_repo_url : ℕ → List WorkflowStep → String → Inherited
unfolding url_of_mounts find_step
resolve_repo_url zero steps step_id = too_deep
resolve_repo_url (suc fuel) steps step_id =
    url_of_step (resolve_repo_url fuel steps) (find_step step_id steps)

abbrev pub url_fuel : List WorkflowStep → ℕ
url_fuel [] = 1
url_fuel (s ∷ steps) = suc (url_fuel steps)

-- `_resolve_mounts`: the specs and the errors.
unfoldable pub own_mount : WorkflowMount → ResourceSpec
unfolding is_github
own_mount mount =
    if is_github mount
    then record {
      type = github;
      mount_path = mount.mount_path;
      url = elim mount.url [ none ↦ "" | some url ↦ url ];
      content = "";
      base_branch = none;
    }
    else record {
      type = "file";
      mount_path = mount.mount_path;
      url = "";
      content = mount.content;
      base_branch = none;
    }

-- `too_deep` does not come up in a workflow that `validate_workflow` accepts.
abbrev pub inherited_mount :
    WorkflowMount → String → Inherited → MountError ⊎ String → MountError ⊎ ResourceSpec
inherited_mount mount from_step too_deep ref = inl (no_url from_step)
inherited_mount mount from_step no_repo ref = inl (no_url from_step)
inherited_mount mount from_step (repo url) (inl e) = inl e
inherited_mount mount from_step (repo url) (inr ref) = inr (record {
  type = github;
  mount_path = mount.mount_path;
  url = url;
  content = "";
  base_branch = some ref;
})

unfoldable pub resolve_mount :
    String
    → List WorkflowStep
    → Coordinator
    → WorkflowMount
    → Option String
    → MountError ⊎ ResourceSpec
unfolding resolve_repo_url resolve_ref git_result_for
resolve_mount wf_id steps c mount none = inr (own_mount mount)
resolve_mount wf_id steps c mount (some from_step) =
    inherited_mount mount from_step (resolve_repo_url (url_fuel steps) steps from_step) (
      resolve_ref from_step mount.ref
        (git_result_for c.log (lookup_key (wf_id, from_step) c.step_session)))

abbrev pub sort_out :
    MountError ⊎ ResourceSpec
    → List ResourceSpec × List MountError
    → List ResourceSpec × List MountError
sort_out (inl e) (specs, errors) = (specs, e ∷ errors)
sort_out (inr spec) (specs, errors) = (spec ∷ specs, errors)

unfoldable pub resolve_mounts :
    String
    → List WorkflowStep
    → Coordinator
    → List WorkflowMount
    → List ResourceSpec × List MountError
resolve_mounts wf_id steps c [] = ([], [])
resolve_mounts wf_id steps c (mount ∷ mounts) =
    sort_out (resolve_mount wf_id steps c mount mount.from_step)
      (resolve_mounts wf_id steps c mounts)
