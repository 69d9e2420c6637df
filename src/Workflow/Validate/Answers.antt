-- ===== src/Workflow/Validate/Answers.antt =====
-- The loops of `validate_workflow`, in core/orchestration/domain/workflow.py, and how they may end.
use mad_edge.Prelude.{
  ◌≡◌, refl, Bool, true, false, not, ◌||◌, Option, none, some, List, [], ◌∷◌, String, elem, any,
  str_eq,
}
use mad_edge.Workflow.{WorkflowMount, WorkflowStep, github, is_github}
use mad_edge.Workflow.Validate.{
  Invalid, Checked, ok, invalid, key_error, out_of_fuel, ◌>>=◌, ◌>>◌, reject_if, empty_id,
  duplicate_id, collect_ids, self_dependency, unknown_dependency, check_deps, check_all_deps,
  find_step, check_referenced, check_source, validate_mount, check_mounts, check_all_mounts,
  unknown_type, from_step_on_file, unknown_ref, not_a_dependency, no_github_mount,
}

-- The check passes or raises InvalidWorkflow.
abbrev pub Answers : {A : Type 0} → Checked A → Type 0
Answers (ok a) = Unit
Answers (invalid e) = Unit
Answers key_error = ⊥
Answers out_of_fuel = ⊥

pub bind-Answers :
    {A B : Type 0} (m : Checked A) (f : A → Checked B)
    → Answers m
    → ((a : A) → m ≡ ok a → Answers (f a))
    → Answers (m >>= f)
bind-Answers (ok a) f h g = g a refl
bind-Answers (invalid e) f h g = tt
bind-Answers key_error f h g = h
bind-Answers out_of_fuel f h g = h

reject_if-Answers : (b : Bool) (e : Invalid) → Answers (reject_if b e)
reject_if-Answers true e = tt
reject_if-Answers false e = tt

-- A check, and then something that answers.
pub guard-Answers :
    {B : Type 0} (b : Bool) (e : Invalid) (k : Checked B) → Answers k → Answers (reject_if b e >> k)
guard-Answers true e k h = tt
guard-Answers false e k h = h

pub collect_ids-Answers :
    (steps : List WorkflowStep) (ids : List String) → Answers (collect_ids steps ids)
unfolding collect_ids
collect_ids-Answers [] ids = tt
collect_ids-Answers (s ∷ steps) ids =
    let rest : Checked (List String) = collect_ids steps (s.step_id ∷ ids) in
    guard-Answers (str_eq s.step_id "") empty_id
      (reject_if (elem s.step_id ids) duplicate_id >> rest)
      (guard-Answers (elem s.step_id ids) duplicate_id rest
        (collect_ids-Answers steps (s.step_id ∷ ids)))

check_deps-Answers : (sid : String) (ids deps : List String) → Answers (check_deps sid ids deps)
unfolding check_deps
check_deps-Answers sid ids [] = tt
check_deps-Answers sid ids (d ∷ deps) =
    let rest : Checked (Unit {0}) = check_deps sid ids deps in
    guard-Answers (str_eq d sid) self_dependency
      (reject_if (not (elem d ids)) unknown_dependency >> rest)
      (guard-Answers (not (elem d ids)) unknown_dependency rest (check_deps-Answers sid ids deps))

pub check_all_deps-Answers :
    (ids : List String) (steps : List WorkflowStep) → Answers (check_all_deps ids steps)
unfolding check_all_deps
check_all_deps-Answers ids [] = tt
check_all_deps-Answers ids (s ∷ steps) =
    bind-Answers (check_deps s.step_id ids s.depends_on) (λ _. check_all_deps ids steps)
      (check_deps-Answers s.step_id ids s.depends_on) (λ u q. check_all_deps-Answers ids steps)

module _ (steps : List WorkflowStep) (step : WorkflowStep) where
  check_referenced-Answers : (k : Option WorkflowStep) → Answers (check_referenced k)
  unfolding check_referenced
  check_referenced-Answers none = tt
  check_referenced-Answers (some t) =
      reject_if-Answers (not (any is_github t.mounts)) no_github_mount

  check_source-Answers :
      (mount : WorkflowMount) (k : Option String) → Answers (check_source steps step mount k)
  unfolding check_source
  check_source-Answers mount none = tt
  check_source-Answers mount (some from_step) =
      let referenced : Checked (Unit {0}) = check_referenced (find_step from_step steps) in
      let depends : Checked (Unit {0}) =
        reject_if (not (elem from_step step.depends_on)) not_a_dependency >> referenced in
      let pinned : Checked (Unit {0}) =
        reject_if (not (str_eq mount.ref "sha" || str_eq mount.ref "branch")) unknown_ref
        >> depends in
      guard-Answers (not (is_github mount)) from_step_on_file pinned (
        guard-Answers (not (str_eq mount.ref "sha" || str_eq mount.ref "branch")) unknown_ref
          depends
          (guard-Answers (not (elem from_step step.depends_on)) not_a_dependency referenced
            (check_referenced-Answers (find_step from_step steps))))

  check_mounts-Answers : (mounts : List WorkflowMount) → Answers (check_mounts steps step mounts)
  unfolding check_mounts validate_mount
  check_mounts-Answers [] = tt
  check_mounts-Answers (mount ∷ mounts) =
      bind-Answers (validate_mount steps step mount) (λ _. check_mounts steps step mounts)
        (guard-Answers (not (str_eq mount.type github || str_eq mount.type "file")) unknown_type
          (check_source steps step mount mount.from_step)
          (check_source-Answers mount mount.from_step))
        (λ u q. check_mounts-Answers mounts)

pub check_all_mounts-Answers :
    (steps rest : List WorkflowStep) → Answers (check_all_mounts steps rest)
unfolding check_all_mounts
check_all_mounts-Answers steps [] = tt
check_all_mounts-Answers steps (s ∷ rest) =
    bind-Answers (check_mounts steps s s.mounts) (λ _. check_all_mounts steps rest)
      (check_mounts-Answers steps s s.mounts) (λ u q. check_all_mounts-Answers steps rest)
