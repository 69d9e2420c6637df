-- ===== src/Workflow/Validate/Accepted.antt =====
-- The workflows that `validate_workflow` of core/orchestration/domain/workflow.py accepts.
use mad_edge.Prelude.{
  ◌≡◌, ◌≢◌, subst, ◌∙◌, true, false, List, [], String, elem, str_eq, str_eq_refl, Member, inl, inr,
  ◌⊎◌, arith,
}
use mad_edge.Workflow.{WorkflowMount, WorkflowStep}
use mad_edge.Workflow.Validate.{
  Checked, ok, ◌>>=◌, ◌>>◌, no_steps, collect_ids, check_all_deps, reject_cycles, check_all_mounts,
  no_steps_given, validate_workflow,
}
use mad_edge.Workflow.Validate.Ids.{
  Known, IsDistinct, collect_ids-Known, collect_ids-IsDistinct, check_deps-accepted,
  check_all_deps-accepted,
}
use mad_edge.Workflow.Validate.Mounts.{IsValidMount, check_all_mounts-accepted}
use mad_edge.Workflow.Validate.Visit.{bind-ok, passed}
use mad_edge.Workflow.Validate.Acyclic.{Chain, DependsOn, collect_ids-fresh, reject_cycles-acyclic}

pub record IsValid (steps : List WorkflowStep) : Type 0 where
  pub given : no_steps_given steps ≡ false
  pub named : (step : WorkflowStep) → Member step steps → step.step_id ≢ ""
  pub distinct : IsDistinct steps
  pub known : (a b : String) → DependsOn steps a b → (a ≢ b) × Known steps b
  pub acyclic : (n : String) → Chain (DependsOn steps) n n → ⊥
  pub mounts :
      (step : WorkflowStep) (mount : WorkflowMount)
      → Member step steps
      → Member mount step.mounts
      → IsValidMount steps step mount

-- Steps that `validate_workflow` accepts are a well-formed graph: there is one, their ids are
-- distinct and not empty, each dependency is another step, no chain of dependencies returns to
-- its start, and each mount is of a known type and takes a repository only from a dependency
-- that has one.
pub validate_workflow-IsValid :
    (steps : List WorkflowStep) → validate_workflow steps ≡ ok tt → IsValid steps
unfolding validate_workflow
validate_workflow-IsValid steps h =
    let mounting : Checked (Unit {0}) = check_all_mounts steps steps in
    let cycles : Checked (Unit {0}) = reject_cycles steps >> mounting in
    let (nonempty, h1) =
      passed (no_steps_given steps) no_steps
        (collect_ids steps [] >>= λ ids. check_all_deps ids steps >> cycles) tt h in
    let (ids, collected, h2) =
      bind-ok (collect_ids steps []) (λ ids. check_all_deps ids steps >> cycles) h1 in
    let (u, deps, h3) = bind-ok (check_all_deps ids steps) (λ _. cycles) h2 in
    let (v, acyclic, mounts) = bind-ok (reject_cycles steps) (λ _. mounting) h3 in
    record {
      given = nonempty;
      named = λ step m e. unnamed step (collect_ids-fresh steps [] ids collected step m).0 e;
      distinct = collect_ids-IsDistinct steps [] ids collected;
      known = λ a b d. known_of ids collected deps a b d;
      acyclic = reject_cycles-acyclic steps ids collected acyclic;
      mounts = λ step mount m n. check_all_mounts-accepted steps steps step mount mounts m n;
    }
  where
    unnamed : (step : WorkflowStep) → str_eq step.step_id "" ≡ false → step.step_id ≢ ""
    unnamed step e same =
        let q : str_eq "" "" ≡ false = subst (λ n. str_eq n "" ≡ false) same e in
        absurd (ground arith)

    known_of :
        (ids : List String)
        → collect_ids steps [] ≡ ok ids
        → check_all_deps ids steps ≡ ok tt
        → (a b : String) → DependsOn steps a b
        → (a ≢ b) × Known steps b
    known_of ids collected deps a b (step, m, same, dep) =
        let (other, is_known) =
          check_deps-accepted step.step_id ids step.depends_on b
            (check_all_deps-accepted ids steps step deps m) dep in
        (λ q. differ other (same ∙ q), found (collect_ids-Known steps [] ids collected b is_known))
      where
        differ : str_eq b step.step_id ≡ false → step.step_id ≡ b → ⊥
        differ e q =
            let r : str_eq b b ≡ false = subst (λ n. str_eq b n ≡ false) q e in
            let t : str_eq b b ≡ true = str_eq_refl b in absurd (ground arith)

        found : (elem b [] ≡ true) ⊎ Known steps b → Known steps b
        found (inl e) = absurd (ground arith)
        found (inr k) = k
