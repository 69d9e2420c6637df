-- ===== src/Workflow/Validate/Ids.antt =====
-- The loops of `validate_workflow`, in core/orchestration/domain/workflow.py, over the ids and over the
-- dependencies of the steps.
use mad_edge.Prelude.{
  ◌≡◌, ◌≢◌, refl, sym, subst, true, false, not, List, [], ◌∷◌, String, elem, str_eq, str_eq_refl,
  str_eq-cases, Member, inl, inr, ◌⊎◌, arith,
}
use mad_edge.Workflow.{WorkflowStep}
use mad_edge.Workflow.Validate.{
  Checked, ok, ◌>>◌, reject_if, collect_ids, self_dependency, unknown_dependency, check_deps,
  check_all_deps,
}
use mad_edge.Workflow.Validate.Visit.{bind-ok, passed}
use mad_edge.Workflow.Validate.Acyclic.{collect_ids-passed, collect_ids-fresh}

-- Some step of the list has the id.
abbrev pub Known : List WorkflowStep → String → Type 0
Known steps sid = (step : WorkflowStep) × Member step steps × (step.step_id ≡ sid)

abbrev pub IsDistinct : List WorkflowStep → Type 0
IsDistinct [] = Unit
IsDistinct (s ∷ steps) =
    ((t : WorkflowStep) → Member t steps → t.step_id ≢ s.step_id) × IsDistinct steps

-- The ids that `collect_ids` returns are those it was given and those of the steps.
pub collect_ids-Known :
    (steps : List WorkflowStep) (ids ids' : List String)
    → collect_ids steps ids ≡ ok ids'
    → (n : String) → elem n ids' ≡ true
    → (elem n ids ≡ true) ⊎ Known steps n
unfolding collect_ids
collect_ids-Known [] ids ids' h n m = inl (subst (λ ns. elem n ns ≡ true) (cc) m)
collect_ids-Known (s ∷ steps) ids ids' h n m =
    let (first, second, h2) = collect_ids-passed s steps ids ids' h in
    go (collect_ids-Known steps (s.step_id ∷ ids) ids' h2 n m)
  where
    go :
        (elem n (s.step_id ∷ ids) ≡ true) ⊎ Known steps n
        → (elem n ids ≡ true) ⊎ Known (s ∷ steps) n
    go (inr (t, k, q)) = inr (t, inr k, q)
    go (inl e) = elim (str_eq-cases s.step_id n) [
      | inl (q, same) ↦ inr (s, inl refl, same)
      | inr (q, other) ↦ inl (ground arith)
    ]

pub collect_ids-IsDistinct :
    (steps : List WorkflowStep) (ids ids' : List String)
    → collect_ids steps ids ≡ ok ids'
    → IsDistinct steps
collect_ids-IsDistinct [] ids ids' h = tt
collect_ids-IsDistinct (s ∷ steps) ids ids' h =
    let (first, second, h2) = collect_ids-passed s steps ids ids' h in
    (
      λ t m same. differs t (collect_ids-fresh steps (s.step_id ∷ ids) ids' h2 t m).1 same,
      collect_ids-IsDistinct steps (s.step_id ∷ ids) ids' h2,
    )
  where
    differs : (t : WorkflowStep) → elem t.step_id (s.step_id ∷ ids) ≡ false → t.step_id ≢ s.step_id
    differs t e same =
        let q : str_eq s.step_id t.step_id ≡ true =
          subst (λ n. str_eq n t.step_id ≡ true) same (str_eq_refl t.step_id) in
        absurd (ground arith)

pub check_deps-accepted :
    (sid : String) (ids deps : List String) (b : String)
    → check_deps sid ids deps ≡ ok tt
    → elem b deps ≡ true
    → (str_eq b sid ≡ false) × (elem b ids ≡ true)
unfolding check_deps
check_deps-accepted sid ids [] b h e = absurd (ground arith)
check_deps-accepted sid ids (d ∷ deps) b h e =
    let rest : Checked (Unit {0}) = check_deps sid ids deps in
    let (first, h1) =
      passed (str_eq d sid) self_dependency
        (reject_if (not (elem d ids)) unknown_dependency >> rest) tt h in
    let (second, h2) = passed (not (elem d ids)) unknown_dependency rest tt h1 in
    go first second (check_deps-accepted sid ids deps b h2)
  where
    go :
        str_eq d sid ≡ false
        → not (elem d ids) ≡ false
        → (elem b deps ≡ true → (str_eq b sid ≡ false) × (elem b ids ≡ true))
        → (str_eq b sid ≡ false) × (elem b ids ≡ true)
    go x y ih = elim (str_eq-cases d b) [
      | inl (q, same) ↦
          subst (λ n. (str_eq n sid ≡ false) × (elem n ids ≡ true)) same (x, ground arith)
      | inr (q, other) ↦ ih (ground arith)
    ]

pub check_all_deps-accepted :
    (ids : List String) (steps : List WorkflowStep) (step : WorkflowStep)
    → check_all_deps ids steps ≡ ok tt
    → Member step steps
    → check_deps step.step_id ids step.depends_on ≡ ok tt
unfolding check_all_deps
check_all_deps-accepted ids [] step h m = absurd m
check_all_deps-accepted ids (s ∷ steps) step h m =
    let (u, first, rest) =
      bind-ok (check_deps s.step_id ids s.depends_on) (λ _. check_all_deps ids steps) h in
    elim m [
      | inl same ↦ subst (λ t. check_deps t.step_id ids t.depends_on ≡ ok tt) (sym same) first
      | inr later ↦ check_all_deps-accepted ids steps step rest later
    ]
