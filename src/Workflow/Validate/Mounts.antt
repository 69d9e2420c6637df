-- ===== src/Workflow/Validate/Mounts.antt =====
-- `_validate_mount` of core/orchestration/domain/workflow.py.
use mad_edge.Prelude.{
  ◌≡◌, refl, sym, subst, ◌∙◌, true, false, not, any, ◌||◌, Option, none, some, List, [], ◌∷◌,
  String, elem, str_eq, str_eq_sound, str_eq-cases, Member, inl, inr, ◌⊎◌, arith, if◌then◌else◌,
}
use mad_edge.Workflow.{WorkflowMount, WorkflowStep, github, is_github}
use mad_edge.Workflow.Validate.{
  Checked, ok, ◌>>◌, reject_if, find_step, check_referenced, check_source, validate_mount,
  check_mounts, check_all_mounts, unknown_type, from_step_on_file, unknown_ref, not_a_dependency,
}
use mad_edge.Workflow.Validate.Visit.{bind-ok, passed}

-- A mount of a known type; one that takes another step's result is a repository, at a commit or
-- a branch of a step that its own step depends on and that has a repository.
abbrev pub IsValidMount : List WorkflowStep → WorkflowStep → WorkflowMount → Type 0
IsValidMount steps step mount =
    ((mount.type ≡ github) ⊎ (mount.type ≡ "file"))
    × ((from_step : String)
        → mount.from_step ≡ some from_step
        → (mount.type ≡ github)
          × ((mount.ref ≡ "sha") ⊎ (mount.ref ≡ "branch"))
          × (elem from_step step.depends_on ≡ true)
          × (source : WorkflowStep) × Member source steps
          × (source.step_id ≡ from_step)
          × (any is_github source.mounts ≡ true))

pub find_step-Member :
    (sid : String) (steps : List WorkflowStep) (source : WorkflowStep)
    → find_step sid steps ≡ some source
    → Member source steps × (source.step_id ≡ sid)
unfolding find_step
find_step-Member sid [] source h = cc
find_step-Member sid (s ∷ steps) source h =
    go (find_step sid steps) refl (find_step-Member sid steps)
  where
    go :
        (k : Option WorkflowStep)
        → find_step sid steps ≡ k
        → ((t : WorkflowStep) → find_step sid steps ≡ some t → Member t steps × (t.step_id ≡ sid))
        → Member source (s ∷ steps) × (source.step_id ≡ sid)
    go (some later) q ih = let r = ih source (q ∙ (rw (find_step, q) at h)) in (inr r.0, r.1)
    go none q ih = hit (rw (find_step, q) at h)
      where
        hit :
            (if str_eq s.step_id sid then some s else none) ≡ some source
            → Member source (s ∷ steps) × (source.step_id ≡ sid)
        hit e = elim (str_eq-cases s.step_id sid) [
          | inl (t, same) ↦
              subst (λ x. Member x (s ∷ steps) × (x.step_id ≡ sid)) (ground arith) (inl refl, same)
          | inr (t, other) ↦ absurd (ground arith)
        ]

either : (s a b : String) → not (str_eq s a || str_eq s b) ≡ false → (s ≡ a) ⊎ (s ≡ b)
either s a b h = elim (str_eq-cases s a) [
  | inl (q, same) ↦ inl same
  | inr (q, other) ↦ inr (str_eq_sound s b (ground arith))
]

module _ (steps : List WorkflowStep) (step : WorkflowStep) where
  check_referenced-accepted :
      (from_step : String)
      → check_referenced (find_step from_step steps) ≡ ok tt
      → (source : WorkflowStep) × Member source steps
        × (source.step_id ≡ from_step)
        × (any is_github source.mounts ≡ true)
  unfolding check_referenced
  check_referenced-accepted from_step h = go (find_step from_step steps) refl h
    where
      go :
          (k : Option WorkflowStep)
          → find_step from_step steps ≡ k
          → check_referenced k ≡ ok tt
          → (source : WorkflowStep) × Member source steps
            × (source.step_id ≡ from_step)
            × (any is_github source.mounts ≡ true)
      go none q e = absurd (ground arith)
      go (some t) q e =
          let (m, same) = find_step-Member from_step steps t q in (t, m, same, ground arith)

  check_source-accepted :
      (mount : WorkflowMount) (from_step : String)
      → check_source steps step mount (some from_step) ≡ ok tt
      → (mount.type ≡ github)
        × ((mount.ref ≡ "sha") ⊎ (mount.ref ≡ "branch"))
        × (elem from_step step.depends_on ≡ true)
        × (source : WorkflowStep) × Member source steps
        × (source.step_id ≡ from_step)
        × (any is_github source.mounts ≡ true)
  unfolding check_source is_github
  check_source-accepted mount from_step h =
      let referenced : Checked (Unit {0}) = check_referenced (find_step from_step steps) in
      let depends : Checked (Unit {0}) =
        reject_if (not (elem from_step step.depends_on)) not_a_dependency >> referenced in
      let pinned : Checked (Unit {0}) =
        reject_if (not (str_eq mount.ref "sha" || str_eq mount.ref "branch")) unknown_ref
        >> depends in
      let (a, h1) = passed (not (is_github mount)) from_step_on_file pinned tt h in
      let (b, h2) =
        passed (not (str_eq mount.ref "sha" || str_eq mount.ref "branch")) unknown_ref depends tt
          h1 in
      let (c, h3) =
        passed (not (elem from_step step.depends_on)) not_a_dependency referenced tt h2 in
      let (source, m, same, repo) = check_referenced-accepted from_step h3 in
      (
        str_eq_sound mount.type github (ground arith),
        either mount.ref "sha" "branch" b,
        ground arith,
        source,
        m,
        same,
        repo,
      )

  validate_mount-accepted :
      (mount : WorkflowMount)
      → validate_mount steps step mount ≡ ok tt
      → IsValidMount steps step mount
  unfolding validate_mount
  validate_mount-accepted mount h =
      let (a, h1) =
        passed (not (str_eq mount.type github || str_eq mount.type "file")) unknown_type
          (check_source steps step mount mount.from_step) tt h in
      (
        either mount.type github "file" a,
        λ from_step q.
            check_source-accepted mount from_step
              (subst (λ k. check_source steps step mount k ≡ ok tt) q h1),
      )

  check_mounts-accepted :
      (mounts : List WorkflowMount) (mount : WorkflowMount)
      → check_mounts steps step mounts ≡ ok tt
      → Member mount mounts
      → IsValidMount steps step mount
  unfolding check_mounts
  check_mounts-accepted [] mount h m = absurd m
  check_mounts-accepted (x ∷ mounts) mount h m =
      let (u, first, rest) =
        bind-ok (validate_mount steps step x) (λ _. check_mounts steps step mounts) h in
      elim m [
        | inl same ↦
            subst (λ y. IsValidMount steps step y) (sym same) (validate_mount-accepted x first)
        | inr later ↦ check_mounts-accepted mounts mount rest later
      ]

pub check_all_mounts-accepted :
    (steps rest : List WorkflowStep) (step : WorkflowStep) (mount : WorkflowMount)
    → check_all_mounts steps rest ≡ ok tt
    → Member step rest
    → Member mount step.mounts
    → IsValidMount steps step mount
unfolding check_all_mounts
check_all_mounts-accepted steps [] step mount h m n = absurd m
check_all_mounts-accepted steps (s ∷ rest) step mount h m n =
    let (u, first, later) =
      bind-ok (check_mounts steps s s.mounts) (λ _. check_all_mounts steps rest) h in
    elim m [
      | inl same ↦
          check_mounts-accepted steps step step.mounts mount
            (subst (λ t. check_mounts steps t t.mounts ≡ ok tt) (sym same) first) n
      | inr after ↦ check_all_mounts-accepted steps rest step mount later after n
    ]
