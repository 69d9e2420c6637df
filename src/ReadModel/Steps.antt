-- ===== src/ReadModel/Steps.antt =====
-- One step of one workflow in adapters/outbound/orchestration/workflow_projection.py, under a change.
use mad_edge.Prelude.{
  ◌≡◌, ◌≢◌, refl, subst, true, false, Option, none, some, String, str_eq, str_eq-cases, if_either,
  inl, inr, ◌⊎◌, if◌then◌else◌,
}
use mad_edge.Prelude.Dict.{Dict, lookup, lookup-insert}
use mad_edge.Json.{◌>>=◌}
use mad_edge.Coordinator.{key_eq}
use mad_edge.ReadModel.{StepState, WorkflowState, States, change_step, change_workflow, change}

-- The state of a step of a workflow, if both are known.
unfoldable pub step_of : String → String → States → Option StepState
step_of wf_id step_id states = lookup wf_id states >>= λ w. lookup step_id w.steps

abbrev pub mapped : (StepState → StepState) → Option StepState → Option StepState
mapped f none = none
mapped f (some s) = some (f s)

-- A change to a step changes that step, and no other.
change_step-lookup :
    (x y : String) (f : StepState → StepState) (d : Dict StepState)
    → lookup y (change_step x f (lookup x d) d)
      ≡ (if str_eq x y then mapped f (lookup y d) else lookup y d)
change_step-lookup x y f d = go (lookup x d) refl (str_eq-cases x y)
  where
    go :
        (k : Option StepState)
        → lookup x d ≡ k
        → ((str_eq x y ≡ true) × (x ≡ y)) ⊎ ((str_eq x y ≡ false) × (x ≢ y))
        → lookup y (change_step x f k d)
          ≡ (if str_eq x y then mapped f (lookup y d) else lookup y d)
    go none q (inl (e, same)) =
        let n : lookup y d ≡ none = subst (λ z. lookup z d ≡ none) same q in rw (e, n) refl
    go none q (inr (e, other)) = rw e refl
    go (some s) q (inl (e, same)) =
        let n : lookup y d ≡ some s = subst (λ z. lookup z d ≡ some s) same q in
        rw (lookup-insert x y (f s) d, e, n) refl
    go (some s) q (inr (e, other)) = rw (lookup-insert x y (f s) d, e) refl

pub step_of-change :
    (w x v y : String) (f : StepState → StepState) (states : States)
    → step_of v y (change w x f states)
      ≡ (if key_eq (w, x) (v, y) then mapped f (step_of v y states) else step_of v y states)
unfolding step_of change
step_of-change w x v y f states = go (lookup w states) refl (str_eq-cases w v)
  where
    go :
        (k : Option WorkflowState)
        → lookup w states ≡ k
        → ((str_eq w v ≡ true) × (w ≡ v)) ⊎ ((str_eq w v ≡ false) × (w ≢ v))
        → (lookup v (change_workflow w x f k states) >>= λ s. lookup y s.steps) ≡ (
            if key_eq (w, x) (v, y)
            then mapped f (lookup v states >>= λ s. lookup y s.steps)
            else (lookup v states >>= λ s. lookup y s.steps))
    go none q (inl (e, same)) =
        let n : lookup v states ≡ none = subst (λ z. lookup z states ≡ none) same q in
        rw (e, n) (if_either (λ (r : Option StepState). none ≡ r) (str_eq x y) refl refl)
    go none q (inr (e, other)) = rw e refl
    go (some s) q (inl (e, same)) =
        let n : lookup v states ≡ some s = subst (λ z. lookup z states ≡ some s) same q in
        rw
          (
            lookup-insert w v (record s { steps = change_step x f (lookup x s.steps) s.steps })
                states,
            e,
            n,
          )
          (change_step-lookup x y f s.steps)
    go (some s) q (inr (e, other)) =
        rw
          (
            lookup-insert w v (record s { steps = change_step x f (lookup x s.steps) s.steps })
                states,
            e,
          )
          refl
