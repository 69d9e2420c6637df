-- ===== src/Coordinator/Gate.antt =====
-- `_advance` of core/orchestration/use_cases/workflow_coordinator.py: which steps it starts.
use mad_edge.Prelude.{
  ◌≡◌, refl, sym, subst, ◌∙◌, Bool, true, false, not, ◌&&◌, ◌||◌, List, [], ◌∷◌, String, elem,
  Member, Bool-cases, if_either, inl, inr, ◌⊎◌, arith, if◌then◌else◌,
}
use mad_edge.Workflow.{WorkflowStep}
use mad_edge.Coordinator.{
  Key, key_eq, has_key, Coordinator, MountError, Provisioned, provisioned, refused, Surroundings,
  emit, fail_workflow, mark_step_failed, completed_ids, subset,
}
use mad_edge.Coordinator.Mounts.{resolve_mounts}
use mad_edge.Coordinator.Advance.{
  start_step, after_provision, enqueue_or_fail, complete_if_done, advance_loop, advance,
}
use mad_edge.Coordinator.Counts.{key_eq_sound}

-- The sets of the started steps are the same.
abbrev SameStarted : List Key → Coordinator → Type 0
SameStarted ks c = c.started ≡ ks

mark_step_failed-started :
    (wf_id step_id reason : String) (c : Coordinator)
    → SameStarted c.started (mark_step_failed wf_id step_id reason c)
unfolding mark_step_failed fail_workflow emit
mark_step_failed-started wf_id step_id reason c =
    if_either (SameStarted c.started)
      (has_key (wf_id, step_id) c.completed_steps || has_key (wf_id, step_id) c.failed_steps) refl
      (if_either (SameStarted c.started) (elem wf_id c.workflow_terminal) refl refl)

completed_ids_lem :
    (wf_id d : String) (keys : List Key)
    → elem d (completed_ids wf_id keys) ≡ has_key (wf_id, d) keys
unfolding completed_ids
completed_ids_lem wf_id d [] = refl
completed_ids_lem wf_id d ((w, sid) ∷ keys) = ground (arith, completed_ids_lem wf_id d keys)

-- All texts of the list have the property.
Each : (xs ys : List String) (x : String) → subset xs ys ≡ true → Member x xs → elem x ys ≡ true
Each [] ys x h m = absurd m
Each (y ∷ xs) ys x h (inl same) = subst (λ s. elem s ys ≡ true) (sym same) (ground arith)
Each (y ∷ xs) ys x h (inr m) = Each xs ys x (ground arith) m

-- A step of the workflow that may start: the workflow has not ended, the step has not been started, and
-- all that it depends on is completed.
pub record MayStart (wf_id : String) (steps : List WorkflowStep) (c : Coordinator) (k : Key)
    : Type 0 where
  pub step : WorkflowStep
  of_workflow : Member step steps
  pub named : k ≡ (wf_id, step.step_id)
  pub running : elem wf_id c.workflow_terminal ≡ false
  pub fresh : has_key k c.started ≡ false
  dependencies :
      (d : String) → Member d step.depends_on → has_key (wf_id, d) c.completed_steps ≡ true

-- What a pass over the steps that are left starts: steps of these that had not started, with all
-- dependencies in `done`.
abbrev Gated : String → List String → List WorkflowStep → Coordinator → Coordinator → Type 0
Gated wf_id done rest c c' =
    (k : Key)
    → has_key k c'.started ≡ true
    → (has_key k c.started ≡ true)
      ⊎ ((step : WorkflowStep) × Member step rest
          × (k ≡ (wf_id, step.step_id))
          × (has_key k c.started ≡ false)
          × (subset step.depends_on done ≡ true))

module _ (s : Surroundings) where
  enqueue_or_fail-started :
      (wf_id : String) (step : WorkflowStep) (session_id : String) (errors : List MountError)
      (c : Coordinator)
      → SameStarted c.started (enqueue_or_fail s wf_id step session_id errors c)
  unfolding enqueue_or_fail emit
  enqueue_or_fail-started wf_id step session_id [] c = refl
  enqueue_or_fail-started wf_id step session_id (e ∷ errors) c =
      mark_step_failed-started wf_id step.step_id _ _

  after_provision-started :
      (wf_id : String) (step : WorkflowStep) (errors : List MountError) (p : Provisioned)
      (c : Coordinator)
      → SameStarted c.started (after_provision s wf_id step errors p c)
  unfolding after_provision emit
  after_provision-started wf_id step errors (refused exc es) c =
      mark_step_failed-started wf_id step.step_id _ _
  after_provision-started wf_id step errors (provisioned session_id es) c =
      enqueue_or_fail-started wf_id step session_id errors _

  start_step-started :
      (wf_id : String) (steps : List WorkflowStep) (step : WorkflowStep) (c : Coordinator)
      → SameStarted ((wf_id, step.step_id) ∷ c.started) (start_step s wf_id steps step c)
  unfolding start_step
  start_step-started wf_id steps step c =
      let (specs, errors) = resolve_mounts wf_id steps c step.mounts in
      after_provision-started wf_id step errors (s.provision step specs c.log)
        (record c { started = (wf_id, step.step_id) ∷ c.started })

  complete_if_done-started :
      (wf_id : String) (steps : List WorkflowStep) (done : List String) (c : Coordinator)
      → SameStarted c.started (complete_if_done s wf_id steps done c)
  unfolding complete_if_done emit
  complete_if_done-started wf_id steps done c = if_either (SameStarted c.started) _ refl refl

  advance_loop-Gated :
      (wf_id : String) (steps : List WorkflowStep) (done : List String) (rest : List WorkflowStep)
      (c : Coordinator)
      → Gated wf_id done rest c (advance_loop s wf_id steps done rest c)
  unfolding advance_loop
  advance_loop-Gated wf_id steps done [] c =
      λ k h. inl (subst (λ ks. has_key k ks ≡ true) (complete_if_done-started wf_id steps done c) h)
  advance_loop-Gated wf_id steps done (step ∷ rest) c =
      go (has_key (wf_id, step.step_id) c.started) refl
        (has_key (wf_id, step.step_id) c.failed_steps) (subset step.depends_on done) refl
        (advance_loop-Gated wf_id steps done rest)
    where
      now : Coordinator
      now = start_step s wf_id steps step c

      branch : Bool → Coordinator
      branch eligible =
          let c' = if eligible then now else c in
          if eligible && elem wf_id c'.workflow_terminal
          then c'
          else advance_loop s wf_id steps done rest c'

      later : (x : Coordinator) → Gated wf_id done rest c x → Gated wf_id done (step ∷ rest) c x
      later x g k h = elim (g k h) [
        | inl old ↦ inl old
        | inr found ↦ inr (found.0, inr found.1, found.2, found.3, found.4)
      ]

      first :
          has_key (wf_id, step.step_id) c.started ≡ false
          → subset step.depends_on done ≡ true
          → Gated wf_id done (step ∷ rest) c now
      first q e k h =
          let h' : has_key k ((wf_id, step.step_id) ∷ c.started) ≡ true =
            subst (λ ks. has_key k ks ≡ true) (start_step-started wf_id steps step c) h in
          elim (Bool-cases (key_eq (wf_id, step.step_id) k)) [
            | inl same ↦
                let p = key_eq_sound (wf_id, step.step_id) k same in
                inr (step, inl refl, sym p, subst (λ j. has_key j c.started ≡ false) p q, e)
            | inr other ↦ inl (ground arith)
          ]

      go :
          (a : Bool)
          → has_key (wf_id, step.step_id) c.started ≡ a
          → (b d : Bool) → subset step.depends_on done ≡ d
          → ((x : Coordinator) → Gated wf_id done rest x (advance_loop s wf_id steps done rest x))
          → Gated wf_id done (step ∷ rest) c (branch (not (a || b) && d))
      go true q b d e ih = later (advance_loop s wf_id steps done rest c) (ih c)
      go false q true d e ih = later (advance_loop s wf_id steps done rest c) (ih c)
      go false q false false e ih = later (advance_loop s wf_id steps done rest c) (ih c)
      go false q false true e ih =
          if_either (Gated wf_id done (step ∷ rest) c) (elem wf_id now.workflow_terminal)
            (first q e) (both (advance_loop s wf_id steps done rest now) (ih now))
        where
          both :
              (x : Coordinator) → Gated wf_id done rest now x → Gated wf_id done (step ∷ rest) c x
          both x g k h = elim (g k h) [
            | inl old ↦ first q e k old
            | inr found ↦ elim (Bool-cases (has_key k c.started)) [
              | inl before ↦ inl before
              | inr fresh ↦ inr (found.0, inr found.1, found.2, fresh, found.4)
            ]
          ]

  -- A step that is started after `_advance` had started before, or it is a step of the workflow, which
  -- has not ended, and all that it depends on has completed.
  pub advance-MayStart :
      (wf_id : String) (steps : List WorkflowStep) (c : Coordinator) (k : Key)
      → has_key k (advance s wf_id steps c).started ≡ true
      → (has_key k c.started ≡ true) ⊎ MayStart wf_id steps c k
  unfolding advance
  advance-MayStart wf_id steps c k h = go (elem wf_id c.workflow_terminal) refl h
    where
      done : List String
      done = completed_ids wf_id c.completed_steps

      go :
          (b : Bool)
          → elem wf_id c.workflow_terminal ≡ b
          → has_key k (if b then c else advance_loop s wf_id steps done steps c).started ≡ true
          → (has_key k c.started ≡ true) ⊎ MayStart wf_id steps c k
      go true q h = inl h
      go false q h = elim (advance_loop-Gated wf_id steps done steps c k h) [
        | inl old ↦ inl old
        | inr found ↦ inr (record {
          step = found.0;
          of_workflow = found.1;
          named = found.2;
          running = q;
          fresh = found.3;
          dependencies = λ d m.
              sym (completed_ids_lem wf_id d c.completed_steps)
              ∙ Each found.0.depends_on done d found.4 m;
        })
      ]
