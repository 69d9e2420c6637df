-- ===== src/Coordinator/Counts.antt =====
-- The starts of steps and the ends of workflows in the log, counted against the sets that
-- core/orchestration/use_cases/workflow_coordinator.py keeps.
use mad_edge.Prelude.{
  ℕ, ◌≡◌, ◌≢◌, refl, subst, Bool, true, false, ◌||◌, Option, List, [], ◌∷◌, ◌++◌, String, all, elem,
  count, count-append, str_eq, str_eq-cases, Bool-cases, if_either, inl, inr, ◌⊎◌, arith,
  if◌then◌else◌,
}
use mad_edge.Events.{
  Body, task_queued, task_queued_for_window, task_dispatched, task_retrying, task_deferred,
  task_completed, task_failed, task_cancelled, task_git_result, workflow_created,
  workflow_step_started, workflow_step_completed, workflow_step_failed, workflow_completed,
  workflow_failed, dispatch_policy_updated, dispatch_policy_cleared, dispatch_priority_updated,
  session_deleted, other_event,
}
use mad_edge.Coordinator.{
  Entry, Key, key_eq, has_key, Coordinator, is_start_of, is_end_of, is_quiet, emit,
  mark_step_completed, fail_workflow, mark_step_failed,
}

abbrev pub one_if : Bool → ℕ
one_if true = 1
one_if false = 0

pub record IsCounted (c : Coordinator) : Type 0 where
  pub starts : (k : Key) → count (is_start_of k) c.log ≡ one_if (has_key k c.started)
  pub ends : (w : String) → count (is_end_of w) c.log ≡ one_if (elem w c.workflow_terminal)

no_quiet : false ≡ true → ⊥
no_quiet h = cc

pub quiet-uncounted :
    (sid : String) (b : Body) (k : Key) (w : String)
    → is_quiet b ≡ true
    → (is_start_of k (sid, b) ≡ false) × (is_end_of w (sid, b) ≡ false)
quiet-uncounted sid (task_queued a) k w h = (refl, refl)
quiet-uncounted sid (task_queued_for_window a b) k w h = (refl, refl)
quiet-uncounted sid (task_dispatched a) k w h = (refl, refl)
quiet-uncounted sid (task_retrying a b c d) k w h = (refl, refl)
quiet-uncounted sid (task_deferred a b c) k w h = (refl, refl)
quiet-uncounted sid (task_completed a) k w h = (refl, refl)
quiet-uncounted sid (task_failed a b) k w h = (refl, refl)
quiet-uncounted sid (task_cancelled a b) k w h = (refl, refl)
quiet-uncounted sid (task_git_result a b) k w h = (refl, refl)
quiet-uncounted sid (workflow_created a) k w h = absurd (no_quiet h)
quiet-uncounted sid (workflow_step_started a b) k w h = absurd (no_quiet h)
quiet-uncounted sid (workflow_step_completed a) k w h = absurd (no_quiet h)
quiet-uncounted sid (workflow_step_failed a b) k w h = absurd (no_quiet h)
quiet-uncounted sid workflow_completed k w h = absurd (no_quiet h)
quiet-uncounted sid (workflow_failed a) k w h = absurd (no_quiet h)
quiet-uncounted sid (dispatch_policy_updated a) k w h = (refl, refl)
quiet-uncounted sid dispatch_policy_cleared k w h = (refl, refl)
quiet-uncounted sid (dispatch_priority_updated a) k w h = (refl, refl)
quiet-uncounted sid (session_deleted a) k w h = (refl, refl)
quiet-uncounted sid (other_event a) k w h = (refl, refl)

quiet-count :
    (es : List Entry) (k : Key) (w : String)
    → all (λ e. is_quiet e.1) es ≡ true
    → (count (is_start_of k) es ≡ 0) × (count (is_end_of w) es ≡ 0)
quiet-count [] k w h = (refl, refl)
quiet-count ((sid, b) ∷ es) k w h =
    let u = quiet-uncounted sid b k w (ground arith) in
    let r = quiet-count es k w (ground arith) in (rw u.0 r.0, rw u.1 r.1)

-- Entries that are neither starts nor ends leave the counts.
pub quiet-IsCounted :
    (es : List Entry) (c : Coordinator)
    → all (λ e. is_quiet e.1) es ≡ true
    → IsCounted c
    → IsCounted (record c { log = c.log ++ es })
quiet-IsCounted es c h i = record {
  starts = λ k.
      omega (arith, count-append (is_start_of k) c.log es, (quiet-count es k "" h).0, i.starts k);
  ends = λ w.
      omega (arith, count-append (is_end_of w) c.log es, (quiet-count es ("", "") w h).1, i.ends w);
}

-- An entry that is neither a start nor an end of a workflow, on the sets as they are.
pub emit-IsCounted :
    (sid : String) (b : Body) (c : Coordinator)
    → ((k : Key) → is_start_of k (sid, b) ≡ false)
    → ((w : String) → is_end_of w (sid, b) ≡ false)
    → IsCounted c
    → IsCounted (emit sid b c)
unfolding emit
emit-IsCounted sid b c s e i = record {
  starts = λ k. ground (arith, count-append (is_start_of k) c.log ((sid, b) ∷ []), s k, i.starts k);
  ends = λ w. ground (arith, count-append (is_end_of w) c.log ((sid, b) ∷ []), e w, i.ends w);
}

-- The entry that ends a workflow which has not ended.
pub end-IsCounted :
    (w : String) (b : Body) (c : Coordinator)
    → ((k : Key) → is_start_of k (w, b) ≡ false)
    → ((v : String) → is_end_of v (w, b) ≡ str_eq w v)
    → elem w c.workflow_terminal ≡ false
    → IsCounted c
    → IsCounted (emit w b (record c { workflow_terminal = w ∷ c.workflow_terminal }))
unfolding emit
end-IsCounted w b c s e fresh i = record {
  starts = λ k. ground (arith, count-append (is_start_of k) c.log ((w, b) ∷ []), s k, i.starts k);
  ends = λ v. ended v (str_eq-cases w v);
}
  where
    ended :
        (v : String)
        → ((str_eq w v ≡ true) × (w ≡ v)) ⊎ ((str_eq w v ≡ false) × (w ≢ v))
        → count (is_end_of v) (c.log ++ (w, b) ∷ [])
          ≡ one_if (str_eq w v || elem v c.workflow_terminal)
    ended v (inl (q, same)) =
        let none_yet : elem v c.workflow_terminal ≡ false =
          subst (λ x. elem x c.workflow_terminal ≡ false) same fresh in
        ground (arith, count-append (is_end_of v) c.log ((w, b) ∷ []), e v, i.ends v)
    ended v (inr (q, other)) =
        ground (arith, count-append (is_end_of v) c.log ((w, b) ∷ []), e v, i.ends v)

pub mark_step_completed-IsCounted :
    (wf_id step_id : String) (c : Coordinator)
    → IsCounted c
    → IsCounted (mark_step_completed wf_id step_id c)
unfolding mark_step_completed
mark_step_completed-IsCounted wf_id step_id c i =
    if_either IsCounted
      (has_key (wf_id, step_id) c.completed_steps || has_key (wf_id, step_id) c.failed_steps) i
      (emit-IsCounted wf_id (workflow_step_completed step_id)
        (record c { completed_steps = (wf_id, step_id) ∷ c.completed_steps }) (λ k. refl)
        (λ w. refl) (record { starts = i.starts; ends = i.ends }))

fail_workflow-IsCounted :
    (wf_id reason : String) (c : Coordinator)
    → IsCounted c
    → IsCounted (fail_workflow wf_id reason c)
unfolding fail_workflow
fail_workflow-IsCounted wf_id reason c i = go (elem wf_id c.workflow_terminal) refl
  where
    go :
        (b : Bool)
        → elem wf_id c.workflow_terminal ≡ b
        → IsCounted (
            if b
            then c
            else emit wf_id
                (workflow_failed reason)
                (record c { workflow_terminal = wf_id ∷ c.workflow_terminal }))
    go true q = i
    go false q = end-IsCounted wf_id (workflow_failed reason) c (λ k. refl) (λ w. refl) q i

pub mark_step_failed-IsCounted :
    (wf_id step_id reason : String) (c : Coordinator)
    → IsCounted c
    → IsCounted (mark_step_failed wf_id step_id reason c)
unfolding mark_step_failed
mark_step_failed-IsCounted wf_id step_id reason c i =
    if_either IsCounted
      (has_key (wf_id, step_id) c.completed_steps || has_key (wf_id, step_id) c.failed_steps) i
      (fail_workflow-IsCounted wf_id reason
        (emit wf_id (workflow_step_failed step_id reason)
          (record c { failed_steps = (wf_id, step_id) ∷ c.failed_steps }))
        (emit-IsCounted wf_id (workflow_step_failed step_id reason)
          (record c { failed_steps = (wf_id, step_id) ∷ c.failed_steps }) (λ k. refl) (λ w. refl)
          (record { starts = i.starts; ends = i.ends })))

pub key_eq_sound : (a b : Key) → key_eq a b ≡ true → a ≡ b
key_eq_sound a b h = go (str_eq-cases a.0 b.0) (str_eq-cases a.1 b.1)
  where
    go :
        ((str_eq a.0 b.0 ≡ true) × (a.0 ≡ b.0)) ⊎ ((str_eq a.0 b.0 ≡ false) × (a.0 ≢ b.0))
        → ((str_eq a.1 b.1 ≡ true) × (a.1 ≡ b.1)) ⊎ ((str_eq a.1 b.1 ≡ false) × (a.1 ≢ b.1))
        → a ≡ b
    go (inl (p, x)) (inl (q, y)) = λ i. (x i, y i)
    go (inl (p, x)) (inr (q, y)) = absurd (ground arith)
    go (inr (p, x)) _ = absurd (ground arith)

-- The entry of a step's start, for a step that has not started.
pub start-IsCounted :
    (wf_id step_id : String) (session_id : Option String) (c : Coordinator)
    → has_key (wf_id, step_id) c.started ≡ false
    → IsCounted c
    → IsCounted (
        emit wf_id
          (workflow_step_started step_id session_id)
          (record c { started = (wf_id, step_id) ∷ c.started }))
unfolding emit
start-IsCounted wf_id step_id session_id c fresh i = record {
  starts = λ k. started_at k (Bool-cases (key_eq (wf_id, step_id) k));
  ends = λ w. ground (arith, count-append (is_end_of w) c.log (start ∷ []), i.ends w);
}
  where
    start : Entry
    start = (wf_id, workflow_step_started step_id session_id)

    started_at :
        (k : Key)
        → (key_eq (wf_id, step_id) k ≡ true) ⊎ (key_eq (wf_id, step_id) k ≡ false)
        → count (is_start_of k) (c.log ++ start ∷ [])
          ≡ one_if (key_eq (wf_id, step_id) k || has_key k c.started)
    started_at k (inl q) =
        let none_yet : has_key k c.started ≡ false =
          subst (λ j. has_key j c.started ≡ false) (key_eq_sound (wf_id, step_id) k q) fresh in
        ground (arith, count-append (is_start_of k) c.log (start ∷ []), i.starts k)
    started_at k (inr q) =
        ground (arith, count-append (is_start_of k) c.log (start ∷ []), i.starts k)
