-- ===== src/Coordinator/Once.antt =====
-- The coordinator of core/orchestration/use_cases/workflow_coordinator.py over the runs of the program,
-- with its restarts.
use mad_edge.Prelude.{
  ap, ◌++◌, length, take-all, ◌≤◌, false, ◌≡◌, refl, sym, subst, ◌∙◌, Bool, true, ◌||◌, none, some,
  List, [], ◌∷◌, String, any, elem, count, Bool-cases, inl, inr, arith,
}
use mad_edge.Events.{
  Body, task_queued, task_queued_for_window, task_dispatched, task_retrying, task_deferred,
  task_completed, task_failed, task_cancelled, task_git_result, workflow_created,
  workflow_step_started, workflow_step_completed, workflow_step_failed, workflow_completed,
  workflow_failed, dispatch_policy_updated, dispatch_policy_cleared, dispatch_priority_updated,
  session_deleted, other_event,
}
use mad_edge.Coordinator.{
  Entry, Key, has_key, Coordinator, is_start_of, is_end_of, is_quiet, Surroundings, emit,
  fresh_coordinator,
}
use mathlib.Core.Option.{some-injective}
use mad_edge.Json.{then_some, Fields, get, read_text}
use mad_edge.Workflow.Serial.{steps_from_created_data}
use mad_edge.Coordinator.Counts.{quiet-uncounted, one_if, IsCounted, emit-IsCounted}
use mad_edge.Coordinator.Advance.{handle, trigger_of}
use mad_edge.Coordinator.Restart.{
  apply_persisted, apply_all, bootstrap_limit, bootstrap_from_log, resume,
}
use mad_edge.Coordinator.Starts.{handle_trigger-IsCounted, resume-IsCounted}

-- What the replay of one entry does to the sets.
record Recorded (sid : String) (b : Body) (c : Coordinator) (c' : Coordinator) : Type 0 where
  starts : (k : Key) → has_key k c'.started ≡ (is_start_of k (sid, b) || has_key k c.started)
  ends :
      (w : String)
      → elem w c'.workflow_terminal ≡ (is_end_of w (sid, b) || elem w c.workflow_terminal)
  log : c'.log ≡ c.log

recorded :
    (sid : String) (b : Body) (c c1 c' : Coordinator)
    → ((k : Key) → has_key k c1.started ≡ (is_start_of k (sid, b) || has_key k c.started))
    → ((w : String)
        → elem w c1.workflow_terminal ≡ (is_end_of w (sid, b) || elem w c.workflow_terminal))
    → c1.log ≡ c.log
    → some c1 ≡ some c'
    → Recorded sid b c c'
recorded sid b c c1 c' starts ends log h =
    subst (Recorded sid b c) (some-injective c1 c' h)
      (record { starts = starts; ends = ends; log = log })

persisted :
    (sid : String) (b : Body) (c c' : Coordinator)
    → apply_persisted (sid, b) c ≡ some c'
    → Recorded sid b c c'
unfolding apply_persisted
persisted sid (task_queued x) c c' h = recorded sid _ c _ c' (λ k. refl) (λ w. refl) refl h
persisted sid (task_queued_for_window x y) c c' h =
    recorded sid _ c _ c' (λ k. refl) (λ w. refl) refl h
persisted sid (task_dispatched x) c c' h = recorded sid _ c _ c' (λ k. refl) (λ w. refl) refl h
persisted sid (task_retrying x y z u) c c' h = recorded sid _ c _ c' (λ k. refl) (λ w. refl) refl h
persisted sid (task_deferred x y z) c c' h = recorded sid _ c _ c' (λ k. refl) (λ w. refl) refl h
persisted sid (task_completed x) c c' h = recorded sid _ c _ c' (λ k. refl) (λ w. refl) refl h
persisted sid (task_failed x y) c c' h = recorded sid _ c _ c' (λ k. refl) (λ w. refl) refl h
persisted sid (task_cancelled x y) c c' h = recorded sid _ c _ c' (λ k. refl) (λ w. refl) refl h
persisted sid (task_git_result x y) c c' h = recorded sid _ c _ c' (λ k. refl) (λ w. refl) refl h
persisted sid (workflow_created data') c c' h =
    let (wf_id, q, h1) = then_some (read_text (get "workflow_id" data')) _ c' h in
    let (steps, r, h2) = then_some (steps_from_created_data data') _ c' h1 in
    recorded sid _ c _ c' (λ k. refl) (λ w. refl) refl h2
persisted sid (workflow_step_started step_id none) c c' h =
    recorded sid _ c _ c' (λ k. refl) (λ w. refl) refl h
persisted sid (workflow_step_started step_id (some session_id)) c c' h =
    recorded sid _ c _ c' (λ k. refl) (λ w. refl) refl h
persisted sid (workflow_step_completed x) c c' h =
    recorded sid _ c _ c' (λ k. refl) (λ w. refl) refl h
persisted sid (workflow_step_failed x y) c c' h =
    recorded sid _ c _ c' (λ k. refl) (λ w. refl) refl h
persisted sid workflow_completed c c' h = recorded sid _ c _ c' (λ k. refl) (λ w. refl) refl h
persisted sid (workflow_failed x) c c' h = recorded sid _ c _ c' (λ k. refl) (λ w. refl) refl h
persisted sid (dispatch_policy_updated x) c c' h =
    recorded sid _ c _ c' (λ k. refl) (λ w. refl) refl h
persisted sid dispatch_policy_cleared c c' h = recorded sid _ c _ c' (λ k. refl) (λ w. refl) refl h
persisted sid (dispatch_priority_updated x) c c' h =
    recorded sid _ c _ c' (λ k. refl) (λ w. refl) refl h
persisted sid (session_deleted x) c c' h = recorded sid _ c _ c' (λ k. refl) (λ w. refl) refl h
persisted sid (other_event x) c c' h = recorded sid _ c _ c' (λ k. refl) (λ w. refl) refl h

replayed :
    (log : List Entry) (c c' : Coordinator)
    → apply_all log c ≡ some c'
    → ((k : Key) → has_key k c'.started ≡ (any (is_start_of k) log || has_key k c.started))
      × ((w : String)
          → elem w c'.workflow_terminal ≡ (any (is_end_of w) log || elem w c.workflow_terminal))
      × (c'.log ≡ c.log)
unfolding apply_all
replayed [] c c' h =
    subst
      (λ x.
        ((k : Key) → has_key k x.started ≡ has_key k c.started)
        × ((w : String) → elem w x.workflow_terminal ≡ elem w c.workflow_terminal)
        × (x.log ≡ c.log))
      (some-injective c c' h) (λ k. refl, λ w. refl, refl)
replayed ((sid, b) ∷ log) c c' h =
    let (mid, q, h1) = then_some (apply_persisted (sid, b) c) (apply_all log) c' h in
    let one = persisted sid b c mid q in
    let (s, e, l) = replayed log mid c' h1 in
    (λ k. ground (arith, s k, one.starts k), λ w. ground (arith, e w, one.ends w), l ∙ one.log)

-- No entry of the log starts a step, or ends a workflow, that an earlier one does.
pub record IsOnce (log : List Entry) : Type 0 where
  pub starts : (k : Key) → count (is_start_of k) log ≤ 1
  pub ends : (w : String) → count (is_end_of w) log ≤ 1

any-count :
    (p : Entry → Bool) (log : List Entry) → count p log ≤ 1 → count p log ≡ one_if (any p log)
any-count p [] h = refl
any-count p (e ∷ log) h = elim (Bool-cases (p e)) [
  | inl q ↦ ground arith
  | inr q ↦ ground (arith, any-count p log (ground arith))
]

-- The same entries, in any order.
abbrev pub SameEntries : List Entry → List Entry → Type 0
SameEntries xs ys = (p : Entry → Bool) → count p xs ≡ count p ys

length-count : (xs : List Entry) → length xs ≡ count (λ e. true) xs
length-count [] = refl
length-count (x ∷ xs) = ground (arith, length-count xs)

count-left : (p : Entry → Bool) (xs ys : List Entry) → count p xs ≤ count p (xs ++ ys)
count-left p [] ys = omega arith
count-left p (x ∷ xs) ys = ground (arith, count-left p xs ys)

-- The start of a log whose entries come once.
IsOnce-left : (log kept lost : List Entry) → log ≡ kept ++ lost → IsOnce log → IsOnce kept
IsOnce-left log kept lost e once = record {
  starts = λ k.
      omega (arith, whole (is_start_of k), count-left (is_start_of k) kept lost, once.starts k);
  ends = λ w. omega (arith, whole (is_end_of w), count-left (is_end_of w) kept lost, once.ends w);
}
  where
    whole : (p : Entry → Bool) → count p log ≡ count p (kept ++ lost)
    whole p = ap (count p) e

once_if :
    (p : Entry → Bool) (listed log : List Entry) (b : Bool)
    → count p listed ≡ count p log
    → count p log ≤ 1
    → b ≡ (any p listed || false)
    → count p log ≡ one_if b
once_if p listed log b same once e =
    let counted = any-count p listed (omega (arith, same, once)) in ground (arith, counted, same, e)

bootstrap-IsCounted :
    (listed log : List Entry) (c : Coordinator)
    → SameEntries listed log
    → length log ≤ bootstrap_limit
    → bootstrap_from_log listed (fresh_coordinator log) ≡ some c
    → IsOnce log
    → IsCounted c
unfolding fresh_coordinator bootstrap_from_log
bootstrap-IsCounted listed log c all few h once =
    let short : length listed ≤ bootstrap_limit =
      omega (arith, length-count listed, length-count log, all (λ e. true), few) in
    let h1 : apply_all listed (fresh_coordinator log) ≡ some c =
      ap (λ es. apply_all es (fresh_coordinator log)) (sym (take-all bootstrap_limit listed short))
      ∙ h in
    let (s, e, same) = replayed listed (fresh_coordinator log) c h1 in
    record {
      starts = λ k.
          subst (λ l. count (is_start_of k) l ≡ one_if (has_key k c.started)) (sym same)
            (once_if (is_start_of k) listed log (has_key k c.started) (all (is_start_of k))
              (once.starts k) (s k));
      ends = λ w.
          subst (λ l. count (is_end_of w) l ≡ one_if (elem w c.workflow_terminal)) (sym same)
            (once_if (is_end_of w) listed log (elem w c.workflow_terminal) (all (is_end_of w))
              (once.ends w) (e w));
    }

counted-IsOnce : (c : Coordinator) → IsCounted c → IsOnce c.log
counted-IsOnce c i = record {
  starts = λ k. ground (arith, i.starts k);
  ends = λ w. ground (arith, i.ends w);
}

-- The states that the program passes through, over restarts: the log outlives the coordinator, which
-- a restart rebuilds from it. The process may end at any event, also between two that one call of the
-- coordinator emits: of the log that the call would leave, only the start `kept` is then written. The
-- query gives its entries in the order of their ids, which within a millisecond is any order.
pub data Reach (s : Surroundings) : Coordinator → Type 0 where
  installed : Reach s (fresh_coordinator [])
  restarted :
      {c b : Coordinator} (kept lost listed : List Entry)
      → Reach s c
      → c.log ≡ kept ++ lost
      → SameEntries listed kept
      → bootstrap_from_log listed (fresh_coordinator kept) ≡ some b
      → Reach s (resume s b.workflows b)
  accepted :
      {c : Coordinator} (sid : String) (data' : Fields)
      → Reach s c
      → Reach s (emit sid (workflow_created data') c)
  appended :
      {c : Coordinator} (sid : String) (b : Body)
      → Reach s c
      → is_quiet b ≡ true
      → Reach s (emit sid b c)
  handled : {c c' : Coordinator} (e : Entry) → Reach s c → handle s e c ≡ some c' → Reach s c'

-- Every restart of the run finds a log that the query returns as a whole.
abbrev pub RestartsWhole : {s : Surroundings} {c : Coordinator} → Reach s c → Type 0
RestartsWhole installed = Unit
RestartsWhole (restarted kept lost listed r e all h) =
    (length kept ≤ bootstrap_limit) × RestartsWhole r
RestartsWhole (accepted sid data' r) = RestartsWhole r
RestartsWhole (appended sid b r q) = RestartsWhole r
RestartsWhole (handled e r h) = RestartsWhole r

Reach-IsCounted :
    (s : Surroundings) (c : Coordinator) (r : Reach s c) → RestartsWhole r → IsCounted c
unfolding fresh_coordinator handle
Reach-IsCounted s c installed w = record { starts = λ k. refl; ends = λ w. refl }
Reach-IsCounted s c (restarted {c = c0} {b = b} kept lost listed r e all h) w =
    resume-IsCounted s b.workflows b (
      bootstrap-IsCounted listed kept b all w.0 h
        (IsOnce-left c0.log kept lost e (counted-IsOnce c0 (Reach-IsCounted s c0 r w.1))))
Reach-IsCounted s c (appended {c = c0} sid b r h) w =
    emit-IsCounted sid b c0 (λ k. (quiet-uncounted sid b k "" h).0)
      (λ w. (quiet-uncounted sid b ("", "") w h).1) (Reach-IsCounted s c0 r w)
Reach-IsCounted s c (accepted {c = c0} sid data' r) w =
    emit-IsCounted sid (workflow_created data') c0 (λ k. refl) (λ w. refl)
      (Reach-IsCounted s c0 r w)
Reach-IsCounted s c (handled {c = c0} (sid, b) r h) w =
    handle_trigger-IsCounted s sid (trigger_of b) c0 c (Reach-IsCounted s c0 r w) h

-- Over all the runs of the program, with restarts at any event, also amid the events of one call of
-- the coordinator, events of the other parts in between and bus deliveries in any order, repeated or
-- not, the log starts each step of a workflow at most once and ends each workflow at most once, if no
-- restart finds more than a million events in the log. The query may return the log in any order.
pub Reach-IsOnce :
    (s : Surroundings) (c : Coordinator) (r : Reach s c) → RestartsWhole r → IsOnce c.log
Reach-IsOnce s c r w = counted-IsOnce c (Reach-IsCounted s c r w)
