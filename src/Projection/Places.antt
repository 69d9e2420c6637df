-- ===== src/Projection/Places.antt =====
-- Where the tasks are in adapters/outbound/orchestration/projection.py, over a whole log.
use mad_edge.Prelude.{
  ℕ, ◌≡◌, ◌≢◌, refl, sym, subst, ◌∙◌, Bool, false, Option, none, some, List, [], ◌∷◌, ◌++◌, String,
  ◌==◌, str_eq, str_eq-cases, Bool-cases, Option-cases, All, All-imp, All-append, keep, not, inl,
  inr, arith,
}
use mad_edge.Prelude.Dict.{lookup}
use mad_edge.Tasks.{Task}
use mad_edge.Events.{
  Body, Event, task_queued, task_dispatched, task_deferred, task_completed, task_failed,
  task_cancelled,
}
use mad_edge.Projection.{
  Projection, empty, queued, in_flight, task_of, pop_task, is_task, apply, apply_all,
}
use mad_edge.Projection.View.{SessionQueue, view, finish, step_body, step, view-apply}
use mad_edge.Projection.Ids.{
  ids, running_ids, held, Distinct, IsFresh, All-pop_task, All-keep, All-snoc,
}
use mad_edge.Projection.Lifecycle.{apply-Distinct}

-- The ids that the events queue.
abbrev queue_ids : Body → List ℕ
queue_ids (task_queued d) = d.task_id ∷ []
queue_ids _ = []

abbrev pub all_queued : List Event → List ℕ
all_queued [] = []
all_queued (e ∷ log) = queue_ids e.body ++ all_queued log

abbrev pub NotIn : List ℕ → ℕ → Type 0
NotIn xs y = All (λ x. y ≢ x) xs

All-both : (P Q : ℕ → Type 0) (xs : List ℕ) → All P xs → All Q xs → All (λ x. P x × Q x) xs
All-both P Q [] h k = tt
All-both P Q (x ∷ xs) h k = ((h.0, k.0), All-both P Q xs h.1 k.1)

module _ (P : ℕ → Type 0) where
  join :
      (o : Option Task) (ts : List Task)
      → All P (running_ids o)
      → All P (ids ts)
      → All P (running_ids o ++ ids ts)
  join none ts h k = k
  join (some t) ts h k = (h.0, k)

  finish-All : (id : ℕ) (q : SessionQueue) → All P (held q) → All P (held (finish id q))
  unfolding finish
  finish-All id q h =
      let parts = All-append P (running_ids q.running) (ids q.waiting) h in
      elim (Bool-cases (is_task id q.running)) [
        | inl e ↦ rw e parts.1
        | inr e ↦
            let others : Task → Bool = λ t. not (t.task_id == id) in
            rw e
              (join q.running (keep others q.waiting) parts.0 (All-keep P others q.waiting parts.1))
      ]

  dispatched-All :
      (sid : String) (at id : ℕ) (q : SessionQueue)
      → All P (held q)
      → All P (held (step_body sid at (task_dispatched id) q))
  unfolding step_body
  dispatched-All sid at id q h =
      let parts = All-append P (running_ids q.running) (ids q.waiting) h in
      elim (Option-cases (pop_task id q.waiting)) [
        | inl e ↦ rw (e, step_body) h
        | inr ((t, rest), e) ↦ rw (e, step_body) (All-pop_task P id q.waiting t rest e parts.1)
      ]

  -- What a session holds after an event, it held before, or the event queues it.
  step_body-All :
      (sid : String) (at : ℕ) (b : Body) (q : SessionQueue)
      → All P (held q)
      → All P (queue_ids b)
      → All P (held (step_body sid at b q))
  unfolding step_body task_of
  step_body-All sid at (task_queued d) q h new =
      let parts = All-append P (running_ids q.running) (ids q.waiting) h in
      let t = task_of sid at d in
      join q.running (q.waiting ++ t ∷ []) parts.0 (All-snoc P q.waiting t parts.1 new.0)
  step_body-All sid at (task_dispatched id) q h new = dispatched-All sid at id q h
  step_body-All sid at (task_deferred id reason w) q h new = ground (arith, h)
  step_body-All sid at (task_completed id) q h new = finish-All id q h
  step_body-All sid at (task_failed id reason) q h new = finish-All id q h
  step_body-All sid at (task_cancelled id reason) q h new = finish-All id q h
  step_body-All sid at _ q h new = h

queued_apart :
    (b : Body) (rest : List ℕ)
    → Distinct (queue_ids b ++ rest)
    → All (NotIn rest) (queue_ids b) × Distinct rest
queued_apart (task_queued d) rest h = ((h.0, tt), h.1)
queued_apart _ rest h = (tt, h)

body-IsFresh :
    (b : Body) (rest : List ℕ) (q : SessionQueue)
    → All (NotIn (queue_ids b ++ rest)) (held q)
    → IsFresh b q
body-IsFresh (task_queued d) rest q h = All-imp _ _ (held q) (λ y n. n.0) h
body-IsFresh _ rest q h = tt

flip : (xs : List ℕ) (z : ℕ) → All (λ y. y ≢ z) xs → NotIn xs z
flip [] z h = tt
flip (x ∷ xs) z h = (λ e. h.0 (sym e), flip xs z h.1)

queued_elsewhere :
    (b : Body) (rest : List ℕ) (xs : List ℕ)
    → All (NotIn (queue_ids b ++ rest)) xs
    → All (NotIn xs) (queue_ids b)
queued_elsewhere (task_queued d) rest xs h = (flip xs d.task_id (All-imp _ _ xs (λ y n. n.0) h), tt)
queued_elsewhere _ rest xs h = tt

-- No task is in two places, and none is there that the log is still to queue.
record IsPlaced (p : Projection) (log : List Event) : Type 0 where
  distinct : (s : String) → Distinct (held (view p s))
  apart : (s s' : String) → s ≢ s' → All (NotIn (held (view p s'))) (held (view p s))
  fresh : (s : String) → All (NotIn (all_queued log)) (held (view p s))

apply-IsPlaced :
    (e : Event) (log : List Event) (p : Projection)
    → Distinct (all_queued (e ∷ log))
    → IsPlaced p (e ∷ log)
    → IsPlaced (apply e p) log
unfolding step
apply-IsPlaced e log p d i =
    let (new, later) = queued_apart e.body (all_queued log) d in
    record {
      distinct =
          apply-Distinct e p
            (body-IsFresh e.body (all_queued log) (view p e.session_id) (i.fresh e.session_id))
            i.distinct;
      fresh = λ s.
          moved s (NotIn (all_queued log))
            (All-imp _ _ (held (view p s))
              (λ y n. (All-append (λ x. y ≢ x) (queue_ids e.body) (all_queued log) n).1)
              (i.fresh s))
            (λ same. new);
      apart = λ s s' ne. elim (str_eq-cases e.session_id s') [
        | inl (q, same) ↦
            moved s (NotIn (held (view (apply e p) s')))
              (All-imp _ _ (held (view p s))
                (λ y (n, k).
                  moved s' (λ x. y ≢ x) n
                    (λ here. (All-append (λ x. y ≢ x) (queue_ids e.body) (all_queued log) k).0))
                (All-both _ _ (held (view p s)) (i.apart s s' ne) (i.fresh s)))
              (λ here. absurd (ne (sym here ∙ same)))
        | inr (q, other) ↦
            subst (λ v. All (NotIn (held v)) (held (view (apply e p) s))) (sym (still s' q))
              (moved s (NotIn (held (view p s'))) (i.apart s s' ne)
                (λ here. queued_elsewhere e.body (all_queued log) (held (view p s')) (i.fresh s')))
      ];
    }
  where
    still : (s : String) → str_eq e.session_id s ≡ false → view (apply e p) s ≡ view p s
    still s q = rw (view-apply e p s, q) refl

    moved :
        (s : String) (P : ℕ → Type 0)
        → All P (held (view p s))
        → (e.session_id ≡ s → All P (queue_ids e.body))
        → All P (held (view (apply e p) s))
    moved s P h new = rw (view-apply e p s) (elim (str_eq-cases e.session_id s) [
      | inl (q, same) ↦
          rw q (step_body-All P e.session_id e.timestamp e.body (view p s) h (new same))
      | inr (q, other) ↦ rw q h
    ])

all-IsPlaced :
    (log : List Event) (p : Projection)
    → Distinct (all_queued log)
    → IsPlaced p log
    → IsPlaced (apply_all log p) []
unfolding apply_all
all-IsPlaced [] p d i = i
all-IsPlaced (e ∷ log) p d i =
    all-IsPlaced log (apply e p) (queued_apart e.body (all_queued log) d).1
      (apply-IsPlaced e log p d i)

-- If no two of a list of events queue the same id, then after all of them, from the empty projection
-- and in any order of queueing, dispatch, deferral and end, a task is never in two places: the ids
-- that a session has in its queue and in flight are distinct, and no other session has one of them.
pub apply_all-Distinct :
    (log : List Event)
    → Distinct (all_queued log)
    → ((s : String) → Distinct (held (view (apply_all log empty) s)))
      × ((s s' : String)
          → s ≢ s'
          → All
              (NotIn (held (view (apply_all log empty) s')))
              (held (view (apply_all log empty) s)))
unfolding view empty in_flight queued lookup
apply_all-Distinct log d =
    let i =
      all-IsPlaced log empty d
        (record { distinct = λ s. tt; apart = λ s s' ne. tt; fresh = λ s. tt }) in
    (i.distinct, i.apart)
