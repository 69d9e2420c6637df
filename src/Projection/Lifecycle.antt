-- ===== src/Projection/Lifecycle.antt =====
-- The life of a task in adapters/outbound/orchestration/projection.py.
use mad_edge.Prelude.{
  ℕ, ◌≡◌, ◌≢◌, refl, subst, ap, ◌∙◌, Bool, Option, none, some, List, [], ◌∷◌, ◌++◌, String, ◌==◌,
  str_eq-cases, str_eq_refl, Bool-cases, Option-cases, All, keep, not, inl, inr, arith,
}
use mad_edge.Tasks.{Task}
use mad_edge.Events.{
  QueuedData, Body, Event, task_queued, task_dispatched, task_deferred, task_completed, task_failed,
  task_cancelled,
}
use mad_edge.Projection.{Projection, queued, task_of, pop_task, is_task, apply}
use mad_edge.Projection.View.{
  SessionQueue, view, finish, step_body, step, view-apply, view-apply_own,
}
use mad_edge.Projection.Ids.{
  ids, running_ids, held, Distinct, IsFresh, Distinct-pop_task, All-keep, Distinct-keep,
  keep-others, All-map_ne, All-snoc, Distinct-snoc, Apart, Distinct-parts,
}

Distinct-join :
    (o : Option Task) (ts : List Task)
    → Apart o ts
    → Distinct (ids ts)
    → Distinct (running_ids o ++ ids ts)
Distinct-join none ts a h = h
Distinct-join (some t) ts a h = (a, h)

Apart-keep : (o : Option Task) (p : Task → Bool) (ts : List Task) → Apart o ts → Apart o (keep p ts)
Apart-keep none p ts a = tt
Apart-keep (some t) p ts a = All-keep (λ y. t.task_id ≢ y) p ts a

finish-Distinct : (id : ℕ) (q : SessionQueue) → Distinct (held q) → Distinct (held (finish id q))
unfolding finish
finish-Distinct id q h =
    let parts = Distinct-parts q.running q.waiting h in
    elim (Bool-cases (is_task id q.running)) [
      | inl e ↦ rw e parts.1
      | inr e ↦
          let others : Task → Bool = λ t. not (t.task_id == id) in
          rw e (
            Distinct-join q.running (keep others q.waiting)
              (Apart-keep q.running others q.waiting parts.0)
              (Distinct-keep others q.waiting parts.1))
    ]

dispatched-Distinct :
    (sid : String) (timestamp id : ℕ) (q : SessionQueue)
    → Distinct (held q)
    → Distinct (held (step_body sid timestamp (task_dispatched id) q))
unfolding step_body
dispatched-Distinct sid timestamp id q h =
    let parts = Distinct-parts q.running q.waiting h in
    elim (Option-cases (pop_task id q.waiting)) [
      | inl e ↦ rw (e, step_body) h
      | inr ((t, rest), e) ↦ rw (e, step_body) (Distinct-pop_task id q.waiting t rest e parts.1)
    ]

deferred-Distinct :
    (sid : String) (timestamp id : ℕ) (reason : String) (at : Option ℕ) (q : SessionQueue)
    → Distinct (held q)
    → Distinct (held (step_body sid timestamp (task_deferred id reason at) q))
unfolding step_body
deferred-Distinct sid timestamp id reason at q h = ground (arith, h)

Apart-snoc :
    (o : Option Task) (ts : List Task) (t : Task)
    → All (λ y. y ≢ t.task_id) (running_ids o ++ ids ts)
    → Apart o ts
    → Apart o (ts ++ t ∷ [])
Apart-snoc none ts t f a = tt
Apart-snoc (some u) ts t f a = All-snoc (λ y. u.task_id ≢ y) ts t a f.0

fresh_waiting :
    (o : Option Task) (ts : List Task) (id : ℕ)
    → All (λ y. y ≢ id) (running_ids o ++ ids ts)
    → All (λ y. y ≢ id) (ids ts)
fresh_waiting none ts id f = f
fresh_waiting (some u) ts id f = f.1

queued-Distinct :
    (sid : String) (timestamp : ℕ) (d : QueuedData) (q : SessionQueue)
    → IsFresh (task_queued d) q
    → Distinct (held q)
    → Distinct (held (step_body sid timestamp (task_queued d) q))
unfolding step_body task_of
queued-Distinct sid timestamp d q fresh h =
    let parts = Distinct-parts q.running q.waiting h in
    let t = task_of sid timestamp d in
    Distinct-join q.running (q.waiting ++ t ∷ []) (Apart-snoc q.running q.waiting t fresh parts.0)
      (Distinct-snoc q.waiting t parts.1 (fresh_waiting q.running q.waiting d.task_id fresh))

step_body-Distinct :
    (sid : String) (timestamp : ℕ) (b : Body) (q : SessionQueue)
    → IsFresh b q
    → Distinct (held q)
    → Distinct (held (step_body sid timestamp b q))
unfolding step_body
step_body-Distinct sid at (task_queued d) q f h = queued-Distinct sid at d q f h
step_body-Distinct sid at (task_dispatched id) q f h = dispatched-Distinct sid at id q h
step_body-Distinct sid at (task_deferred id reason w) q f h =
    deferred-Distinct sid at id reason w q h
step_body-Distinct sid at (task_completed id) q f h = finish-Distinct id q h
step_body-Distinct sid at (task_failed id reason) q f h = finish-Distinct id q h
step_body-Distinct sid at (task_cancelled id reason) q f h = finish-Distinct id q h
step_body-Distinct sid at _ q f h = h

-- If in no session two of the queued and in-flight tasks have one id, and an event queues no id that
-- its session holds, then none have after the event either: a task is never in two places.
pub apply-Distinct :
    (e : Event) (p : Projection)
    → IsFresh e.body (view p e.session_id)
    → ((s : String) → Distinct (held (view p s)))
    → (s : String) → Distinct (held (view (apply e p) s))
unfolding step
apply-Distinct e p fresh h s = rw (view-apply e p s) (elim (str_eq-cases e.session_id s) [
  | inl (same, q) ↦ rw same (
      step_body-Distinct e.session_id e.timestamp e.body (view p s)
        (subst (λ k. IsFresh e.body (view p k)) q fresh) (h s))
  | inr (other, q) ↦ rw other (h s)
])

-- The events that end a task.
abbrev pub Ends : ℕ → Body → Type 0
Ends id (task_completed k) = k ≡ id
Ends id (task_failed k reason) = k ≡ id
Ends id (task_cancelled k reason) = k ≡ id
Ends id _ = ⊥

finish_gone :
    (id : ℕ) (q : SessionQueue) → Distinct (held q) → All (λ y. y ≢ id) (held (finish id q))
unfolding finish
finish_gone id q h = elim (Option-cases q.running) [
  | inl e ↦ ground (arith, keep-others id q.waiting)
  | inr (t, e) ↦ elim (Bool-cases (t.task_id == id)) [
    | inl this ↦
        let same : t.task_id ≡ id = ground arith in
        let h' : Distinct (running_ids (some t) ++ ids q.waiting) =
          subst (λ o. Distinct (running_ids o ++ ids q.waiting)) e h in
        let gone = All-map_ne t.task_id id (ids q.waiting) same h'.0 in ground (arith, gone)
    | inr another ↦
        let apart : t.task_id ≢ id = ground arith in ground (arith, keep-others id q.waiting, apart)
  ]
]

step_body_gone :
    (sid : String) (timestamp id : ℕ) (b : Body) (q : SessionQueue)
    → Ends id b
    → Distinct (held q)
    → All (λ y. y ≢ id) (held (step_body sid timestamp b q))
unfolding step_body
step_body_gone sid at id (task_completed k) q e h = rw (← e) (finish_gone k q h)
step_body_gone sid at id (task_failed k reason) q e h = rw (← e) (finish_gone k q h)
step_body_gone sid at id (task_cancelled k reason) q e h = rw (← e) (finish_gone k q h)
step_body_gone sid at id _ q e h = absurd e

-- After an event that ends a task (completed, failed or cancelled) the task is neither queued nor
-- in flight in its session, if the ids that the session held were distinct.
pub apply_gone :
    (e : Event) (p : Projection) (id : ℕ)
    → Ends id e.body
    → Distinct (held (view p e.session_id))
    → All (λ y. y ≢ id) (held (view (apply e p) e.session_id))
unfolding step
apply_gone e p id h d =
    rw (view-apply e p e.session_id, str_eq_refl e.session_id)
      (step_body_gone e.session_id e.timestamp id e.body (view p e.session_id) h d)

step_back :
    (out back : Event) (q : SessionQueue) (t : Task) (rest : List Task) (reason : String)
    (at : Option ℕ)
    → q.waiting ≡ t ∷ rest
    → out.body ≡ task_dispatched t.task_id
    → back.body ≡ task_deferred t.task_id reason at
    → step back (step out q) ≡ record { waiting = t ∷ rest; running = none; retry = none }
unfolding step step_body pop_task
step_back out back q t rest reason at w o b = rw (o, b, w, pop_task) (ground arith)

-- A task that is dispatched from the head of its session's queue and then deferred is back at the
-- head of the same queue, itself unchanged, with nothing in flight and no retry shown.
pub apply-deferred-dispatched :
    (out back : Event) (p : Projection) (t : Task) (rest : List Task) (reason : String)
    (at : Option ℕ)
    → queued p out.session_id ≡ t ∷ rest
    → out.body ≡ task_dispatched t.task_id
    → back.session_id ≡ out.session_id
    → back.body ≡ task_deferred t.task_id reason at
    → view (apply back (apply out p)) out.session_id
      ≡ record { waiting = t ∷ rest; running = none; retry = none }
apply-deferred-dispatched out back p t rest reason at q o s b =
    view-apply_own back (apply out p) out.session_id s
    ∙ ap (step back) (view-apply_own out p out.session_id refl)
    ∙ step_back out back (view p out.session_id) t rest reason at (view_waiting p t rest q) o b
  where
    view_waiting :
        (p : Projection) (t : Task) (rest : List Task)
        → queued p out.session_id ≡ t ∷ rest
        → (view p out.session_id).waiting ≡ t ∷ rest
    view_waiting p t rest q = unfold view in q
