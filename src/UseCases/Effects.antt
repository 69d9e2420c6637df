-- ===== src/UseCases/Effects.antt =====
-- What an accepted call does to the queues, once its events have reached the projection.
use mad_edge.Prelude.{
  ℕ, ◌≡◌, refl, sym, ap, ◌∙◌, Bool, true, false, not, Option, none, some, List, [], ◌∷◌, ◌++◌,
  String, keep, ◌==◌, Bool-cases, inl, inr, length, arith,
}
use mad_edge.Prelude.Dict.{lookup}
use mad_edge.Tasks.{Task, ConversationMode, new, resume}
use mad_edge.Sessions.{Session}
use mad_edge.Events.{Event, Body, task_queued, task_cancelled}
use mad_edge.Projection.{queued, in_flight, is_task, parse_mode, parse_auto_sync, task_of, apply}
use mad_edge.Projection.View.{view, step, step_body, finish, view-apply_own}
use mad_edge.Dispatcher.{Stamp, Dispatcher, emit}
use mad_edge.UseCases.{
  Answer, accepted, refused, EnqueueTaskInput, mode_text, flag_or_null, model_ok, queued_data,
  is_queued, enqueue_task, cancel_task,
}

-- The event that `emit` appends.
abbrev pub emitted : (ℕ → Stamp) → String → Body → Dispatcher → Event
emitted stamp sid body d = record {
  event_id = some (stamp (length d.log)).id;
  session_id = sid;
  body = body;
  timestamp = (stamp (length d.log)).at;
}

parse_mode-mode_text : (m : ConversationMode) → parse_mode (mode_text m) ≡ m
unfolding parse_mode
parse_mode-mode_text new = refl
parse_mode-mode_text resume = refl

parse_auto_sync-flag_or_null : (b : Option Bool) → parse_auto_sync (flag_or_null b) ≡ b
unfolding parse_auto_sync
parse_auto_sync-flag_or_null none = refl
parse_auto_sync-flag_or_null (some b) = refl

pub accepted-injective :
    {A : Type 0} (a a' : A) (d d' : Dispatcher) → accepted a d ≡ accepted a' d' → d ≡ d'
accepted-injective {A = A} a a' d d' h = ap (state_or d) h
  where
    state_or : Dispatcher → Answer A → Dispatcher
    state_or d (accepted a e) = e
    state_or d (refused r) = d

pub accepted_value :
    {A : Type 0} (a a' : A) (d d' : Dispatcher) → accepted a d ≡ accepted a' d' → a ≡ a'
accepted_value {A = A} a a' d d' h = ap (value_or a) h
  where
    value_or : A → Answer A → A
    value_or a (accepted b e) = b
    value_or a (refused r) = a

-- The task as the caller described it, created at the time of the event.
abbrev pub described : ℕ → EnqueueTaskInput → ℕ → Task
described task_id payload at = record {
  task_id = task_id;
  session_id = payload.session_id;
  content = payload.content;
  scheduled_for = payload.scheduled_for;
  created_at = at;
  model = payload.model;
  effort = payload.effort;
  conversation_mode = payload.conversation_mode;
  auto_sync = payload.auto_sync;
}

module _ (stamp : ℕ → Stamp) where
  task_of-queued_data :
      (task_id : ℕ) (payload : EnqueueTaskInput) (at : ℕ)
      → task_of payload.session_id at (queued_data task_id payload) ≡ described task_id payload at
  unfolding task_of queued_data
  task_of-queued_data task_id payload at =
      rw
        (
          parse_mode-mode_text payload.conversation_mode,
          parse_auto_sync-flag_or_null payload.auto_sync,
        )
        refl

  enqueue_accepted :
      (catalog : Option (String → String → Bool)) (task_id : ℕ) (payload : EnqueueTaskInput)
      (d d' : Dispatcher)
      → enqueue_task stamp catalog task_id payload d ≡ accepted task_id d'
      → d' ≡ emit stamp payload.session_id (task_queued (queued_data task_id payload)) d
  unfolding enqueue_task
  enqueue_accepted catalog task_id payload d d' h = go (lookup payload.session_id d.sessions) refl
    where
      body : Body
      body = task_queued (queued_data task_id payload)

      go :
          (k : Option Session)
          → lookup payload.session_id d.sessions ≡ k
          → d' ≡ emit stamp payload.session_id body d
      go none q = absurd (ground arith)
      go (some s) q = elim (Bool-cases (model_ok catalog s payload.model)) [
        | inl ok ↦ sym (
            accepted-injective task_id task_id (emit stamp payload.session_id body d) d'
              (rw (q, enqueue_task, ok) at h))
        | inr bad ↦ absurd (ground arith)
      ]

  -- An accepted `enqueue_task` appends one event, and when it reaches the projection the session's
  -- queue ends with the task that the caller described, mode and auto-sync read back as given, behind
  -- those that waited; what runs is as before.
  pub enqueue_task-queued :
      (catalog : Option (String → String → Bool)) (task_id : ℕ) (payload : EnqueueTaskInput)
      (d d' : Dispatcher)
      → enqueue_task stamp catalog task_id payload d ≡ accepted task_id d'
      → (e : Event) × (d'.log ≡ d.log ++ e ∷ [])
        × (queued (apply e d.projection) payload.session_id
            ≡ queued d.projection payload.session_id ++ described task_id payload e.timestamp ∷ [])
        × (in_flight (apply e d.projection) payload.session_id
            ≡ in_flight d.projection payload.session_id)
  unfolding emit view step step_body
  enqueue_task-queued catalog task_id payload d d' h =
      let sid = payload.session_id in
      let e = emitted stamp sid (task_queued (queued_data task_id payload)) d in
      let v = view-apply_own e d.projection sid refl in
      (
        e,
        ap (λ x. x.log) (enqueue_accepted catalog task_id payload d d' h),
        ap (λ q. q.waiting) v
            ∙ ap (λ t. queued d.projection sid ++ t ∷ [])
                (task_of-queued_data task_id payload e.timestamp),
        ap (λ q. q.running) v,
      )

  cancel_accepted :
      (sid : String) (task_id : ℕ) (reason : String) (d d' : Dispatcher)
      → cancel_task stamp sid task_id reason d ≡ accepted tt d'
      → (d' ≡ emit stamp sid (task_cancelled task_id reason) d)
        × (is_task task_id (in_flight d.projection sid) ≡ false)
        × (is_queued task_id (queued d.projection sid) ≡ true)
  unfolding cancel_task
  cancel_accepted sid task_id reason d d' h = go (lookup sid d.sessions) refl
    where
      go :
          (k : Option Session)
          → lookup sid d.sessions ≡ k
          → (d' ≡ emit stamp sid (task_cancelled task_id reason) d)
            × (is_task task_id (in_flight d.projection sid) ≡ false)
            × (is_queued task_id (queued d.projection sid) ≡ true)
      go none q = absurd (ground arith)
      go (some s) q = elim (Bool-cases (is_task task_id (in_flight d.projection sid))) [
        | inl busy ↦ absurd (ground arith)
        | inr idle ↦ elim (Bool-cases (is_queued task_id (queued d.projection sid))) [
          | inl waits ↦ (
            sym (
                accepted-injective tt tt (emit stamp sid (task_cancelled task_id reason) d) d'
                  (rw (q, cancel_task, idle, waits) at h)),
            idle,
            waits,
          )
          | inr gone ↦ absurd (ground arith)
        ]
      ]

  keep-none :
      (id : ℕ) (ts : List Task) → is_queued id (keep (λ t. not (t.task_id == id)) ts) ≡ false
  keep-none id [] = refl
  keep-none id (t ∷ ts) = ground (arith, keep-none id ts)

  -- An accepted `cancel_task` appends one event, and when it reaches the projection no task with the
  -- id waits for the session, where one did, and what runs is as before: a task that was already
  -- dispatched is not touched.
  pub cancel_task-gone :
      (sid : String) (task_id : ℕ) (reason : String) (d d' : Dispatcher)
      → cancel_task stamp sid task_id reason d ≡ accepted tt d'
      → (e : Event) × (d'.log ≡ d.log ++ e ∷ [])
        × (is_queued task_id (queued d.projection sid) ≡ true)
        × (is_queued task_id (queued (apply e d.projection) sid) ≡ false)
        × (in_flight (apply e d.projection) sid ≡ in_flight d.projection sid)
  unfolding emit view step step_body finish
  cancel_task-gone sid task_id reason d d' h =
      let (same, idle, waits) = cancel_accepted sid task_id reason d d' h in
      let e = emitted stamp sid (task_cancelled task_id reason) d in
      let v = view-apply_own e d.projection sid refl in
      let f : finish task_id (view d.projection sid) ≡ record (view d.projection sid) {
        waiting = keep (λ t. not (t.task_id == task_id)) (queued d.projection sid);
      } =
        rw idle refl in
      (
        e,
        ap (λ x. x.log) same,
        waits,
        ap (λ q. is_queued task_id q.waiting) (v ∙ f) ∙ keep-none task_id (queued d.projection sid),
        ap (λ q. q.running) (v ∙ f),
      )
