-- ===== src/Projection/View.antt =====
-- adapters/outbound/orchestration/projection.py, seen as a queue for each session.
use mad_edge.Prelude.{
  ℕ, ◌≡◌, refl, ap, ◌∙◌, Option, none, some, List, [], ◌∷◌, ◌++◌, String, ◌==◌, str_eq, str_eq_refl,
  Option-cases, keep, not, inl, inr, if◌then◌else◌, arith,
}
use text.Mathlib.TextEquality.{eq_iff}
use mad_edge.Prelude.Dict.{lookup-insert, lookup-remove}
use mad_edge.Tasks.{Task}
use mad_edge.Events.{
  QueuedData, Body, Event, task_queued, task_dispatched, task_retrying, task_deferred,
  task_completed, task_failed, task_cancelled,
}
use mad_edge.Projection.{
  RetryInfo, Projection, queued, in_flight, retry_info, task_of, pop_task, is_task, on_terminal,
  dispatch_body, apply, apply_all, query_log, bootstrap_from_log,
}

-- What the `TaskQueue` port shows of one session.
pub record SessionQueue : Type 0 where
  pub waiting : List Task
  pub running : Option Task
  pub retry : Option RetryInfo

unfoldable pub view : Projection → String → SessionQueue
view p sid = record { waiting = queued p sid; running = in_flight p sid; retry = retry_info p sid }

-- The specification of one session's queue: what each event does to it.
unfoldable pub finish : ℕ → SessionQueue → SessionQueue
finish id q =
    if is_task id q.running
    then record q { running = none; retry = none }
    else record q { waiting = keep (λ t. not (t.task_id == id)) q.waiting }

unfoldable pub step_body : String → ℕ → Body → SessionQueue → SessionQueue
unfolding finish
step_body sid timestamp (task_queued d) q = record q {
  waiting = q.waiting ++ task_of sid timestamp d ∷ [];
}
step_body sid timestamp (task_dispatched id) q = elim (pop_task id q.waiting) [
  | none ↦ q
  | some (t, rest) ↦ record { waiting = rest; running = some t; retry = none }
]
step_body sid timestamp (task_retrying id attempt after reason) q = record q {
  retry = some (record { attempt = attempt; retry_after_s = after; reason = reason });
}
step_body sid timestamp (task_deferred id reason at) q = elim q.running [
  | none ↦ q
  | some t ↦
      if t.task_id == id
      then record { waiting = t ∷ q.waiting; running = none; retry = none }
      else q
]
step_body sid timestamp (task_completed id) q = finish id q
step_body sid timestamp (task_failed id reason) q = finish id q
step_body sid timestamp (task_cancelled id reason) q = finish id q
step_body sid timestamp _ q = q

unfoldable pub step : Event → SessionQueue → SessionQueue
unfolding step_body
step e q = step_body e.session_id e.timestamp e.body q

-- One body at the view of a session: its own session's queue steps, every other stays as it is.
abbrev LocalStep : String → String → ℕ → Body → Projection → Type 0
LocalStep sid s timestamp b p =
    view (dispatch_body sid timestamp b p) s
    ≡ (if str_eq sid s then step_body sid timestamp b (view p s) else view p s)

local_queued :
    (sid s : String) (timestamp : ℕ) (d : QueuedData) (p : Projection)
    → LocalStep sid s timestamp (task_queued d) p
unfolding view dispatch_body step_body queued in_flight retry_info
local_queued sid s timestamp d p = ground (
  arith,
  eq_iff sid s,
  lookup-insert sid s (queued p sid ++ task_of sid timestamp d ∷ []) p.queues,
)

local_dispatched :
    (sid s : String) (timestamp id : ℕ) (p : Projection)
    → LocalStep sid s timestamp (task_dispatched id) p
unfolding view dispatch_body step_body queued in_flight retry_info
local_dispatched sid s timestamp id p = elim (Option-cases (pop_task id (queued p sid))) [
  | inl e ↦ ground (arith, eq_iff sid s)
  | inr ((t, rest), e) ↦ ground (
    arith,
    eq_iff sid s,
    lookup-insert sid s rest p.queues,
    lookup-insert sid s t p.flights,
    lookup-remove sid s p.retries,
  )
]

local_retrying :
    (sid s : String) (timestamp id attempt after : ℕ) (reason : String) (p : Projection)
    → LocalStep sid s timestamp (task_retrying id attempt after reason) p
unfolding view dispatch_body step_body queued in_flight retry_info
local_retrying sid s timestamp id attempt after reason p =
    let info : RetryInfo = record { attempt = attempt; retry_after_s = after; reason = reason } in
    ground (arith, eq_iff sid s, lookup-insert sid s info p.retries)

local_deferred :
    (sid s : String) (timestamp id : ℕ) (reason : String) (at : Option ℕ) (p : Projection)
    → LocalStep sid s timestamp (task_deferred id reason at) p
unfolding view dispatch_body step_body queued in_flight retry_info
local_deferred sid s timestamp id reason at p = elim (Option-cases (in_flight p sid)) [
  | inl e ↦ ground (arith, eq_iff sid s)
  | inr (t, e) ↦ ground (
    arith,
    eq_iff sid s,
    lookup-insert sid s (t ∷ queued p sid) p.queues,
    lookup-remove sid s p.flights,
    lookup-remove sid s p.retries,
  )
]

local_terminal :
    (sid s : String) (id : ℕ) (p : Projection)
    → view (on_terminal sid id p) s ≡ (if str_eq sid s then finish id (view p s) else view p s)
unfolding view on_terminal finish queued in_flight retry_info
local_terminal sid s id p = ground (
  arith,
  eq_iff sid s,
  lookup-remove sid s p.flights,
  lookup-remove sid s p.retries,
  lookup-insert sid s (keep (λ t. not (t.task_id == id)) (queued p sid)) p.queues,
)

local_body :
    (sid s : String) (timestamp : ℕ) (b : Body) (p : Projection) → LocalStep sid s timestamp b p
unfolding dispatch_body step_body
local_body sid s timestamp (task_queued d) p = local_queued sid s timestamp d p
local_body sid s timestamp (task_dispatched id) p = local_dispatched sid s timestamp id p
local_body sid s timestamp (task_retrying id attempt after reason) p =
    local_retrying sid s timestamp id attempt after reason p
local_body sid s timestamp (task_deferred id reason at) p =
    local_deferred sid s timestamp id reason at p
local_body sid s timestamp (task_completed id) p = local_terminal sid s id p
local_body sid s timestamp (task_failed id reason) p = local_terminal sid s id p
local_body sid s timestamp (task_cancelled id reason) p = local_terminal sid s id p
local_body sid s timestamp _ p = ground arith

-- Applying an event steps the queue of the event's own session as the specification says, and leaves
-- what the port shows of every other session as it is.
pub view-apply :
    (e : Event) (p : Projection) (s : String)
    → view (apply e p) s ≡ (if str_eq e.session_id s then step e (view p s) else view p s)
unfolding apply step
view-apply e p s = go e.body
  where
    go : (b : Body) → LocalStep e.session_id s e.timestamp b p
    go b = local_body e.session_id s e.timestamp b p

pub view-apply_own :
    (e : Event) (p : Projection) (s : String)
    → e.session_id ≡ s
    → view (apply e p) s ≡ step e (view p s)
view-apply_own e p s h =
    view-apply e p s
    ∙ ap (λ b. if b then step e (view p s) else view p s) (ap (λ k. str_eq k s) h ∙ str_eq_refl s)

-- The events of one session's log, stepped in order.
unfoldable pub run_session : String → List Event → SessionQueue → SessionQueue
run_session s [] q = q
run_session s (e ∷ log) q = run_session s log (if str_eq e.session_id s then step e q else q)

pub view-apply_all :
    (log : List Event) (p : Projection) (s : String)
    → view (apply_all log p) s ≡ run_session s log (view p s)
unfolding apply_all run_session
view-apply_all [] p s = refl
view-apply_all (e ∷ log) p s =
    view-apply_all log (apply e p) s ∙ ap (run_session s log) (view-apply e p s)

-- The bootstrap from a log shows, of each session, what its own events alone make of its queue, in the
-- order of their ids: those among the first million events of the log in that order.
pub view-bootstrap_from_log :
    (log : List Event) (p : Projection) (s : String)
    → view (bootstrap_from_log log p) s ≡ run_session s (query_log log) (view p s)
unfolding bootstrap_from_log
view-bootstrap_from_log log p s = view-apply_all (query_log log) p s

-- A replay of a log and then of what follows it is one replay of the whole.
pub apply_all-append :
    (log more : List Event) (p : Projection)
    → apply_all (log ++ more) p ≡ apply_all more (apply_all log p)
unfolding apply_all
apply_all-append [] more p = refl
apply_all-append (e ∷ log) more p = apply_all-append log more (apply e p)
