-- ===== src/Dispatcher.antt =====
-- core/orchestration/use_cases/dispatcher.py: the loop that turns queued tasks into launcher runs.
-- A coroutine's stretch between two awaits is one function on the shared state; the run of a task is
-- in `Run`, and shows here by the events that it emits and by its end.
pub mod Pick
pub mod Single
pub mod Coherence
pub mod Recovery
use mad_edge.Prelude.{
  ℕ, zero, suc, ◌+◌, ◌-◌, Bool, true, false, not, ◌&&◌, Option, none, some, List, [], ◌∷◌, ◌++◌,
  String, length, any, keep, ltb, ◌==◌, if◌then◌else◌,
}
use mad_edge.Prelude.Dict.{Dict, lookup, insert, values}
use mad_edge.Policy.{
  Zones, DispatchPolicy, can_dispatch, is_immediate, resolve_effective_policy, next_window_opening,
}
use mad_edge.Tasks.{Task}
use mad_edge.Sessions.{Session, touch}
use mad_edge.Events.{
  Body, Event, task_queued, task_queued_for_window, task_dispatched, task_failed, Item, event,
  close, Subscription, publish,
}
use mad_edge.Projection.{Projection, queued, in_flight, apply}
use mad_edge.Ordering.{order_ready_candidates}

-- The id and the time that the store gives to the n-th event that it appends.
pub record Stamp : Type 0 where
  pub id : ℕ
  pub at : ℕ

-- The dispatcher's fields, with the session index, the event log and its bus subscription, which it
-- shares with the rest of the program. `preparing` is the task of a `_maybe_dispatch_next` that waits
-- for the git baseline, `running` that of the launched `_run_task`.
pub record Dispatcher : Type 0 where
  pub sessions : Dict Session
  pub deployment : Option DispatchPolicy
  pub log : List Event
  pub bus : Subscription
  pub projection : Projection
  pub slot : Option (String × ℕ)
  pub preparing : Option Task
  pub running : Option Task
  pub deferred_tasks : List ℕ
  pub stopping : Bool

abbrev pub touched : String → ℕ → Dict Session → Dict Session
touched sid at sessions = elim (lookup sid sessions) [
  | none ↦ sessions
  | some s ↦ insert sid (touch s at) sessions
]

-- `EventEmitter.emit`: append to the log, publish, and bump the session's `updated_at`.
unfoldable pub emit : (ℕ → Stamp) → String → Body → Dispatcher → Dispatcher
emit stamp sid body d =
    let mark = stamp (length d.log) in
    let e : Event = record {
      event_id = some mark.id;
      session_id = sid;
      body = body;
      timestamp = mark.at;
    } in
    record d {
      log = d.log ++ e ∷ [];
      bus = publish e d.bus;
      sessions = touched sid mark.at d.sessions;
    }

module _ (z : Zones) (stamp : ℕ → Stamp) where
  -- `_can_dispatch_for_session`, with what the clock reads; `none` is a missing clock.
  unfoldable pub can_dispatch_for : Option DispatchPolicy → Option ℕ → Session → Bool
  can_dispatch_for deployment none session =
      is_immediate (resolve_effective_policy session.dispatch_policy deployment)
  can_dispatch_for deployment (some instant) session =
      can_dispatch z (resolve_effective_policy session.dispatch_policy deployment) instant
        session.manual_drain_remaining

  abbrev pub first_of_list : List Task → Option Task
  first_of_list [] = none
  first_of_list (t ∷ ts) = some t

  unfoldable pub eligible : Option ℕ → Dispatcher → List Session
  eligible now d = keep (can_dispatch_for d.deployment now) (values d.sessions)

  unfoldable pub find_next_dispatchable : Option ℕ → Dispatcher → Option Task
  unfolding eligible
  find_next_dispatchable now d =
      first_of_list (order_ready_candidates (eligible now d) (queued d.projection))

  unfoldable pub next_opening_iso : Option ℕ → Dispatcher → Session → Option ℕ
  next_opening_iso none d session = none
  next_opening_iso (some instant) d session =
      next_window_opening z (resolve_effective_policy session.dispatch_policy d.deployment) instant
        14

  -- `if session.manual_drain_remaining > 0: session.manual_drain_remaining -= 1`
  unfoldable pub use_drain : String → Dict Session → Dict Session
  use_drain sid sessions = elim (lookup sid sessions) [
    | none ↦ sessions
    | some s ↦
        if ltb 0 s.manual_drain_remaining
        then insert sid (record s { manual_drain_remaining = s.manual_drain_remaining - 1 })
            sessions
        else sessions
  ]

  -- From the claim of the in-flight slot to the await of the git baseline.
  unfoldable pub claim : Task → Dispatcher → Dispatcher
  unfolding use_drain
  claim t d = record d {
    slot = some (t.session_id, t.task_id);
    sessions = use_drain t.session_id d.sessions;
    deferred_tasks = keep (λ id. not (id == t.task_id)) d.deferred_tasks;
    preparing = some t;
  }

  abbrev pub is_none {ℓ} : {A : Type ℓ} → Option A → Bool
  is_none none = true
  is_none (some _) = false

  abbrev pub claim_if_any : Option Task → Dispatcher → Dispatcher
  claim_if_any none d = d
  claim_if_any (some t) d = claim t d

  -- `_maybe_dispatch_next`, up to the await.
  unfoldable pub maybe_dispatch_next : Option ℕ → Dispatcher → Dispatcher
  unfolding claim
  maybe_dispatch_next now d =
      if d.stopping
      then d
      else if is_none d.slot
      then claim_if_any (find_next_dispatchable now d) d
      else d

  -- The rest of it: `task.dispatched` is emitted and `_run_task` is created.
  abbrev pub launch_task : Option Task → Dispatcher → Dispatcher
  launch_task none d = d
  launch_task (some t) d = record (emit stamp t.session_id (task_dispatched t.task_id) d) {
    preparing = none;
    running = some t;
  }

  unfoldable pub launch_claimed : Dispatcher → Dispatcher
  launch_claimed d = launch_task d.preparing d

  -- An event that `_run_task` emits for its task.
  abbrev pub emit_for : Option Task → Body → Dispatcher → Dispatcher
  emit_for none b d = d
  emit_for (some t) b d = emit stamp t.session_id b d

  unfoldable pub run_emits : Body → Dispatcher → Dispatcher
  run_emits b d = emit_for d.running b d

  -- The `finally` of `_run_task`.
  abbrev pub free_slot : Option ℕ → Option Task → Dispatcher → Dispatcher
  free_slot now none d = d
  free_slot now (some t) d = maybe_dispatch_next now (record d { slot = none; running = none })

  unfoldable pub run_done : Option ℕ → Dispatcher → Dispatcher
  unfolding maybe_dispatch_next
  run_done now d = free_slot now d.running d

  -- The deferral in `_on_task_queued`, once for each task id.
  unfoldable pub announce : Option ℕ → String → Session → ℕ → Dispatcher → Dispatcher
  announce now sid session task_id d =
      if any (λ id. id == task_id) d.deferred_tasks
      then d
      else emit stamp sid (task_queued_for_window task_id (next_opening_iso now d session))
          (record d { deferred_tasks = task_id ∷ d.deferred_tasks })

  abbrev pub dispatch_or_defer : Option ℕ → String → ℕ → Option Session → Dispatcher → Dispatcher
  dispatch_or_defer now sid task_id none d = d
  dispatch_or_defer now sid task_id (some session) d =
      if can_dispatch_for d.deployment now session
      then maybe_dispatch_next now d
      else announce now sid session task_id d

  unfoldable pub on_task_queued : Option ℕ → String → ℕ → Dispatcher → Dispatcher
  unfolding maybe_dispatch_next announce
  on_task_queued now sid task_id d = dispatch_or_defer now sid task_id (lookup sid d.sessions) d

  abbrev pub react : Option ℕ → Event → Body → Dispatcher → Dispatcher
  react now e (task_queued data') d = on_task_queued now e.session_id data'.task_id d
  react now e _ d = d

  -- One turn of `async for event in self._subscription`; the sentinel ends the stream.
  unfoldable pub deliver_item : Option ℕ → Item → List Item → Dispatcher → Dispatcher
  unfolding on_task_queued
  deliver_item now (event e) rest d = react now e e.body (record d {
    bus = record { items = rest; subscribed = d.bus.subscribed };
    projection = apply e d.projection;
  })
  deliver_item now close rest d = record d {
    bus = record { items = rest; subscribed = d.bus.subscribed };
  }

  abbrev pub deliver_first : Option ℕ → List Item → Dispatcher → Dispatcher
  deliver_first now [] d = d
  deliver_first now (i ∷ rest) d = deliver_item now i rest d

  unfoldable pub deliver : Option ℕ → Dispatcher → Dispatcher
  unfolding deliver_item
  deliver now d = deliver_first now d.bus.items d

  -- One turn of the loop of `_recover_orphans`; the event that was emitted is applied at once.
  abbrev pub orphan_failed : String → ℕ → Dispatcher → Event
  orphan_failed sid task_id d = record {
    event_id = some (stamp (length d.log)).id;
    session_id = sid;
    body = task_failed task_id "interrupted_by_restart";
    timestamp = (stamp (length d.log)).at;
  }

  abbrev pub fail_orphan : String → Option Task → Dispatcher → Dispatcher
  fail_orphan sid none d = d
  fail_orphan sid (some orphan) d =
      record (emit stamp sid (task_failed orphan.task_id "interrupted_by_restart") d) {
        projection = apply (orphan_failed sid orphan.task_id d) d.projection;
      }

  unfoldable pub recover_orphan : String → Dispatcher → Dispatcher
  recover_orphan sid d = fail_orphan sid (in_flight d.projection sid) d

  -- `_recover_orphans`, for the session ids in the order of the index.
  unfoldable pub recover_orphans : List String → Dispatcher → Dispatcher
  unfolding recover_orphan
  recover_orphans [] d = d
  recover_orphans (sid ∷ sids) d = recover_orphans sids (recover_orphan sid d)
