-- ===== src/Examples/Queues.antt =====
-- Examples of the projection, the order of dispatch and the dispatcher.
use mad_edge.Prelude.{
  ℕ, ◌≡◌, ◌≢◌, refl, ap, str_eq, true, false, none, some, List, [], ◌∷◌, ◌++◌, String, elem, All,
  Member, map, arith, if◌then◌else◌,
}
use mad_edge.Prelude.Dict.{lookup, insert, values}
use mad_edge.Policy.{can_dispatch, resolve_effective_policy}
use mad_edge.Tasks.{Task}
use mad_edge.Sessions.{Session}
use mad_edge.Events.{Event, Body, task_dispatched, task_deferred, task_completed, publish}
use mad_edge.Projection.{
  pop_task, Projection, empty, queued, in_flight, apply, apply_all, logged_ltb, query_log,
  bootstrap_from_log,
}
use mad_edge.Projection.View.{view, run_session, view-bootstrap_from_log}
use mad_edge.Projection.Ids.{Distinct, held}
use mad_edge.Projection.Places.{NotIn, apply_all-Distinct}
use mad_edge.Projection.Lifecycle.{apply_gone, apply-deferred-dispatched}
use mad_edge.Ordering.{order_ready_candidates}
use mad_edge.Ordering.Fifo.{of_session, is_among, order_ready_candidates-of_session}
use mad_edge.Ordering.Priority.{IsDescending, order_ready_candidates-IsDescending}
use mad_edge.Dispatcher.{
  Dispatcher, eligible, find_next_dispatchable, can_dispatch_for, maybe_dispatch_next,
  launch_claimed, recover_orphans, emit,
}
use mad_edge.Dispatcher.Single.{IsSingle, Reach, here, next, tick, launch, Reach-IsSingle}
use mad_edge.Dispatcher.Coherence.{waiting, Reach-IsCoherent}
use mad_edge.Dispatcher.Pick.{MayPrecede, find_next_dispatchable_lem}
use mad_edge.Dispatcher.Recovery.{cleared, recover_orphans_lem}
use mad_edge.Examples.{utc, stamp, task, log, projection, session_a, session_b, idle}

-- The dispatcher after it has claimed a task, and launched it.
abbrev launched : Dispatcher
launched = launch_claimed utc stamp (maybe_dispatch_next utc stamp (some 20) idle)

abbrev two_turns : Reach utc stamp idle launched
two_turns = next (next here (tick (some 20))) launch

Reach-IsSingle_example : IsSingle launched
unfolding idle
Reach-IsSingle_example = Reach-IsSingle utc stamp tt two_turns

Reach-IsCoherent_example :
    apply_all (waiting launched.bus.items) launched.projection
    ≡ bootstrap_from_log launched.log empty
unfolding idle projection apply_all logged_ltb maybe_dispatch_next launch_claimed emit
    find_next_dispatchable order_ready_candidates can_dispatch_for can_dispatch
    resolve_effective_policy queued lookup apply insert empty publish
Reach-IsCoherent_example =
    Reach-IsCoherent utc stamp empty (λ h. refl) two_turns
      ((refl, (refl, (refl, tt))), ((refl, (refl, tt)), ((refl, tt), (tt, tt)))) (omega arith) refl

find_next_dispatchable_lem_example :
    ((t : Task)
      → find_next_dispatchable utc stamp (some 20) idle ≡ some t
      → (s : Session) × (rest : List Task) × Member s (values idle.sessions)
        × (can_dispatch_for utc stamp idle.deployment (some 20) s ≡ true)
        × (queued idle.projection s.session_id ≡ t ∷ rest)
        × All
            (MayPrecede (queued idle.projection) t s.priority)
            (eligible utc stamp (some 20) idle))
    × (find_next_dispatchable utc stamp (some 20) idle ≡ none
        → All (λ s. queued idle.projection s.session_id ≡ []) (eligible utc stamp (some 20) idle))
find_next_dispatchable_lem_example = find_next_dispatchable_lem utc stamp (some 20) idle

recover_orphans_lem_example :
    ((s : String)
      → view (recover_orphans utc stamp ("a" ∷ []) idle).projection s
        ≡ (if elem s ("a" ∷ []) then cleared (view idle.projection s) else view idle.projection s))
    × ((recover_orphans utc stamp ("a" ∷ []) idle).projection
        ≡ apply_all (recover_orphans utc stamp ("a" ∷ []) idle).log empty)
unfolding idle projection
recover_orphans_lem_example = recover_orphans_lem utc stamp ("a" ∷ []) idle empty refl

view-bootstrap_from_log_example :
    view (bootstrap_from_log log empty) "a" ≡ run_session "a" (query_log log) (view empty "a")
view-bootstrap_from_log_example = view-bootstrap_from_log log empty "a"

-- Task 1 of "a" is dispatched, and then completed or deferred.
abbrev event_of : Body → Event
event_of b = record { event_id = some 9; session_id = "a"; body = b; timestamp = 30 }

abbrev busy : Projection
busy = apply (event_of (task_dispatched 1)) projection

-- Two tasks of "a" and one of "b" are queued, and task 1 runs.
abbrev turns : List Event
turns = log ++ event_of (task_dispatched 1) ∷ []

apply_all-Distinct_example :
    ((s : String) → Distinct (held (view (apply_all turns empty) s)))
    × ((s s' : String)
        → s ≢ s'
        → All
            (NotIn (held (view (apply_all turns empty) s')))
            (held (view (apply_all turns empty) s)))
apply_all-Distinct_example = apply_all-Distinct turns (
  ((λ e. differ 1 2 (λ q. omega arith) e), ((λ e. differ 1 3 (λ q. omega arith) e), tt)),
  (((λ e. differ 2 3 (λ q. omega arith) e), tt), (tt, tt)),
)
  where
    differ : (a b : ℕ) → (a ≡ b → ⊥) → a ≡ b → ⊥
    differ a b h e = h e

apply_gone_example : All (λ y. y ≢ 1) (held (view (apply (event_of (task_completed 1)) busy) "a"))
unfolding projection apply_all apply view queued in_flight empty lookup insert pop_task
apply_gone_example =
    apply_gone (event_of (task_completed 1)) busy 1 refl (((λ e. differ e), tt), (tt, tt))
  where
    one : ℕ
    one = 1

    differ : one ≡ 2 → ⊥
    differ e = omega arith

apply-deferred-dispatched_example :
    view (apply (event_of (task_deferred 1 "work_window_closed" none)) busy) "a"
    ≡ record { waiting = task 1 "a" 10 ∷ task 2 "a" 11 ∷ []; running = none; retry = none }
unfolding projection apply_all apply queued empty lookup insert
apply-deferred-dispatched_example =
    apply-deferred-dispatched (event_of (task_dispatched 1))
      (event_of (task_deferred 1 "work_window_closed" none)) projection (task 1 "a" 10)
      (task 2 "a" 11 ∷ []) "work_window_closed" none refl refl refl refl

-- Two tasks in the queue of each session.
abbrev queues : String → List Task
queues sid = task 1 sid 10 ∷ task 2 sid 11 ∷ []

abbrev prio : String → ℕ
prio sid = if str_eq sid "b" then 7 else 1

abbrev both : List Session
both = session_a ∷ session_b ∷ []

order_ready_candidates-of_session_example :
    of_session "a" (order_ready_candidates both queues)
    ≡ (if is_among "a" both then queues "a" else [])
order_ready_candidates-of_session_example =
    order_ready_candidates-of_session queues (λ sid. (refl, (refl, tt))) both "a"
      (((λ e. a-ne-b e), tt), (tt, tt))
  where
    a : String
    a = "a"

    a-ne-b : a ≡ "b" → ⊥
    a-ne-b e = differ (ap (λ x. str_eq x "b") e)
      where
        differ : false ≡ true → ⊥
        differ e = cc

order_ready_candidates-IsDescending_example :
    IsDescending (map (λ t. prio t.session_id) (order_ready_candidates both queues))
order_ready_candidates-IsDescending_example =
    order_ready_candidates-IsDescending queues prio both
      ((refl, (refl, tt)), ((refl, (refl, tt)), tt))

-- What the dispatch order of the two sessions starts with.
abbrev rest_of : List Task → List Task
rest_of [] = []
rest_of (t ∷ ts) = ts
