-- ===== src/Examples/Calls.antt =====
-- Examples of the use cases.
use mad_edge.Prelude.{
  ◌≡◌, refl, true, false, none, some, List, [], ◌∷◌, String, ◌++◌, map, length, ltb,
}
use mad_edge.Prelude.Dict.{lookup, insert}
use mad_edge.Policy.{resolve_effective_policy, manual}
use mad_edge.Tasks.{Task, resume}
use mad_edge.Sessions.{Session}
use mad_edge.Events.{Body, Event, task_cancelled, session_deleted}
use mad_edge.Projection.{empty, queued, in_flight, apply, apply_all}
use mad_edge.Dispatcher.{Dispatcher, can_dispatch_for}
use mad_edge.UseCases.{
  Answer, accepted, refused, EnqueueTaskInput, is_queued, enqueue_task, cancel_task,
  trigger_manual_dispatch, delete_session, status_text,
}
use mad_edge.UseCases.{update_dispatch_policy}
use mad_edge.UseCases.Gates.{IsGatedBy, update_dispatch_policy-IsGatedBy}
use mad_edge.UseCases.Effects.{described, enqueue_task-queued, cancel_task-gone}
use mad_edge.UseCases.Drain.{dispatched, trigger_manual_dispatch-drains}
use mad_edge.UseCases.Deletion.{delete_session-empties}
use mad_edge.Examples.{utc, stamp, projection, idle}

abbrev payload : EnqueueTaskInput
payload = record {
  session_id = "a";
  content = "one more";
  scheduled_for = "now";
  model = none;
  effort = some "high";
  conversation_mode = resume;
  auto_sync = some true;
}

abbrev state_of : {A : Type 0} → Answer A → Dispatcher
state_of (accepted a d) = d
state_of (refused r) = idle

enqueue_task-queued_example :
    (e : Event) × ((state_of (enqueue_task stamp none 4 payload idle)).log ≡ idle.log ++ e ∷ [])
    × (queued (apply e idle.projection) "a"
        ≡ queued idle.projection "a" ++ described 4 payload e.timestamp ∷ [])
    × (in_flight (apply e idle.projection) "a" ≡ in_flight idle.projection "a")
unfolding enqueue_task idle lookup
enqueue_task-queued_example =
    enqueue_task-queued stamp none 4 payload idle
      (state_of (enqueue_task stamp none 4 payload idle)) refl

cancel_task-gone_example :
    (e : Event) × ((state_of (cancel_task stamp "a" 2 "user_cancelled" idle)).log
      ≡ idle.log ++ e ∷ [])
    × (is_queued 2 (queued idle.projection "a") ≡ true)
    × (is_queued 2 (queued (apply e idle.projection) "a") ≡ false)
    × (in_flight (apply e idle.projection) "a" ≡ in_flight idle.projection "a")
unfolding cancel_task idle projection lookup apply_all apply empty insert
cancel_task-gone_example =
    cancel_task-gone stamp "a" 2 "user_cancelled" idle
      (state_of (cancel_task stamp "a" 2 "user_cancelled" idle)) refl

trigger_manual_dispatch-drains_example :
    (s : Session) × (1 ≡ length (queued idle.projection "b"))
    × (lookup "b"
          (dispatched utc stamp 1 "b" (state_of (trigger_manual_dispatch stamp "b" idle)).sessions)
        ≡ some s)
    × (can_dispatch_for utc stamp
          (state_of (trigger_manual_dispatch stamp "b" idle)).deployment
          (some 20)
          s
        ≡ ltb 1 1)
unfolding trigger_manual_dispatch idle projection lookup resolve_effective_policy apply_all apply
    insert empty
trigger_manual_dispatch-drains_example =
    trigger_manual_dispatch-drains utc stamp "b" 1 1 20 idle
      (state_of (trigger_manual_dispatch stamp "b" idle)) refl

delete_session-empties_example :
    (s : Session) × (es : List Event) × (e : Event) × (lookup "a" idle.sessions ≡ some s)
    × ((state_of (delete_session stamp "a" idle)).log ≡ idle.log ++ es ++ e ∷ [])
    × (map {B = String × Body} (λ (x : Event). (x.session_id, x.body)) (es ++ e ∷ [])
        ≡ map {B = String × Body}
            (λ (t : Task). ("a", task_cancelled t.task_id "session_deleted"))
            (queued idle.projection "a")
          ++ ("a", session_deleted (status_text s.status)) ∷ [])
    × (queued (apply_all (es ++ e ∷ []) idle.projection) "a" ≡ [])
    × (in_flight (apply_all (es ++ e ∷ []) idle.projection) "a" ≡ in_flight idle.projection "a")
unfolding delete_session idle projection lookup queued in_flight apply_all apply insert empty
delete_session-empties_example =
    delete_session-empties stamp "a" idle (state_of (delete_session stamp "a" idle))
      (refl, (refl, tt)) refl

update_dispatch_policy-IsGatedBy_example :
    (manual ≡ manual)
    × IsGatedBy utc stamp "a" manual (state_of (update_dispatch_policy stamp "a" manual idle))
unfolding update_dispatch_policy idle lookup
update_dispatch_policy-IsGatedBy_example =
    update_dispatch_policy-IsGatedBy utc stamp "a" manual manual idle
      (state_of (update_dispatch_policy stamp "a" manual idle)) refl
