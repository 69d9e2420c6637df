-- ===== src/Dispatcher/Coherence.antt =====
-- The projection that the dispatcher of core/orchestration/use_cases/dispatcher.py keeps, against the
-- log and the events that wait on the bus.
use mad_edge.Prelude.{
  ℕ, ◌≤◌, take, take-all, ◌≡◌, refl, sym, ap, ◌∙◌, true, false, Option, none, some, List, [], ◌∷◌,
  ◌++◌, String, length, leb, any, if_either, ◌==◌, Bool-cases, inl, inr, arith,
}
use mad_edge.Prelude.Dict.{lookup}
use mad_edge.Policy.{Zones}
use mad_edge.Tasks.{Task}
use mad_edge.Sessions.{Session}
use mad_edge.Events.{
  Body, Event, Item, event, close, task_queued, Subscription, publish, max_queue_size,
}
use mad_edge.Projection.{
  Projection, apply, apply_all, bootstrap_limit, logged_ltb, query_log, bootstrap_from_log,
}
use mad_edge.Prelude.Sorting.{IsSorted, sort_by_self}
use mad_edge.Projection.View.{apply_all-append}
use mad_edge.Dispatcher.{
  Stamp, Dispatcher, emit, claim, claim_if_any, is_none, launch_task, emit_for, free_slot,
  dispatch_or_defer, deliver_first, find_next_dispatchable, maybe_dispatch_next, launch_claimed,
  run_emits, run_done, announce, on_task_queued, react, deliver_item, deliver, can_dispatch_for,
}
use mad_edge.Dispatcher.Single.{
  Step, tick, launch, run_event, run_end, bus_item, stop, update, others_emit, Reach, here, next,
}

-- The events that wait on the subscription.
abbrev pub waiting : List Item → List Event
waiting [] = []
waiting (event e ∷ items) = e ∷ waiting items
waiting (close ∷ items) = waiting items

-- The cache, the waiting events and the log agree; `start` is the projection before the log.
abbrev Agrees : Projection → Projection → Subscription → List Event → Type 0
Agrees start p bus log =
    bus.subscribed ≡ true → apply_all (waiting bus.items) p ≡ apply_all log start

abbrev pub IsCoherent : Projection → Dispatcher → Type 0
IsCoherent start d = Agrees start d.projection d.bus d.log

waiting-snoc :
    (items : List Item) (e : Event) → waiting (items ++ event e ∷ []) ≡ waiting items ++ e ∷ []
waiting-snoc [] e = refl
waiting-snoc (event x ∷ items) e = ap (λ l. x ∷ l) (waiting-snoc items e)
waiting-snoc (close ∷ items) e = waiting-snoc items e

publish-Agrees :
    (start p : Projection) (bus : Subscription) (log : List Event) (e : Event)
    → Agrees start p bus log
    → Agrees start p (publish e bus) (log ++ e ∷ [])
unfolding publish
publish-Agrees start p bus log e h = elim (Bool-cases bus.subscribed) [
  | inr off ↦ λ on. absurd (removed off on)
  | inl on ↦ elim (Bool-cases (leb max_queue_size (length bus.items))) [
    | inl full ↦ λ still. absurd (overflowed on full still)
    | inr room ↦ λ still.
        ap (λ l. apply_all (waiting l) p) (kept on room)
        ∙ ap (λ l. apply_all l p) (waiting-snoc bus.items e)
        ∙ apply_all-append (waiting bus.items) (e ∷ []) p
        ∙ ap (apply_all (e ∷ [])) (h on)
        ∙ sym (apply_all-append log (e ∷ []) start)
  ]
]
  where
    removed : bus.subscribed ≡ false → (publish e bus).subscribed ≡ true → ⊥
    removed off on = ground arith

    overflowed :
        bus.subscribed ≡ true
        → leb max_queue_size (length bus.items) ≡ true
        → (publish e bus).subscribed ≡ true
        → ⊥
    overflowed on full still = ground arith

    kept :
        bus.subscribed ≡ true
        → leb max_queue_size (length bus.items) ≡ false
        → (publish e bus).items ≡ bus.items ++ event e ∷ []
    kept on room = ground arith

module _ (z : Zones) (stamp : ℕ → Stamp) (start : Projection) where
  emit-IsCoherent :
      (sid : String) (b : Body) (d : Dispatcher)
      → IsCoherent start d
      → IsCoherent start (emit stamp sid b d)
  unfolding emit
  emit-IsCoherent sid b d h = publish-Agrees start d.projection d.bus d.log _ h

  maybe-IsCoherent :
      (now : Option ℕ) (d : Dispatcher)
      → IsCoherent start d
      → IsCoherent start (maybe_dispatch_next z stamp now d)
  unfolding maybe_dispatch_next
  maybe-IsCoherent now d h = if_either (IsCoherent start) d.stopping h (
      if_either (IsCoherent start) (is_none z stamp d.slot)
        (found (find_next_dispatchable z stamp now d)) h)
    where
      found : (o : Option Task) → IsCoherent start (claim_if_any z stamp o d)
      found none = h
      found (some t) = unfold claim in h

  launch-IsCoherent :
      (d : Dispatcher) → IsCoherent start d → IsCoherent start (launch_claimed z stamp d)
  unfolding launch_claimed
  launch-IsCoherent d h = go d.preparing
    where
      go : (p : Option Task) → IsCoherent start (launch_task z stamp p d)
      go none = h
      go (some t) = emit-IsCoherent t.session_id _ d h

  free_slot-IsCoherent :
      (now : Option ℕ) (r : Option Task) (d : Dispatcher)
      → IsCoherent start d
      → IsCoherent start (free_slot z stamp now r d)
  free_slot-IsCoherent now none d h = h
  free_slot-IsCoherent now (some t) d h =
      maybe-IsCoherent now (record d { slot = none; running = none }) h

  emit_for-IsCoherent :
      (r : Option Task) (b : Body) (d : Dispatcher)
      → IsCoherent start d
      → IsCoherent start (emit_for z stamp r b d)
  emit_for-IsCoherent none b d h = h
  emit_for-IsCoherent (some t) b d h = emit-IsCoherent t.session_id b d h

  announce-IsCoherent :
      (now : Option ℕ) (sid : String) (session : Session) (id : ℕ) (d : Dispatcher)
      → IsCoherent start d
      → IsCoherent start (announce z stamp now sid session id d)
  unfolding announce
  announce-IsCoherent now sid session id d h =
      elim (Bool-cases (any (λ k. k == id) d.deferred_tasks)) [
        | inl e ↦ rw e h
        | inr e ↦
            rw e (emit-IsCoherent sid _ (record d { deferred_tasks = id ∷ d.deferred_tasks }) h)
      ]

  dispatch_or_defer-IsCoherent :
      (now : Option ℕ) (sid : String) (id : ℕ) (found : Option Session) (d : Dispatcher)
      → IsCoherent start d
      → IsCoherent start (dispatch_or_defer z stamp now sid id found d)
  dispatch_or_defer-IsCoherent now sid id none d h = h
  dispatch_or_defer-IsCoherent now sid id (some session) d h =
      elim (Bool-cases (can_dispatch_for z stamp d.deployment now session)) [
        | inl e ↦ rw e (maybe-IsCoherent now d h)
        | inr e ↦ rw e (announce-IsCoherent now sid session id d h)
      ]

  react-IsCoherent :
      (now : Option ℕ) (e : Event) (b : Body) (d : Dispatcher)
      → IsCoherent start d
      → IsCoherent start (react z stamp now e b d)
  unfolding on_task_queued
  react-IsCoherent now e (task_queued q) d h =
      dispatch_or_defer-IsCoherent now e.session_id q.task_id (lookup e.session_id d.sessions) d h
  react-IsCoherent now e _ d h = h

  deliver_first-IsCoherent :
      (now : Option ℕ) (items : List Item) (d : Dispatcher)
      → d.bus.items ≡ items
      → IsCoherent start d
      → IsCoherent start (deliver_first z stamp now items d)
  unfolding deliver_item
  deliver_first-IsCoherent now [] d q h = h
  deliver_first-IsCoherent now (event e ∷ rest) d q h =
      react-IsCoherent now e e.body _
        (λ on. head_first d e rest ∙ ap (λ l. apply_all (waiting l) d.projection) (sym q) ∙ h on)
    where
      head_first :
          (d : Dispatcher) (e : Event) (rest : List Item)
          → apply_all (waiting rest) (apply e d.projection)
            ≡ apply_all (waiting (event e ∷ rest)) d.projection
      head_first d e rest = unfold apply_all in refl
  deliver_first-IsCoherent now (close ∷ rest) d q h =
      λ on. ap (λ l. apply_all (waiting l) d.projection) (sym q) ∙ h on

  Step-IsCoherent : {d e : Dispatcher} → Step z stamp d e → IsCoherent start d → IsCoherent start e
  unfolding run_emits run_done deliver
  Step-IsCoherent {d} (tick now) h = maybe-IsCoherent now d h
  Step-IsCoherent {d} launch h = launch-IsCoherent d h
  Step-IsCoherent {d} (run_event b) h = emit_for-IsCoherent d.running b d h
  Step-IsCoherent {d} (run_end now) h = free_slot-IsCoherent now d.running d h
  Step-IsCoherent {d} (bus_item now) h = deliver_first-IsCoherent now d.bus.items d refl h
  Step-IsCoherent stop h = h
  Step-IsCoherent (update sessions deployment) h = h
  Step-IsCoherent {d} (others_emit sid b) h = emit-IsCoherent sid b d h

  Reach-IsCoherent_all :
      {d e : Dispatcher} → IsCoherent start d → Reach z stamp d e → IsCoherent start e
  Reach-IsCoherent_all h here = h
  Reach-IsCoherent_all h (next r s) = Step-IsCoherent s (Reach-IsCoherent_all h r)

  query_log-whole :
      (log : List Event)
      → IsSorted logged_ltb log
      → length log ≤ bootstrap_limit
      → query_log log ≡ log
  unfolding query_log
  query_log-whole log sorted few =
      ap (take bootstrap_limit) (sort_by_self logged_ltb log sorted)
      ∙ take-all bootstrap_limit log few

  -- Take any state that is reached from one in which the waiting events make of the projection what
  -- the events of the log do. If its log has at most a million events, whose ids do not fall in the
  -- order in which they were written, as they may within a millisecond, and the bus has not dropped
  -- the dispatcher's subscription for a full queue, then applying the waiting events to the
  -- projection gives exactly what a restart would rebuild from the log.
  pub Reach-IsCoherent :
      {d e : Dispatcher}
      → IsCoherent start d
      → Reach z stamp d e
      → IsSorted logged_ltb e.log
      → length e.log ≤ bootstrap_limit
      → e.bus.subscribed ≡ true
      → apply_all (waiting e.bus.items) e.projection ≡ bootstrap_from_log e.log start
  unfolding bootstrap_from_log
  Reach-IsCoherent {e = e} h r sorted few on =
      Reach-IsCoherent_all h r on
      ∙ ap (λ l. apply_all l start) (sym (query_log-whole e.log sorted few))
