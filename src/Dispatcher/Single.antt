-- ===== src/Dispatcher/Single.antt =====
-- The in-flight slot of core/orchestration/use_cases/dispatcher.py, over the interleavings of the
-- dispatcher's coroutines with the rest of the program.
use mad_edge.Prelude.{
  ℕ, ◌≡◌, refl, sym, subst, true, Option, none, some, List, [], ◌∷◌, String, Bool-cases,
  Option-cases, inl, inr, arith,
}
use mad_edge.Prelude.Dict.{Dict, lookup}
use mad_edge.Policy.{Zones, DispatchPolicy}
use mad_edge.Tasks.{Task}
use mad_edge.Sessions.{Session}
use mad_edge.Events.{Body, Event, Item, event, close, task_queued}
use mad_edge.Dispatcher.{
  Stamp, Dispatcher, emit, claim, launch_task, emit_for, free_slot, dispatch_or_defer,
  deliver_first, find_next_dispatchable, maybe_dispatch_next, launch_claimed, run_emits, run_done,
  announce, on_task_queued, react, deliver_item, deliver, can_dispatch_for,
}

-- The in-flight slot names exactly the one task that is being prepared or run, if any is.
abbrev SlotIs : Option (String × ℕ) → Option Task → Option Task → Type 0
SlotIs none none none = Unit
SlotIs (some k) (some t) none = k ≡ (t.session_id, t.task_id)
SlotIs (some k) none (some t) = k ≡ (t.session_id, t.task_id)
SlotIs _ _ _ = ⊥

abbrev pub IsSingle : Dispatcher → Type 0
IsSingle d = SlotIs d.slot d.preparing d.running

-- What may happen next: a coroutine of the dispatcher runs up to its next await, or any other part of
-- the program changes the sessions or the deployment default, and perhaps emits an event.
pub data Step (z : Zones) (stamp : ℕ → Stamp) (d : Dispatcher) : Dispatcher → Type 0 where
  tick : (now : Option ℕ) → Step z stamp d (maybe_dispatch_next z stamp now d)
  launch : Step z stamp d (launch_claimed z stamp d)
  run_event : (b : Body) → Step z stamp d (run_emits z stamp b d)
  run_end : (now : Option ℕ) → Step z stamp d (run_done z stamp now d)
  bus_item : (now : Option ℕ) → Step z stamp d (deliver z stamp now d)
  stop : Step z stamp d (record d { stopping = true })
  update :
      (sessions : Dict Session) (deployment : Option DispatchPolicy)
      → Step z stamp d (record d { sessions = sessions; deployment = deployment })
  others_emit : (sid : String) (b : Body) → Step z stamp d (emit stamp sid b d)

pub data Reach (z : Zones) (stamp : ℕ → Stamp) (d : Dispatcher) : Dispatcher → Type 0 where
  here : Reach z stamp d d
  next : {m e : Dispatcher} → Reach z stamp d m → Step z stamp m e → Reach z stamp d e

SlotIs-none : (p r : Option Task) → SlotIs none p r → (p ≡ none) × (r ≡ none)
SlotIs-none none none h = (refl, refl)
SlotIs-none none (some t) h = absurd h
SlotIs-none (some t) r h = absurd h

SlotIs-prepared :
    (k : Option (String × ℕ)) (t : Task) (r : Option Task)
    → SlotIs k (some t) r
    → SlotIs k none (some t)
SlotIs-prepared none t r h = absurd h
SlotIs-prepared (some k) t none h = h
SlotIs-prepared (some k) t (some u) h = absurd h

SlotIs-ran :
    (k : Option (String × ℕ)) (p : Option Task) (t : Task)
    → SlotIs k p (some t)
    → SlotIs none p none
SlotIs-ran none none t h = absurd h
SlotIs-ran none (some u) t h = absurd h
SlotIs-ran (some k) none t h = tt
SlotIs-ran (some k) (some u) t h = absurd h

module _ (z : Zones) (stamp : ℕ → Stamp) where
  claim-IsSingle :
      (t : Task) (d : Dispatcher) → d.slot ≡ none → IsSingle d → IsSingle (claim z stamp t d)
  unfolding claim
  claim-IsSingle t d e h =
      let idle =
        SlotIs-none d.preparing d.running (subst (λ k. SlotIs k d.preparing d.running) e h) in
      subst (λ r. SlotIs (some (t.session_id, t.task_id)) (some t) r) (sym idle.1) refl

  maybe-IsSingle :
      (now : Option ℕ) (d : Dispatcher) → IsSingle d → IsSingle (maybe_dispatch_next z stamp now d)
  unfolding maybe_dispatch_next
  maybe-IsSingle now d h = elim (Bool-cases d.stopping) [
    | inl e ↦ ground (arith, h)
    | inr e ↦ elim (Option-cases d.slot) [
      | inr (k, busy) ↦ ground (arith, h)
      | inl free ↦ elim (Option-cases (find_next_dispatchable z stamp now d)) [
        | inl nothing ↦ ground (arith, h)
        | inr (t, found) ↦ let c = claim-IsSingle t d free h in ground (arith, c)
      ]
    ]
  ]

  launch-IsSingle : (d : Dispatcher) → IsSingle d → IsSingle (launch_claimed z stamp d)
  unfolding launch_claimed emit
  launch-IsSingle d h = go d.preparing h
    where
      go : (p : Option Task) → SlotIs d.slot p d.running → IsSingle (launch_task z stamp p d)
      go none s = h
      go (some t) s = SlotIs-prepared d.slot t d.running s

  run_done-IsSingle :
      (now : Option ℕ) (d : Dispatcher) → IsSingle d → IsSingle (run_done z stamp now d)
  unfolding run_done
  run_done-IsSingle now d h = go d.running h
    where
      go : (r : Option Task) → SlotIs d.slot d.preparing r → IsSingle (free_slot z stamp now r d)
      go none s = h
      go (some t) s =
          maybe-IsSingle now (record d { slot = none; running = none })
            (SlotIs-ran d.slot d.preparing t s)

  run_emits-IsSingle : (b : Body) (d : Dispatcher) → IsSingle d → IsSingle (run_emits z stamp b d)
  unfolding run_emits emit
  run_emits-IsSingle b d h = go d.running
    where
      go : (r : Option Task) → IsSingle (emit_for z stamp r b d)
      go none = h
      go (some t) = h

  announce-IsSingle :
      (now : Option ℕ) (sid : String) (session : Session) (id : ℕ) (d : Dispatcher)
      → IsSingle d
      → IsSingle (announce z stamp now sid session id d)
  unfolding announce emit
  announce-IsSingle now sid session id d h = ground (arith, h)

  dispatch_or_defer-IsSingle :
      (now : Option ℕ) (sid : String) (id : ℕ) (found : Option Session) (d : Dispatcher)
      → IsSingle d
      → IsSingle (dispatch_or_defer z stamp now sid id found d)
  dispatch_or_defer-IsSingle now sid id none d h = h
  dispatch_or_defer-IsSingle now sid id (some session) d h =
      elim (Bool-cases (can_dispatch_for z stamp d.deployment now session)) [
        | inl e ↦ rw e (maybe-IsSingle now d h)
        | inr e ↦ rw e (announce-IsSingle now sid session id d h)
      ]

  react-IsSingle :
      (now : Option ℕ) (e : Event) (b : Body) (d : Dispatcher)
      → IsSingle d
      → IsSingle (react z stamp now e b d)
  unfolding on_task_queued
  react-IsSingle now e (task_queued q) d h =
      dispatch_or_defer-IsSingle now e.session_id q.task_id (lookup e.session_id d.sessions) d h
  react-IsSingle now e _ d h = h

  deliver-IsSingle :
      (now : Option ℕ) (d : Dispatcher) → IsSingle d → IsSingle (deliver z stamp now d)
  unfolding deliver deliver_item
  deliver-IsSingle now d h = go d.bus.items
    where
      go : (items : List Item) → IsSingle (deliver_first z stamp now items d)
      go [] = h
      go (event e ∷ rest) = react-IsSingle now e e.body _ h
      go (close ∷ rest) = h

  Step-IsSingle : {d e : Dispatcher} → Step z stamp d e → IsSingle d → IsSingle e
  unfolding emit
  Step-IsSingle {d} (tick now) h = maybe-IsSingle now d h
  Step-IsSingle {d} launch h = launch-IsSingle d h
  Step-IsSingle {d} (run_event b) h = run_emits-IsSingle b d h
  Step-IsSingle {d} (run_end now) h = run_done-IsSingle now d h
  Step-IsSingle {d} (bus_item now) h = deliver-IsSingle now d h
  Step-IsSingle stop h = h
  Step-IsSingle (update sessions deployment) h = h
  Step-IsSingle (others_emit sid b) h = h

  -- In every state that any interleaving of the dispatcher and the rest of the program reaches from
  -- an idle dispatcher, at most one task is claimed or running, and the in-flight slot is empty or
  -- names exactly that task.
  pub Reach-IsSingle : {d e : Dispatcher} → IsSingle d → Reach z stamp d e → IsSingle e
  Reach-IsSingle h here = h
  Reach-IsSingle h (next r s) = Step-IsSingle s (Reach-IsSingle h r)
