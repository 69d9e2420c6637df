-- ===== src/Dispatcher/Recovery.antt =====
-- `_recover_orphans` of core/orchestration/use_cases/dispatcher.py.
use mad_edge.Prelude.{
  ℕ, ◌≡◌, refl, sym, ap, ◌∙◌, Bool, true, false, Option, none, some, List, [], ◌∷◌, String, str_eq,
  str_eq-cases, elem, ◌==◌, ◌||◌, inl, inr, if◌then◌else◌, arith,
}
use mad_edge.Tasks.{Task}
use mad_edge.Projection.{Projection, in_flight, apply, apply_all}
use mad_edge.Projection.View.{
  SessionQueue, view, finish, step, step_body, view-apply, apply_all-append,
}
use mad_edge.Policy.{Zones}
use mad_edge.Dispatcher.{
  Stamp, Dispatcher, emit, fail_orphan, orphan_failed, recover_orphan, recover_orphans,
}

-- A session's queue with its in-flight task failed: nothing runs, and what waits is as it was.
abbrev clear_running : Option Task → SessionQueue → SessionQueue
clear_running none q = q
clear_running (some t) q = record q { running = none; retry = none }

abbrev pub cleared : SessionQueue → SessionQueue
cleared q = clear_running q.running q

clear_none : (q : SessionQueue) → q.running ≡ none → cleared q ≡ q
clear_none q e = ap (λ o. clear_running o q) e

cleared_twice : (q : SessionQueue) → cleared (cleared q) ≡ cleared q
cleared_twice q = go q.running refl
  where
    go : (o : Option Task) → q.running ≡ o → cleared (cleared q) ≡ cleared q
    go none e = ap cleared (clear_none q e)
    go (some t) e = let c = ap (λ o. clear_running o q) e in ap cleared c ∙ sym c

finish_running : (q : SessionQueue) (t : Task) → q.running ≡ some t → finish t.task_id q ≡ cleared q
unfolding finish
finish_running q t e =
    let hit : (t.task_id == t.task_id) ≡ true = ground arith in ground (arith, hit)

module _ (z : Zones) (stamp : ℕ → Stamp) where
  view-recover_orphan :
      (sid : String) (d : Dispatcher) (s : String)
      → view (recover_orphan z stamp sid d).projection s
        ≡ (if str_eq sid s then cleared (view d.projection s) else view d.projection s)
  unfolding recover_orphan
  view-recover_orphan sid d s = go (in_flight d.projection sid) refl
    where
      running_is :
          (o : Option Task)
          → in_flight d.projection sid ≡ o
          → sid ≡ s
          → (view d.projection s).running ≡ o
      running_is o e q = unfold view in (ap (in_flight d.projection) (sym q) ∙ e)

      go :
          (o : Option Task)
          → in_flight d.projection sid ≡ o
          → view (fail_orphan z stamp sid o d).projection s
            ≡ (if str_eq sid s then cleared (view d.projection s) else view d.projection s)
      go none e = elim (str_eq-cases sid s) [
        | inl (same, q) ↦ rw same (sym (clear_none (view d.projection s) (running_is none e q)))
        | inr (other, q) ↦ rw other refl
      ]
      go (some t) e =
          view-apply (orphan_failed z stamp sid t.task_id d) d.projection s
          ∙ elim (str_eq-cases sid s) [
            | inl (same, q) ↦ rw same (
                unfold step step_body in
                finish_running (view d.projection s) t (running_is (some t) e q))
            | inr (other, q) ↦ rw other refl
          ]

  view-recover_orphans :
      (sids : List String) (d : Dispatcher) (s : String)
      → view (recover_orphans z stamp sids d).projection s
        ≡ (if elem s sids then cleared (view d.projection s) else view d.projection s)
  unfolding recover_orphans
  view-recover_orphans [] d s = refl
  view-recover_orphans (sid ∷ sids) d s =
      view-recover_orphans sids (recover_orphan z stamp sid d) s
      ∙ join (str_eq sid s) (elem s sids) (view d.projection s) (view-recover_orphan sid d s)
    where
      join :
          (b c : Bool) (q : SessionQueue) {r : SessionQueue}
          → r ≡ (if b then cleared q else q)
          → (if c then cleared r else r) ≡ (if b || c then cleared q else q)
      join true true q e = ap cleared e ∙ cleared_twice q
      join true false q e = e
      join false true q e = ap cleared e
      join false false q e = e

  replay-recover_orphans :
      (sids : List String) (d : Dispatcher) (start : Projection)
      → d.projection ≡ apply_all d.log start
      → (recover_orphans z stamp sids d).projection
        ≡ apply_all (recover_orphans z stamp sids d).log start
  unfolding recover_orphans apply_all apply emit
  replay-recover_orphans [] d start e = e
  replay-recover_orphans (sid ∷ sids) d start e =
      replay-recover_orphans sids (recover_orphan z stamp sid d) start
        (go (in_flight d.projection sid))
    where
      go :
          (o : Option Task)
          → (fail_orphan z stamp sid o d).projection
            ≡ apply_all (fail_orphan z stamp sid o d).log start
      go none = e
      go (some t) =
          let failed = orphan_failed z stamp sid t.task_id d in
          ap (apply failed) e ∙ sym (apply_all-append d.log (failed ∷ []) start)

  -- Orphan recovery over the ids of the session index, from a projection that replays the log: no
  -- session of the index has a task in flight any more, each keeps its queue, sessions outside the
  -- index are left alone, and the projection still replays the log, with the new failures in it.
  pub recover_orphans_lem :
      (sids : List String) (d : Dispatcher) (start : Projection)
      → d.projection ≡ apply_all d.log start
      → ((s : String)
          → view (recover_orphans z stamp sids d).projection s
            ≡ (if elem s sids then cleared (view d.projection s) else view d.projection s))
        × ((recover_orphans z stamp sids d).projection
            ≡ apply_all (recover_orphans z stamp sids d).log start)
  recover_orphans_lem sids d start e =
      (view-recover_orphans sids d, replay-recover_orphans sids d start e)
