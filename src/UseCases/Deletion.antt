-- ===== src/UseCases/Deletion.antt =====
-- `destroy_session` of core/sessions/use_cases/delete_session.py and the queue that it leaves.
use mad_edge.Prelude.{
  ℕ, ◌≡◌, refl, sym, ap, subst, ◌∙◌, true, false, not, Option, none, some, List, [], ◌∷◌, ◌++◌,
  String, all, map, keep, ◌==◌, str_eq, str_eq_refl, length, arith, if◌then◌else◌,
}
use mathlib.Core.List.{append-nil, append_assoc}
use mad_edge.Prelude.Dict.{lookup}
use mad_edge.Tasks.{Task}
use mad_edge.Sessions.{Session}
use mad_edge.Events.{Event, Body, task_cancelled, session_deleted}
use mad_edge.Projection.{queued, in_flight, is_task, apply_all}
use mad_edge.Projection.View.{
  SessionQueue, view, step, step_body, finish, run_session, view-apply_own, apply_all-append,
  view-apply_all,
}
use mad_edge.Dispatcher.{Stamp, Dispatcher, emit}
use mad_edge.UseCases.{accepted, is_queued, cancel_all, marked, status_text, delete_session}
use mad_edge.UseCases.Effects.{emitted, accepted-injective}

-- No task of the list is the running one.
abbrev NotRunning : Option Task → List Task → Type 0
NotRunning running [] = Unit
NotRunning running (t ∷ ts) = (is_task t.task_id running ≡ false) × NotRunning running ts

-- Every task of the second list has the id of one of the first.
abbrev Covered : List Task → List Task → Type 0
Covered ts ws = all (λ w. is_queued w.task_id ts) ws ≡ true

Covered-keep :
    (t : Task) (ts ws : List Task)
    → Covered (t ∷ ts) ws
    → Covered ts (keep (λ w. not (w.task_id == t.task_id)) ws)
Covered-keep t ts [] h = refl
Covered-keep t ts (w ∷ ws) h = ground (arith, Covered-keep t ts ws (ground arith))

Covered-more : (t : Task) (ts ws : List Task) → Covered ts ws → Covered (t ∷ ts) ws
Covered-more t ts [] h = refl
Covered-more t ts (w ∷ ws) h = ground (arith, Covered-more t ts ws (ground arith))

Covered-refl : (ts : List Task) → Covered ts ts
Covered-refl [] = refl
Covered-refl (t ∷ ts) = ground (arith, Covered-more t ts ts (Covered-refl ts))

module _ (stamp : ℕ → Stamp) (sid : String) where
  -- The events of the cancellations, one for each task.
  unfoldable cancellations : List Task → Dispatcher → List Event
  unfolding emit
  cancellations [] d = []
  cancellations (t ∷ ts) d =
      let b = task_cancelled t.task_id "session_deleted" in
      emitted stamp sid b d ∷ cancellations ts (emit stamp sid b d)

  cancel_all-log :
      (ts : List Task) (d : Dispatcher)
      → (cancel_all stamp sid ts d).log ≡ d.log ++ cancellations ts d
  unfolding cancel_all cancellations emit
  cancel_all-log [] d = sym (append-nil d.log)
  cancel_all-log (t ∷ ts) d =
      let b = task_cancelled t.task_id "session_deleted" in
      cancel_all-log ts (emit stamp sid b d)
      ∙ append_assoc d.log (emitted stamp sid b d ∷ []) (cancellations ts (emit stamp sid b d))

  emptied :
      (ts : List Task) (d : Dispatcher) (q : SessionQueue)
      → NotRunning q.running ts
      → Covered ts q.waiting
      → ((run_session sid (cancellations ts d) q).waiting ≡ [])
        × ((run_session sid (cancellations ts d) q).running ≡ q.running)
  unfolding cancellations run_session step step_body finish
  emptied [] d q n c = (nothing q.waiting c, refl)
    where
      nothing : (ws : List Task) → Covered [] ws → ws ≡ []
      nothing [] c = refl
      nothing (w ∷ ws) c = absurd (ground arith)
  emptied (t ∷ ts) d q n c =
      subst
        (λ r.
          ((run_session sid later r).waiting ≡ [])
          × ((run_session sid later r).running ≡ q.running))
        (sym stepped) (emptied ts (emit stamp sid b d) q' n.1 (Covered-keep t ts q.waiting c))
    where
      b : Body
      b = task_cancelled t.task_id "session_deleted"

      later : List Event
      later = cancellations ts (emit stamp sid b d)

      q' : SessionQueue
      q' = record q { waiting = keep (λ w. not (w.task_id == t.task_id)) q.waiting }

      one : step (emitted stamp sid b d) q ≡ q'
      one = rw n.0 refl

      stepped : (if str_eq sid sid then step (emitted stamp sid b d) q else q) ≡ q'
      stepped = rw (str_eq_refl sid) one

  cancellations-bodies :
      (ts : List Task) (d : Dispatcher) (e : Event)
      → map {B = String × Body}
          (λ (x : Event). (x.session_id, x.body))
          (cancellations ts d ++ e ∷ [])
        ≡ map {B = String × Body}
            (λ (t : Task). (sid, task_cancelled t.task_id "session_deleted"))
            ts
          ++ (e.session_id, e.body) ∷ []
  unfolding cancellations
  cancellations-bodies [] d e = refl
  cancellations-bodies (t ∷ ts) d e =
      let b = task_cancelled t.task_id "session_deleted" in
      ap (λ l. (sid, b) ∷ l) (cancellations-bodies ts (emit stamp sid b d) e)

  -- An accepted `delete_session` appends to the log, for this session, a `task.cancelled` for each task
  -- in its queue, in order, and then `session.deleted` with the status that it had, and nothing else;
  -- and once these have reached the projection the queue is empty and what runs is as before,
  -- provided that the running task is not also waiting.
  pub delete_session-empties :
      (d d' : Dispatcher)
      → NotRunning (in_flight d.projection sid) (queued d.projection sid)
      → delete_session stamp sid d ≡ accepted tt d'
      → (s : Session) × (es : List Event) × (e : Event) × (lookup sid d.sessions ≡ some s)
        × (d'.log ≡ d.log ++ es ++ e ∷ [])
        × (map {B = String × Body} (λ (x : Event). (x.session_id, x.body)) (es ++ e ∷ [])
            ≡ map {B = String × Body}
                (λ (t : Task). (sid, task_cancelled t.task_id "session_deleted"))
                (queued d.projection sid)
              ++ (sid, session_deleted (status_text s.status)) ∷ [])
        × (queued (apply_all (es ++ e ∷ []) d.projection) sid ≡ [])
        × (in_flight (apply_all (es ++ e ∷ []) d.projection) sid ≡ in_flight d.projection sid)
  unfolding delete_session emit apply_all step step_body view
  delete_session-empties d d' n h = go (lookup sid d.sessions) refl
    where
      ts : List Task
      ts = queued d.projection sid

      d1 : Dispatcher
      d1 = cancel_all stamp sid ts d

      d2 : Dispatcher
      d2 = record d1 { sessions = marked sid d1.sessions }

      Emptied : Type 0
      Emptied =
          (s : Session) × (es : List Event) × (e : Event) × (lookup sid d.sessions ≡ some s)
          × (d'.log ≡ d.log ++ es ++ e ∷ [])
          × (map {B = String × Body} (λ (x : Event). (x.session_id, x.body)) (es ++ e ∷ [])
              ≡ map {B = String × Body}
                  (λ (t : Task). (sid, task_cancelled t.task_id "session_deleted"))
                  (queued d.projection sid)
                ++ (sid, session_deleted (status_text s.status)) ∷ [])
          × (queued (apply_all (es ++ e ∷ []) d.projection) sid ≡ [])
          × (in_flight (apply_all (es ++ e ∷ []) d.projection) sid ≡ in_flight d.projection sid)

      done :
          (s : Session) (b : Body)
          → lookup sid d.sessions ≡ some s
          → b ≡ session_deleted (status_text s.status)
          → step_body sid (stamp (length d2.log)).at b ≡ (λ q. q)
          → emit stamp sid b d2 ≡ d'
          → Emptied
      done s b found closing idle same =
          let es = cancellations ts d in
          let e = emitted stamp sid b d2 in
          let mid = apply_all es d.projection in
          let r = emptied ts d (view d.projection sid) n (Covered-refl ts) in
          let v : view (apply_all (es ++ e ∷ []) d.projection) sid
              ≡ run_session sid es (view d.projection sid) =
            ap (λ p. view p sid) (apply_all-append es (e ∷ []) d.projection)
            ∙ view-apply_own e mid sid refl
            ∙ ap (λ f. f (view mid sid)) idle
            ∙ view-apply_all es d.projection sid in
          (
            s,
            es,
            e,
            found,
            ap (λ x. x.log) (sym same) ∙ ap (λ l. l ++ e ∷ []) (cancel_all-log ts d),
            cancellations-bodies ts d e
                ∙ ap
                    (λ x.
                      map {B = String × Body}
                        (λ (t : Task). (sid, task_cancelled t.task_id "session_deleted")) ts
                      ++ (sid, x) ∷ [])
                    closing,
            ap (λ q. q.waiting) v ∙ r.0,
            ap (λ q. q.running) v ∙ r.1,
          )

      go : (k : Option Session) → lookup sid d.sessions ≡ k → Emptied
      go none q = absurd (ground arith)
      go (some s) q = done s (session_deleted (status_text s.status)) q refl refl (
          accepted-injective tt tt (emit stamp sid (session_deleted (status_text s.status)) d2) d'
            (rw (q, delete_session) at h))
