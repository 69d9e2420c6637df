-- ===== src/GlobalQueue/Agreement.antt =====
-- The `ready` bucket of core/orchestration/use_cases/get_global_queue.py against the choice of
-- core/orchestration/use_cases/dispatcher.py.
use mad_edge.Prelude.{
  ℕ, ◌≡◌, refl, sym, subst, ap, ◌∙◌, Bool, true, false, Option, none, some, List, [], ◌∷◌, keep,
  map, Member, Member-keep, inl, inr, if◌then◌else◌,
}
use mathlib.Core.Option.{some-injective}
use mad_edge.Prelude.Dict.{Dict, lookup, values}
use mad_edge.Policy.{Zones, DispatchPolicy}
use mad_edge.Tasks.{Task}
use mad_edge.Sessions.{Session}
use mad_edge.Projection.{Projection, queued, pending_session_ids}
use mad_edge.Ordering.{order_ready_candidates}
use mad_edge.Ordering.Least.{Covers, IsById, first_of, order_ready_candidates-Covers}
use mad_edge.Dispatcher.{
  Stamp, Dispatcher, can_dispatch_for, eligible, first_of_list, find_next_dispatchable,
}
use mad_edge.GlobalQueue.{
  QueueEntry, GlobalQueueOutput, view, live_sessions, entry_of, entries_of, single_in_flight,
  is_eligible, scheduled_entries, gated, get_global_queue, priced,
}
use mad_edge.GlobalQueue.Live.{
  IsIndex, values-lookup, lookup-values, then_view, view-injective, live_sessions-IsLive,
  IsLive-live_sessions, queued-pending,
}

pub Member-keep_rev :
    {A : Type 0} (p : A → Bool) (x : A) (ys : List A)
    → Member x ys
    → p x ≡ true
    → Member x (keep p ys)
Member-keep_rev p x [] m h = absurd m
Member-keep_rev p x (y ∷ ys) (inl e) h =
    let here : p y ≡ true = subst (λ k. p k ≡ true) e h in rw here (inl e)
Member-keep_rev p x (y ∷ ys) (inr m) h = go (p y) (Member-keep_rev p x ys m h)
  where
    go : (b : Bool) → Member x (keep p ys) → Member x (if b then y ∷ keep p ys else keep p ys)
    go true n = inr n
    go false n = n

priced-task :
    (t : Task) (found : Option Session) (entry : QueueEntry)
    → priced t found ≡ view entry
    → entry.task ≡ t
priced-task t none entry e = cc
priced-task t (some s) entry e = ap (λ (x : QueueEntry). x.task) (sym (view-injective _ entry e))

entries_of-task :
    (sessions : Dict Session) (ts : List Task) (entries : List QueueEntry)
    → entries_of sessions ts ≡ view entries
    → map (λ (x : QueueEntry). x.task) entries ≡ ts
unfolding entries_of
entries_of-task sessions [] entries e =
    ap (λ (l : List QueueEntry). map (λ (x : QueueEntry). x.task) l)
      (sym (view-injective [] entries e))
entries_of-task sessions (t ∷ ts) entries e =
    let (entry, p, e1) = then_view (entry_of sessions t) _ entries e in
    let (rest, q, e2) = then_view (entries_of sessions ts) _ entries e1 in
    let head = priced-task t (lookup t.session_id sessions) entry p in
    let tail = entries_of-task sessions ts rest q in
    ap (λ (l : List QueueEntry). map (λ (x : QueueEntry). x.task) l)
      (sym (view-injective (entry ∷ rest) entries e2))
    ∙ cc (head, tail)

module _ (z : Zones) (deployment : Option DispatchPolicy) (now : ℕ) where
  -- What a view is made of.
  pub parts_of_view :
      (index : Dict Session) (p : Projection) (out : GlobalQueueOutput)
      → get_global_queue z deployment now index p ≡ view out
      → (sessions : Dict Session) × (live_sessions index (pending_session_ids p) ≡ view sessions)
        × (map (λ (x : QueueEntry). x.task) out.ready
            ≡ order_ready_candidates
                (keep (is_eligible z deployment now) (values sessions))
                (queued p))
        × (scheduled_entries z deployment now
              (queued p)
              (gated (keep (is_eligible z deployment now) (values sessions)) (values sessions))
            ≡ out.scheduled)
  unfolding get_global_queue
  parts_of_view index p out e =
      let (sessions, live, e1) = then_view (live_sessions index (pending_session_ids p)) _ out e in
      let (flight, _, e2) =
        then_view (single_in_flight p (pending_session_ids p) sessions) _ out e1 in
      let (ready, made, e3) = then_view (entries_of sessions _) _ out e2 in
      let same : ready ≡ out.ready =
        ap (λ (x : GlobalQueueOutput). x.ready) (view-injective _ out e3) in
      (
        sessions,
        live,
        ap (λ (l : List QueueEntry). map (λ (x : QueueEntry). x.task) l) (sym same)
            ∙ entries_of-task sessions _ ready made,
        ap (λ (x : GlobalQueueOutput). x.scheduled) (view-injective _ out e3),
      )

  module _ (index : Dict Session) (p : Projection) (i : IsIndex index) where
    -- The eligible sessions with a queue are the same in the index and in the view.
    Covers-live :
        (sessions : Dict Session)
        → live_sessions index (pending_session_ids p) ≡ view sessions
        → Covers
            (queued p)
            (keep (is_eligible z deployment now) (values index))
            (keep (is_eligible z deployment now) (values sessions))
    Covers-live sessions live s t ts m q =
        let (among, may) = Member-keep (is_eligible z deployment now) s (values index) m in
        Member-keep_rev (is_eligible z deployment now) s (values sessions)
          (IsLive-live_sessions index (pending_session_ids p) sessions live s s.session_id
            (queued-pending p s.session_id t ts q) (values-lookup index s i among))
          may

    pub live-index :
        (sessions : Dict Session) (s : Session)
        → live_sessions index (pending_session_ids p) ≡ view sessions
        → Member s (values sessions)
        → Member s (values index)
    live-index sessions s live m =
        let (sid, _, found) =
          live_sessions-IsLive index (pending_session_ids p) sessions live s m in
        (lookup-values index sid s i found).0

    live-Covers :
        (sessions : Dict Session)
        → live_sessions index (pending_session_ids p) ≡ view sessions
        → Covers
            (queued p)
            (keep (is_eligible z deployment now) (values sessions))
            (keep (is_eligible z deployment now) (values index))
    live-Covers sessions live s t ts m q =
        let (among, may) = Member-keep (is_eligible z deployment now) s (values sessions) m in
        Member-keep_rev (is_eligible z deployment now) s (values index)
          (live-index sessions s live among) may

    pub by_id :
        (sessions : Dict Session)
        → live_sessions index (pending_session_ids p) ≡ view sessions
        → (s x : Session) → Member s (values sessions)
        → Member x (values sessions)
        → s.session_id ≡ x.session_id
        → s ≡ x
    by_id sessions live s x m n same =
        let s_in = live-index sessions s live m in
        let x_in = live-index sessions x live n in
        some-injective s x (
          sym (values-lookup index s i s_in)
          ∙ subst (λ k. lookup k index ≡ some x) (sym same) (values-lookup index x i x_in))

    IsById-live :
        (sessions : Dict Session)
        → live_sessions index (pending_session_ids p) ≡ view sessions
        → IsById (queued p) (keep (is_eligible z deployment now) (values sessions))
    IsById-live sessions live s x m n same =
        by_id sessions live s x (Member-keep (is_eligible z deployment now) s (values sessions) m).0
          (Member-keep (is_eligible z deployment now) x (values sessions) n).0 same

-- When the view can be rendered, with the dispatcher's own sessions, projection and deployment
-- default and each session standing once under its own id, the first task of `ready` is the one that
-- the dispatcher would pick at that moment, and `ready` is empty if it would pick none.
pub get_global_queue-first :
    (z : Zones) (stamp : ℕ → Stamp) (now : ℕ) (d : Dispatcher) (out : GlobalQueueOutput)
    → IsIndex d.sessions
    → get_global_queue z d.deployment now d.sessions d.projection ≡ view out
    → find_next_dispatchable z stamp (some now) d
      ≡ first_of (map (λ (x : QueueEntry). x.task) out.ready)
unfolding find_next_dispatchable is_eligible can_dispatch_for eligible
get_global_queue-first z stamp now d out i e =
    let (sessions, live, made, _) =
      parts_of_view z d.deployment now d.sessions d.projection out e in
    listed (order_ready_candidates (eligible z stamp (some now) d) (queued d.projection))
    ∙ order_ready_candidates-Covers (queued d.projection) _ _
        (IsById-live z d.deployment now d.sessions d.projection i sessions live)
        (Covers-live z d.deployment now d.sessions d.projection i sessions live)
        (live-Covers z d.deployment now d.sessions d.projection i sessions live)
    ∙ ap first_of (sym made)
  where
    listed : (ts : List Task) → first_of_list z stamp ts ≡ first_of ts
    listed [] = refl
    listed (t ∷ ts) = refl
