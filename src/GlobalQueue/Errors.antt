-- ===== src/GlobalQueue/Errors.antt =====
-- The RuntimeErrors of core/orchestration/use_cases/get_global_queue.py.
use mad_edge.Prelude.{
  ℕ, ◌≤◌, ◌≡◌, ◌≢◌, refl, sym, subst, ◌∙◌, true, false, Option, none, some, List, [], ◌∷◌, String,
  keep, All, Member, Member-keep, inl, inr, ◌⊎◌, length, str_eq, str_eq-cases, arith,
}
use mad_edge.Prelude.Dict.{Dict, lookup, values}
use mad_edge.Policy.{Zones, DispatchPolicy}
use mad_edge.Tasks.{Task}
use mad_edge.Sessions.{Session}
use mad_edge.Projection.{Projection, queued, in_flight, pending_session_ids}
use mad_edge.Ordering.{order_ready_candidates}
use mad_edge.Ordering.Rounds.{IsOwn}
use mad_edge.Ordering.Tasks.{All-order_ready_candidates}
use mad_edge.GlobalQueue.{
  QueueEntry, GlobalQueueOutput, view, live_sessions, priced, entry_of, entries_of, add_flight,
  dispatched, at_most_one, single_in_flight, is_eligible, get_global_queue, scheduled_entries,
  gated,
}
use mad_edge.GlobalQueue.Live.{
  IsIndex, lookup-values, then_view, add_session-view, live_sessions-IsLive,
}

abbrev IsKnown : Dict Session → String → Type 0
IsKnown sessions sid = (s : Session) × (lookup sid sessions ≡ some s)

-- Every pending session is in the index.
abbrev pub AllLive : Dict Session → List String → Type 0
AllLive index sids = (sid : String) → Member sid sids → IsKnown index sid

live_sessions-view :
    (index : Dict Session) (sids : List String)
    → AllLive index sids
    → (d : Dict Session) × (live_sessions index sids ≡ view d)
unfolding live_sessions
live_sessions-view index [] h = ([], refl)
live_sessions-view index (sid ∷ sids) h =
    let (s, found) = h sid (inl refl) in
    let (d, rest) = live_sessions-view index sids (λ k m. h k (inr m)) in
    ((sid, s) ∷ d, rw (found, rest) refl)

view-AllLive :
    (index : Dict Session) (sids : List String) (d : Dict Session)
    → live_sessions index sids ≡ view d
    → AllLive index sids
unfolding live_sessions
view-AllLive index [] d e sid m = absurd m
view-AllLive index (k ∷ sids) d e sid m =
    let (s, d', found, rest, _) =
      add_session-view k (lookup k index) (live_sessions index sids) d e in
    place s found m (view-AllLive index sids d' rest sid)
  where
    place :
        (s : Session)
        → lookup k index ≡ some s
        → Member sid (k ∷ sids)
        → (Member sid sids → IsKnown index sid)
        → IsKnown index sid
    place s found (inl q) later = (s, subst (λ j. lookup j index ≡ some s) (sym q) found)
    place s found (inr n) later = later n

-- The sessions that are shown are looked up as in the index.
lookup-live :
    (index : Dict Session) (sids : List String) (d : Dict Session)
    → live_sessions index sids ≡ view d
    → (sid : String) → Member sid sids
    → lookup sid d ≡ lookup sid index
unfolding live_sessions
lookup-live index [] d e sid m = absurd m
lookup-live index (k ∷ sids) d e sid m =
    let (s, d', found, rest, made) =
      add_session-view k (lookup k index) (live_sessions index sids) d e in
    subst (λ (x : Dict Session). lookup sid x ≡ lookup sid index) (sym made)
      (place s d' found m (str_eq-cases k sid) (lookup-live index sids d' rest sid))
  where
    place :
        (s : Session) (d' : Dict Session)
        → lookup k index ≡ some s
        → Member sid (k ∷ sids)
        → ((str_eq k sid ≡ true) × (k ≡ sid)) ⊎ ((str_eq k sid ≡ false) × (k ≢ sid))
        → (Member sid sids → lookup sid d' ≡ lookup sid index)
        → lookup sid ((k, s) ∷ d') ≡ lookup sid index
    place s d' found m (inl (same, q)) later =
        unfold lookup in rw same (sym (subst (λ j. lookup j index ≡ some s) q found))
    place s d' found (inl e) (inr (other, q)) later = absurd (q (sym e))
    place s d' found (inr n) (inr (other, q)) later = unfold lookup in rw other (later n)

priced-view :
    (t : Task) (found : Option Session) (s : Session)
    → found ≡ some s
    → (entry : QueueEntry) × (priced t found ≡ view entry)
priced-view t none s e = cc
priced-view t (some x) s e = (record { task = t; priority = x.priority }, refl)

entry_of-view :
    (sessions : Dict Session) (t : Task)
    → IsKnown sessions t.session_id
    → (entry : QueueEntry) × (entry_of sessions t ≡ view entry)
unfolding entry_of
entry_of-view sessions t (s, found) = priced-view t (lookup t.session_id sessions) s found

entries_of-view :
    (sessions : Dict Session) (ts : List Task)
    → All (λ (t : Task). IsKnown sessions t.session_id) ts
    → (entries : List QueueEntry) × (entries_of sessions ts ≡ view entries)
unfolding entries_of
entries_of-view sessions [] h = ([], refl)
entries_of-view sessions (t ∷ ts) h =
    let (entry, p) = entry_of-view sessions t h.0 in
    let (entries, q) = entries_of-view sessions ts h.1 in (entry ∷ entries, rw (p, q) refl)

at_most_one-view :
    (sessions : Dict Session) (ts : List Task)
    → All (λ (t : Task). IsKnown sessions t.session_id) ts
    → length ts ≤ 1
    → (flight : Option QueueEntry) × (at_most_one sessions ts ≡ view flight)
at_most_one-view sessions [] h le = (none, refl)
at_most_one-view sessions (t ∷ []) h le =
    let (entry, p) = entry_of-view sessions t h.0 in (some entry, rw p refl)
at_most_one-view sessions (t ∷ u ∷ ts) h le = absurd (omega arith)

view-at_most_one :
    (sessions : Dict Session) (ts : List Task) (flight : Option QueueEntry)
    → at_most_one sessions ts ≡ view flight
    → length ts ≤ 1
view-at_most_one sessions [] flight e = omega arith
view-at_most_one sessions (t ∷ []) flight e = omega arith
view-at_most_one sessions (t ∷ u ∷ ts) flight e = cc

-- Each task stands in the queue, or in flight, of its own session.
pub record IsFiled (p : Projection) : Type 0 where
  pub queues : (sid : String) → IsOwn sid (queued p sid)
  pub flights : (sid : String) (t : Task) → in_flight p sid ≡ some t → t.session_id ≡ sid

dispatched-All :
    (p : Projection) (P : String → Type 0) (sids : List String)
    → IsFiled p
    → ((sid : String) → Member sid sids → P sid)
    → All (λ (t : Task). P t.session_id) (dispatched p sids)
unfolding dispatched
dispatched-All p P [] f h = tt
dispatched-All p P (sid ∷ sids) f h =
    go (in_flight p sid) (f.flights sid) (dispatched-All p P sids f (λ k m. h k (inr m)))
  where
    go :
        (o : Option Task)
        → ((t : Task) → o ≡ some t → t.session_id ≡ sid)
        → All (λ (t : Task). P t.session_id) (dispatched p sids)
        → All (λ (t : Task). P t.session_id) (add_flight o (dispatched p sids))
    go none own ih = ih
    go (some t) own ih = (subst P (sym (own t refl)) (h sid (inl refl)), ih)

All-IsOwn :
    (P : String → Type 0) (sid : String) (ts : List Task)
    → IsOwn sid ts
    → P sid
    → All (λ (t : Task). P t.session_id) ts
All-IsOwn P sid [] own h = tt
All-IsOwn P sid (t ∷ ts) own h = (subst P (sym own.0) h, All-IsOwn P sid ts own.1 h)

Member-All : {A : Type 0} (P : A → Type 0) (xs : List A) → ((x : A) → Member x xs → P x) → All P xs
Member-All P [] h = tt
Member-All P (x ∷ xs) h = (h x (inl refl), Member-All P xs (λ y m. h y (inr m)))

-- What the view needs: its sessions are live, and at most one of them has a task in flight.
abbrev pub CanRender : Dict Session → Projection → Type 0
CanRender index p =
    AllLive index (pending_session_ids p) × (length (dispatched p (pending_session_ids p)) ≤ 1)

module _ (z : Zones) (deployment : Option DispatchPolicy) (now : ℕ) where
  renders :
      (index : Dict Session) (p : Projection)
      → IsIndex index
      → IsFiled p
      → CanRender index p
      → (out : GlobalQueueOutput) × (get_global_queue z deployment now index p ≡ view out)
  unfolding get_global_queue single_in_flight
  renders index p i f (all_live, one) =
      let pending = pending_session_ids p in
      let (sessions, live) = live_sessions-view index pending all_live in
      let known : ((sid : String) → Member sid pending → IsKnown sessions sid) = λ sid m.
        let (s, found) = all_live sid m in
        (s, lookup-live index pending sessions live sid m ∙ found) in
      let (flight, flown) =
        at_most_one-view sessions (dispatched p pending)
          (dispatched-All p (IsKnown sessions) pending f known) one in
      let shown = keep (is_eligible z deployment now) (values sessions) in
      let (ready, made) = entries_of-view sessions (order_ready_candidates shown (queued p)) (
        All-order_ready_candidates (λ t. IsKnown sessions t.session_id) (queued p) shown
          (Member-All
            (λ s. All (λ (t : Task). IsKnown sessions t.session_id) (queued p s.session_id)) shown
            (λ s m.
              let (sid, among, found) =
                live_sessions-IsLive index pending sessions live s
                  (Member-keep (is_eligible z deployment now) s (values sessions) m).0 in
              let own = (lookup-values index sid s i found).1 in
              All-IsOwn (IsKnown sessions) s.session_id (queued p s.session_id)
                (f.queues s.session_id) (subst (IsKnown sessions) (sym own) (known sid among))))) in
      (
        record {
          in_flight = flight;
          ready = ready;
          scheduled = scheduled_entries z deployment now (queued p) (gated shown (values sessions));
        },
        rw (live, flown, made) refl,
      )

  rendered :
      (index : Dict Session) (p : Projection) (out : GlobalQueueOutput)
      → get_global_queue z deployment now index p ≡ view out
      → CanRender index p
  unfolding get_global_queue single_in_flight
  rendered index p out e =
      let (sessions, live, e1) = then_view (live_sessions index (pending_session_ids p)) _ out e in
      let (flight, flown, e2) =
        then_view (at_most_one sessions (dispatched p (pending_session_ids p))) _ out e1 in
      (
        view-AllLive index (pending_session_ids p) sessions live,
        view-at_most_one sessions (dispatched p (pending_session_ids p)) flight flown,
      )

-- If each session stands once in the index, under its own id, and each task under its own session in
-- the projection, then the view is rendered exactly if every session with pending tasks is in the
-- index and at most one task is in flight; the execution raises otherwise.
pub get_global_queue-CanRender :
    (z : Zones) (deployment : Option DispatchPolicy) (now : ℕ) (index : Dict Session)
    (p : Projection)
    → IsIndex index
    → IsFiled p
    → (CanRender index p
        → (out : GlobalQueueOutput) × (get_global_queue z deployment now index p ≡ view out))
      × ((out : GlobalQueueOutput)
          → get_global_queue z deployment now index p ≡ view out
          → CanRender index p)
get_global_queue-CanRender z deployment now index p i f =
    (renders z deployment now index p i f, rendered z deployment now index p)
