-- ===== src/GlobalQueue/Buckets.antt =====
-- The `scheduled` bucket of core/orchestration/use_cases/get_global_queue.py.
use mad_edge.Prelude.{
  ℕ, ◌≡◌, refl, sym, subst, ap, true, false, not, Option, some, List, [], ◌∷◌, ◌++◌, String, keep,
  map, elem, Member, Member-keep, inl, inr, ◌⊎◌, arith, Bool-cases, str_eq-cases,
}
use mad_edge.Prelude.Dict.{Dict, lookup, values}
use mad_edge.Prelude.Sorting.{Member-sort_by, sort_by-Member, IsSorted, sort_by-IsSorted}
use mad_edge.Policy.{Zones, DispatchPolicy}
use mad_edge.Tasks.{Task}
use mad_edge.Sessions.{Session}
use mad_edge.Projection.{Projection, queued, pending_session_ids}
use mad_edge.GlobalQueue.{
  ScheduledEntry, GlobalQueueOutput, view, live_sessions, is_eligible, get_global_queue, entry_ltb,
  scheduled_entry, gated_entries, scheduled_entries, gated,
}
use mad_edge.GlobalQueue.Live.{IsIndex, values-lookup, IsLive-live_sessions, queued-pending}
use mad_edge.GlobalQueue.Agreement.{Member-keep_rev, parts_of_view, live-index, by_id}
use mad_edge.GlobalQueue.Order.{entry_ltb-IsWeakOrder}

Member-map_ids :
    (s : Session) (ss : List Session)
    → Member s ss
    → elem s.session_id (map (λ (x : Session). x.session_id) ss) ≡ true
Member-map_ids s [] m = absurd m
Member-map_ids s (x ∷ xs) (inl e) = elim (str_eq-cases x.session_id s.session_id) [
  | inl (same, q) ↦ ground arith
  | inr (other, q) ↦ absurd (q (ap (λ (y : Session). y.session_id) (sym e)))
]
Member-map_ids s (x ∷ xs) (inr m) = ground (arith, Member-map_ids s xs m)

elem-map_ids :
    (sid : String) (ss : List Session)
    → elem sid (map (λ (x : Session). x.session_id) ss) ≡ true
    → (s : Session) × Member s ss × (s.session_id ≡ sid)
elem-map_ids sid [] h = cc
elem-map_ids sid (x ∷ xs) h = elim (str_eq-cases x.session_id sid) [
  | inl (same, q) ↦ (x, inl refl, q)
  | inr (other, q) ↦ let (s, m, e) = elem-map_ids sid xs (ground arith) in (s, inr m, e)
]

Member-map :
    {A B : Type 0} (f : A → B) (x : A) (xs : List A) → Member x xs → Member (f x) (map f xs)
Member-map f x [] m = absurd m
Member-map f x (y ∷ ys) (inl e) = inl (ap f e)
Member-map f x (y ∷ ys) (inr m) = inr (Member-map f x ys m)

map-Member :
    {A B : Type 0} (f : A → B) (b : B) (xs : List A)
    → Member b (map f xs)
    → (x : A) × Member x xs × (b ≡ f x)
map-Member f b [] m = absurd m
map-Member f b (y ∷ ys) (inl e) = (y, inl refl, e)
map-Member f b (y ∷ ys) (inr m) = let (x, n, e) = map-Member f b ys m in (x, inr n, e)

Member-append :
    {A : Type 0} (x : A) (ys zs : List A) → Member x (ys ++ zs) → Member x ys ⊎ Member x zs
Member-append x [] zs m = inr m
Member-append x (y ∷ ys) zs (inl e) = inl (inl e)
Member-append x (y ∷ ys) zs (inr m) = elim (Member-append x ys zs m) [
  | inl a ↦ inl (inr a)
  | inr b ↦ inr b
]

append-Member :
    {A : Type 0} (x : A) (ys zs : List A) → Member x ys ⊎ Member x zs → Member x (ys ++ zs)
append-Member x [] zs (inl m) = absurd m
append-Member x [] zs (inr m) = m
append-Member x (y ∷ ys) zs (inl (inl e)) = inl e
append-Member x (y ∷ ys) zs (inl (inr m)) = inr (append-Member x ys zs (inl m))
append-Member x (y ∷ ys) zs (inr m) = inr (append-Member x ys zs (inr m))

module _ (z : Zones) (deployment : Option DispatchPolicy) (now : ℕ) where
  gated-entries :
      (queue : String → List Task) (e : ScheduledEntry) (ss : List Session)
      → Member e (gated_entries z deployment now queue ss)
      → (s : Session) × (t : Task) × Member s ss
        × Member t (queue s.session_id)
        × (e ≡ scheduled_entry z deployment now s t)
  unfolding gated_entries
  gated-entries queue e [] m = absurd m
  gated-entries queue e (s ∷ ss) m =
      place (Member-append e _ (gated_entries z deployment now queue ss) m)
        (gated-entries queue e ss)
    where
      place :
          Member e (map (scheduled_entry z deployment now s) (queue s.session_id))
            ⊎ Member e (gated_entries z deployment now queue ss)
          → (Member e (gated_entries z deployment now queue ss)
              → (x : Session) × (t : Task) × Member x ss
                × Member t (queue x.session_id)
                × (e ≡ scheduled_entry z deployment now x t))
          → (x : Session) × (t : Task) × Member x (s ∷ ss)
            × Member t (queue x.session_id)
            × (e ≡ scheduled_entry z deployment now x t)
      place (inl m) ih =
          let (t, n, q) =
            map-Member (scheduled_entry z deployment now s) e (queue s.session_id) m in
          (s, t, inl refl, n, q)
      place (inr m) ih = let (x, t, n, k, q) = ih m in (x, t, inr n, k, q)

  entries-gated :
      (queue : String → List Task) (s : Session) (t : Task) (ss : List Session)
      → Member s ss
      → Member t (queue s.session_id)
      → Member (scheduled_entry z deployment now s t) (gated_entries z deployment now queue ss)
  unfolding gated_entries
  entries-gated queue s t [] m n = absurd m
  entries-gated queue s t (x ∷ xs) (inl e) n =
      append-Member _ _ (gated_entries z deployment now queue xs) (
        inl (
          subst
            (λ (y : Session).
              Member (scheduled_entry z deployment now s t)
                (map (scheduled_entry z deployment now y) (queue y.session_id)))
            e (Member-map (scheduled_entry z deployment now s) t (queue s.session_id) n)))
  entries-gated queue s t (x ∷ xs) (inr m) n =
      append-Member _ (map (scheduled_entry z deployment now x) (queue x.session_id)) _
        (inr (entries-gated queue s t xs m n))

  -- The gated sessions of a list with one session for each id are those that may not dispatch.
  gated-Member :
      (s : Session) (sessions : List Session)
      → Member s (gated (keep (is_eligible z deployment now) sessions) sessions)
      → Member s sessions × (is_eligible z deployment now s ≡ false)
  unfolding gated
  gated-Member s sessions m =
      let (among, out) = Member-keep _ s sessions m in
      (among, closed (Bool-cases (is_eligible z deployment now s)) among out)
    where
      closed :
          (is_eligible z deployment now s ≡ true) ⊎ (is_eligible z deployment now s ≡ false)
          → Member s sessions
          → not (
              elem s.session_id (
                map (λ (x : Session). x.session_id) (keep (is_eligible z deployment now) sessions)))
            ≡ true
          → is_eligible z deployment now s ≡ false
      closed (inl e) among out = absurd (
          ground (
            arith,
            Member-map_ids s _ (Member-keep_rev (is_eligible z deployment now) s sessions among e),
          ))
      closed (inr e) among out = e

  Member-gated :
      (s : Session) (sessions : List Session)
      → ((x : Session) → Member x sessions → s.session_id ≡ x.session_id → s ≡ x)
      → Member s sessions
      → is_eligible z deployment now s ≡ false
      → Member s (gated (keep (is_eligible z deployment now) sessions) sessions)
  unfolding gated
  Member-gated s sessions own m e = Member-keep_rev _ s sessions m (
      shut (
        Bool-cases (
          elem s.session_id
            (map (λ (x : Session). x.session_id) (keep (is_eligible z deployment now) sessions)))))
    where
      ids : List String
      ids = map (λ (x : Session). x.session_id) (keep (is_eligible z deployment now) sessions)

      shut :
          (elem s.session_id ids ≡ true) ⊎ (elem s.session_id ids ≡ false)
          → not (elem s.session_id ids) ≡ true
      shut (inr f) = ground arith
      shut (inl f) =
          let (x, n, q) =
            elem-map_ids s.session_id (keep (is_eligible z deployment now) sessions) f in
          let (among, may) = Member-keep (is_eligible z deployment now) x sessions n in
          let same : s ≡ x = own x among (sym q) in
          absurd (ground (arith, ap (is_eligible z deployment now) same))

Member-cons :
    (t : Task) (ts : List Task) → Member t ts → (x : Task) × (xs : List Task) × (ts ≡ x ∷ xs)
Member-cons t [] m = absurd m
Member-cons t (x ∷ xs) m = (x, xs, refl)

-- `e` says of a waiting task of a session in the index, which may not dispatch now, when and why it
-- is to wait.
abbrev pub Explains :
    Zones → Option DispatchPolicy → ℕ → Dict Session → Projection → ScheduledEntry → Type 0
Explains z deployment now index p e =
    (s : Session) × (t : Task) × (lookup s.session_id index ≡ some s)
    × (is_eligible z deployment now s ≡ false)
    × Member t (queued p s.session_id)
    × (e ≡ scheduled_entry z deployment now s t)

-- When the view can be rendered and each session stands once in the index, under its own id, then
-- `scheduled` holds an entry exactly if it explains a waiting task of a session in the index that
-- may not dispatch now, by that session's priority, policy and next opening; and the entries are in
-- the order of their opening, priority, arrival and session, those without an opening last.
pub get_global_queue-scheduled :
    (z : Zones) (deployment : Option DispatchPolicy) (now : ℕ) (index : Dict Session)
    (p : Projection) (out : GlobalQueueOutput)
    → IsIndex index
    → get_global_queue z deployment now index p ≡ view out
    → ((e : ScheduledEntry) → Member e out.scheduled → Explains z deployment now index p e)
      × ((e : ScheduledEntry) → Explains z deployment now index p e → Member e out.scheduled)
      × IsSorted entry_ltb out.scheduled
unfolding scheduled_entries
get_global_queue-scheduled z deployment now index p out i h =
    let (sessions, live, _, made) = parts_of_view z deployment now index p out h in
    let shown : List Session = values sessions in
    let entries =
      gated_entries z deployment now (queued p)
        (gated (keep (is_eligible z deployment now) shown) shown) in
    (
      λ e m. explained sessions live e (
          Member-sort_by entry_ltb e entries
            (subst (λ (l : List ScheduledEntry). Member e l) (sym made) m)),
      λ e x.
          subst (λ (l : List ScheduledEntry). Member e l) made
            (sort_by-Member entry_ltb e entries (entered sessions live e x)),
      subst (λ (l : List ScheduledEntry). IsSorted entry_ltb l) made
          (sort_by-IsSorted entry_ltb entry_ltb-IsWeakOrder entries),
    )
  where
    explained :
        (sessions : Dict Session)
        → live_sessions index (pending_session_ids p) ≡ view sessions
        → (e : ScheduledEntry)
        → Member e (
            gated_entries z deployment now
              (queued p)
              (gated (keep (is_eligible z deployment now) (values sessions)) (values sessions)))
        → Explains z deployment now index p e
    explained sessions live e m =
        let (s, t, n, k, q) = gated-entries z deployment now (queued p) e _ m in
        let (among, closed) = gated-Member z deployment now s (values sessions) n in
        let within = live-index z deployment now index p i sessions s live among in
        (s, t, values-lookup index s i within, closed, k, q)

    entered :
        (sessions : Dict Session)
        → live_sessions index (pending_session_ids p) ≡ view sessions
        → (e : ScheduledEntry) → Explains z deployment now index p e
        → Member e (
            gated_entries z deployment now
              (queued p)
              (gated (keep (is_eligible z deployment now) (values sessions)) (values sessions)))
    entered sessions live e (s, t, found, closed, k, q) =
        let (x, xs, waiting) = Member-cons t (queued p s.session_id) k in
        let among =
          IsLive-live_sessions index (pending_session_ids p) sessions live s s.session_id
            (queued-pending p s.session_id x xs waiting) found in
        subst
          (λ (y : ScheduledEntry). Member y (
            gated_entries z deployment now (queued p)
              (gated (keep (is_eligible z deployment now) (values sessions)) (values sessions))))
          (sym q)
          (entries-gated z deployment now (queued p) s t _
            (Member-gated z deployment now s (values sessions)
              (λ y m. by_id z deployment now index p i sessions live s y among m) among closed)
            k)
