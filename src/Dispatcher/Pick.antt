-- ===== src/Dispatcher/Pick.antt =====
-- `_find_next_dispatchable` of core/orchestration/use_cases/dispatcher.py.
use mad_edge.Prelude.{
  ℕ, suc, ◌+◌, ◌≤◌, ◌<◌, ◌≡◌, refl, sym, ap, subst, ◌∙◌, true, Option, none, some, List, [], ◌∷◌,
  String, List-cases, All, Member, Member-keep, inl, inr, ◌⊎◌, arith, length,
}
use mathlib.Core.Option.{some-injective}
use mad_edge.Prelude.Dict.{values}
use mad_edge.Policy.{Zones}
use mad_edge.Tasks.{Task}
use mad_edge.Sessions.{Session}
use mad_edge.Projection.{queued}
use mad_edge.Ordering.{
  Candidate, tasks, with_queue, candidates, drain, task_count, order_ready_candidates,
}
use mad_edge.Ordering.Rounds.{Holds}
use mad_edge.Ordering.Priority.{Precedes, order_ready_candidates-first}
use mad_edge.Dispatcher.{
  Stamp, Dispatcher, can_dispatch_for, first_of_list, eligible, find_next_dispatchable,
}

candidate_of : (s : Session) (t : Task) (ts : List Task) → Candidate
candidate_of s t ts = record {
  session_id = s.session_id;
  priority = s.priority;
  head = t;
  tail = ts;
}

-- A session of the list whose queue is a candidate's tasks.
abbrev IsSource : (String → List Task) → Candidate → List Session → Type 0
IsSource queue c sessions =
    (s : Session) × Member s sessions × (queue s.session_id ≡ tasks c) × (c.priority ≡ s.priority)

-- `t` may be started before anything of `s`: nothing waits there, or the priority of `s` is lower, or
-- it is the same and the head of its queue arrived no earlier.
abbrev pub MayPrecede : (String → List Task) → Task → ℕ → Session → Type 0
MayPrecede queue t priority s =
    (queue s.session_id ≡ [])
    ⊎ ((h : Task) × (ts : List Task) × (queue s.session_id ≡ h ∷ ts)
        × ((s.priority < priority) ⊎ ((s.priority ≡ priority) × (t.created_at ≤ h.created_at))))

module _ (queue : String → List Task) where
  IsSource-here :
      (c : Candidate) (s : Session) (ss : List Session) (t : Task) (ts : List Task)
      → queue s.session_id ≡ t ∷ ts
      → c ≡ candidate_of s t ts
      → IsSource queue c (s ∷ ss)
  unfolding candidate_of
  IsSource-here c s ss t ts e q =
      (s, inl refl, e ∙ ap tasks (sym q), ap (λ (x : Candidate). x.priority) q)

  Holds-candidates :
      (c : Candidate) (sessions : List Session)
      → Holds c (candidates sessions queue)
      → IsSource queue c sessions
  unfolding candidates
  Holds-candidates c [] h = absurd h
  Holds-candidates c (s ∷ ss) h = go (queue s.session_id) refl h (Holds-candidates c ss)
    where
      later : IsSource queue c ss → IsSource queue c (s ∷ ss)
      later (x, m, q, p) = (x, inr m, q, p)

      go :
          (ts : List Task)
          → queue s.session_id ≡ ts
          → Holds c (with_queue s ts (candidates ss queue))
          → (Holds c (candidates ss queue) → IsSource queue c ss)
          → IsSource queue c (s ∷ ss)
      go [] e h ih = later (ih (unfold with_queue in h))
      go (t ∷ ts) e h ih = place (unfold with_queue candidate_of in h)
        where
          place :
              (c ≡ candidate_of s t ts) ⊎ Holds c (candidates ss queue) → IsSource queue c (s ∷ ss)
          place (inl q) = IsSource-here c s ss t ts e q
          place (inr m) = later (ih m)

  All-candidates :
      (t : Task) (priority : ℕ) (best : Candidate) (sessions : List Session)
      → t ≡ best.head
      → best.priority ≡ priority
      → All (λ c. Precedes best c) (candidates sessions queue)
      → All (MayPrecede queue t priority) sessions
  unfolding candidates with_queue
  All-candidates t priority best [] q p h = tt
  All-candidates t priority best (s ∷ ss) q p h = elim (List-cases (queue s.session_id)) [
    | inl e ↦
        let h' =
          subst (λ l. All (λ c. Precedes best c) (with_queue s l (candidates ss queue))) e h in
        (inl e, All-candidates t priority best ss q p h')
    | inr (x, xs, e) ↦
        let h' =
          subst (λ l. All (λ c. Precedes best c) (with_queue s l (candidates ss queue))) e h in
        (inr (x, xs, e, outranked x h'.0), All-candidates t priority best ss q p h'.1)
  ]
    where
      outranked :
          (x : Task)
          → (s.priority < best.priority)
            ⊎ ((s.priority ≡ best.priority) × (best.head.created_at ≤ x.created_at))
          → (s.priority < priority) ⊎ ((s.priority ≡ priority) × (t.created_at ≤ x.created_at))
      outranked x (inl lt) = inl (omega arith)
      outranked x (inr (e, le)) = inr (e ∙ p, subst (λ k. k.created_at ≤ x.created_at) (sym q) le)

  -- Nothing in the order means nothing in any queue.
  order-nil :
      (sessions : List Session)
      → order_ready_candidates sessions queue ≡ []
      → All (λ s. queue s.session_id ≡ []) sessions
  unfolding order_ready_candidates
  order-nil sessions e = all_empty sessions (no_candidates (candidates sessions queue) e)
    where
      no_candidates : (cs : List Candidate) → drain (task_count cs) cs ≡ [] → cs ≡ []
      no_candidates [] e = refl
      no_candidates (c ∷ cs) e = absurd (
          some_round (length c.tail + task_count cs) c cs
            (subst (λ n. drain n (c ∷ cs) ≡ []) (counted c cs) e))
        where
          counted :
              (c : Candidate) (cs : List Candidate)
              → task_count (c ∷ cs) ≡ suc (length c.tail + task_count cs)
          counted c cs = unfold task_count in omega arith

          some_round :
              (n : ℕ) (c : Candidate) (cs : List Candidate) → drain (suc n) (c ∷ cs) ≡ [] → ⊥
          some_round n c cs e = unfold drain in cc

      all_empty :
          (sessions : List Session)
          → candidates sessions queue ≡ []
          → All (λ s. queue s.session_id ≡ []) sessions
      all_empty [] e = tt
      all_empty (s ∷ ss) e = elim (List-cases (queue s.session_id)) [
        | inl q ↦ (q, all_empty ss (unfold candidates with_queue in ground arith))
        | inr (t, ts, q) ↦ absurd (unfold candidates with_queue in ground arith)
      ]

-- `find_next_dispatchable` picks a task exactly when some session that may dispatch now has one. The
-- task that it picks is the head of the queue of such a session, and may precede the queue of every
-- other one: their priorities are lower, or the same with a head that arrived no earlier. If it picks
-- none, the queue of every session that may dispatch now is empty.
pub find_next_dispatchable_lem :
    (z : Zones) (stamp : ℕ → Stamp) (now : Option ℕ) (d : Dispatcher)
    → ((t : Task)
        → find_next_dispatchable z stamp now d ≡ some t
        → (s : Session) × (rest : List Task) × Member s (values d.sessions)
          × (can_dispatch_for z stamp d.deployment now s ≡ true)
          × (queued d.projection s.session_id ≡ t ∷ rest)
          × All (MayPrecede (queued d.projection) t s.priority) (eligible z stamp now d))
      × (find_next_dispatchable z stamp now d ≡ none
          → All (λ s. queued d.projection s.session_id ≡ []) (eligible z stamp now d))
unfolding find_next_dispatchable
find_next_dispatchable_lem z stamp now d = (
  λ t e. picked t (order_ready_candidates es queue) refl e,
  λ e. order-nil queue es (nothing (order_ready_candidates es queue) e),
)
  where
    es : List Session
    es = eligible z stamp now d

    queue : String → List Task
    queue = queued d.projection

    nothing : (ts : List Task) → first_of_list z stamp ts ≡ none → ts ≡ []
    nothing [] e = refl
    nothing (t ∷ ts) e = cc

    picked :
        (t : Task) (ts : List Task)
        → order_ready_candidates es queue ≡ ts
        → first_of_list z stamp ts ≡ some t
        → (s : Session) × (rest : List Task) × Member s (values d.sessions)
          × (can_dispatch_for z stamp d.deployment now s ≡ true)
          × (queued d.projection s.session_id ≡ t ∷ rest)
          × All (MayPrecede (queued d.projection) t s.priority) (eligible z stamp now d)
    picked t [] o e = cc
    picked t (x ∷ xs) o e =
        let (best, held, head, first) = order_ready_candidates-first es queue x xs o in
        let (s, member, source, prio) = Holds-candidates queue best es held in
        let same : t ≡ best.head = sym (some-injective x t e) ∙ head in
        let (among, may) =
          Member-keep (can_dispatch_for z stamp d.deployment now) s (values d.sessions)
            (unfold eligible in member) in
        (
          s,
          best.tail,
          among,
          may,
          source ∙ ap (λ k. k ∷ best.tail) (sym same),
          All-candidates queue t s.priority best es same prio first,
        )
