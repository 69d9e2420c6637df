-- ===== src/Ordering/Priority.antt =====
-- `order_ready_candidates` of core/orchestration/domain/ordering.py across sessions: its key.
use mad_edge.Prelude.{
  ℕ, zero, suc, ◌≤◌, ◌<◌, ◌≡◌, refl, subst, Bool, true, false, List, [], ◌∷◌, String, str_eq,
  Bool-cases, List-cases, All, map, inl, inr, ◌⊎◌, if◌then◌else◌, arith,
}
use mad_edge.Tasks.{Task}
use mad_edge.Sessions.{Session}
use mad_edge.Ordering.{
  Candidate, tasks, with_queue, candidates, key_ltb, best_of, move_on, advance, drain, task_count,
  order_ready_candidates,
}
use mad_edge.Ordering.Rounds.{Holds, best_of-Holds}

-- `b` may be served before `c`: it has a higher priority, or the same and a head no later.
abbrev pub Precedes : Candidate → Candidate → Type 0
Precedes b c =
    (c.priority < b.priority)
    ⊎ ((c.priority ≡ b.priority) × (b.head.created_at ≤ c.head.created_at))

Precedes-trans : (a b c : Candidate) → Precedes a b → Precedes b c → Precedes a c
Precedes-trans a b c h k = ground arith

key_ltb-Precedes : (b c : Candidate) → key_ltb c b ≡ true → Precedes c b
unfolding key_ltb
key_ltb-Precedes b c h = ground arith

not-key_ltb-Precedes : (b c : Candidate) → key_ltb c b ≡ false → Precedes b c
unfolding key_ltb
not-key_ltb-Precedes b c h = ground arith

best_of-Precedes :
    (b : Candidate) (cs : List Candidate)
    → Precedes (best_of b cs) b × All (λ c. Precedes (best_of b cs) c) cs
unfolding best_of
best_of-Precedes b [] = (inr (refl, omega arith), tt)
best_of-Precedes b (c ∷ cs) = elim (Bool-cases (key_ltb c b)) [
  | inl e ↦
      let ih = best_of-Precedes c cs in
      moved (rw e refl)
        (Precedes-trans (best_of c cs) c b ih.0 (key_ltb-Precedes b c e), ih.0, ih.1)
  | inr e ↦
      let ih = best_of-Precedes b cs in
      moved (rw e refl)
        (ih.0, Precedes-trans (best_of b cs) b c ih.0 (not-key_ltb-Precedes b c e), ih.1)
]
  where
    moved :
        {d : Candidate}
        → d ≡ (if key_ltb c b then c else b)
        → Precedes (best_of d cs) b
          × Precedes (best_of d cs) c
          × All (λ x. Precedes (best_of d cs) x) cs
        → Precedes (best_of b (c ∷ cs)) b × All (λ x. Precedes (best_of b (c ∷ cs)) x) (c ∷ cs)
    moved e h =
        subst
          (λ x.
            Precedes (best_of x cs) b
            × (Precedes (best_of x cs) c × All (λ y. Precedes (best_of x cs) y) cs))
          e (h.0, (h.1, h.2))

-- The tasks of each candidate carry its priority, as `prio` gives it by session.
abbrev IsPriced : (String → ℕ) → List Candidate → Type 0
IsPriced prio cs = All (λ c. All (λ t. prio t.session_id ≡ c.priority) (tasks c)) cs

abbrev AtMost : ℕ → List Candidate → Type 0
AtMost m cs = All (λ c. c.priority ≤ m) cs

-- No later number is above an earlier one.
abbrev pub IsDescending : List ℕ → Type 0
IsDescending [] = Unit
IsDescending (x ∷ xs) = All (λ y. y ≤ x) xs × IsDescending xs

AtMost-move_on :
    (m : ℕ) (c : Candidate) (rest : List Candidate)
    → AtMost m (c ∷ rest)
    → AtMost m (move_on c rest)
unfolding move_on
AtMost-move_on m c rest h = elim (List-cases c.tail) [
  | inl e ↦ ground (arith, h)
  | inr (t, ts, e) ↦ ground (arith, h)
]

AtMost-advance :
    (m : ℕ) (sid : String) (cs : List Candidate) → AtMost m cs → AtMost m (advance sid cs)
unfolding advance
AtMost-advance m sid [] h = tt
AtMost-advance m sid (c ∷ cs) h = elim (Bool-cases (str_eq c.session_id sid)) [
  | inl e ↦ rw e (AtMost-move_on m c cs h)
  | inr e ↦ rw e (h.0, AtMost-advance m sid cs h.1)
]

IsPriced-move_on :
    (prio : String → ℕ) (c : Candidate) (rest : List Candidate)
    → IsPriced prio (c ∷ rest)
    → IsPriced prio (move_on c rest)
unfolding move_on
IsPriced-move_on prio c rest h = elim (List-cases c.tail) [
  | inl e ↦ ground (arith, h)
  | inr (t, ts, e) ↦
      let later = subst (λ l. All (λ t. prio t.session_id ≡ c.priority) l) e h.0.1 in
      ground (arith, h, later)
]

IsPriced-advance :
    (prio : String → ℕ) (sid : String) (cs : List Candidate)
    → IsPriced prio cs
    → IsPriced prio (advance sid cs)
unfolding advance
IsPriced-advance prio sid [] h = tt
IsPriced-advance prio sid (c ∷ cs) h = elim (Bool-cases (str_eq c.session_id sid)) [
  | inl e ↦ rw e (IsPriced-move_on prio c cs h)
  | inr e ↦ rw e (h.0, IsPriced-advance prio sid cs h.1)
]

-- The best candidate is one of the list, so it has what all of them have.
best_of-All :
    (P : Candidate → Type 0) (b : Candidate) (cs : List Candidate)
    → P b
    → All P cs
    → P (best_of b cs)
unfolding best_of
best_of-All P b [] p h = p
best_of-All P b (c ∷ cs) p h =
    best_of-All P (if key_ltb c b then c else b) cs (pick (key_ltb c b)) h.1
  where
    pick : (k : Bool) → P (if k then c else b)
    pick true = h.0
    pick false = p

Precedes-AtMost :
    (b : Candidate) (cs : List Candidate) → All (λ c. Precedes b c) cs → AtMost b.priority cs
Precedes-AtMost b [] h = tt
Precedes-AtMost b (c ∷ cs) h = (at_most h.0, Precedes-AtMost b cs h.1)
  where
    at_most : Precedes b c → c.priority ≤ b.priority
    at_most (inl lt) = omega arith
    at_most (inr (e, k)) = omega arith

drain-AtMost :
    (prio : String → ℕ) (m fuel : ℕ) (cs : List Candidate)
    → IsPriced prio cs
    → AtMost m cs
    → All (λ y. y ≤ m) (map (λ t. prio t.session_id) (drain fuel cs))
unfolding drain
drain-AtMost prio m zero cs w h = tt
drain-AtMost prio m (suc fuel) [] w h = tt
drain-AtMost prio m (suc fuel) (c ∷ cs) w h =
    let best = best_of c cs in
    let priced =
      best_of-All (λ d. All (λ t. prio t.session_id ≡ d.priority) (tasks d)) c cs w.0 w.1 in
    let bound = best_of-All (λ d. d.priority ≤ m) c cs h.0 h.1 in
    (
      omega (arith, priced.0, bound),
      drain-AtMost prio m fuel (advance best.session_id (c ∷ cs))
          (IsPriced-advance prio best.session_id (c ∷ cs) w)
          (AtMost-advance m best.session_id (c ∷ cs) h),
    )

drain-IsDescending :
    (prio : String → ℕ) (fuel : ℕ) (cs : List Candidate)
    → IsPriced prio cs
    → IsDescending (map (λ t. prio t.session_id) (drain fuel cs))
unfolding drain
drain-IsDescending prio zero cs w = tt
drain-IsDescending prio (suc fuel) [] w = tt
drain-IsDescending prio (suc fuel) (c ∷ cs) w =
    let best = best_of c cs in
    let priced =
      best_of-All (λ d. All (λ t. prio t.session_id ≡ d.priority) (tasks d)) c cs w.0 w.1 in
    let w' = IsPriced-advance prio best.session_id (c ∷ cs) w in
    let first = best_of-Precedes c cs in
    let most = Precedes-AtMost best (c ∷ cs) (first.0, first.1) in
    (
      rw priced.0 (
          drain-AtMost prio best.priority fuel (advance best.session_id (c ∷ cs)) w'
            (AtMost-advance best.priority best.session_id (c ∷ cs) most)),
      drain-IsDescending prio fuel (advance best.session_id (c ∷ cs)) w',
    )

module _ (queued : String → List Task) (prio : String → ℕ) where
  -- Every task in the queue of a session has, by its own session id, the session's priority.
  abbrev QueuesPriced : List Session → Type 0
  QueuesPriced sessions =
      All (λ s. All (λ t. prio t.session_id ≡ s.priority) (queued s.session_id)) sessions

  IsPriced-candidates :
      (sessions : List Session) → QueuesPriced sessions → IsPriced prio (candidates sessions queued)
  unfolding candidates
  IsPriced-candidates [] h = tt
  IsPriced-candidates (s ∷ ss) h =
      let ih = IsPriced-candidates ss h.1 in
      elim (List-cases (queued s.session_id)) [
        | inl e ↦ rw (e, with_queue) ih
        | inr (t, ts, e) ↦
            let mine = subst (λ l. All (λ t. prio t.session_id ≡ s.priority) l) e h.0 in
            rw (e, with_queue) (mine, ih)
      ]

  -- The dispatch order never puts a task before one of a session with a higher priority: along it
  -- the priorities of the tasks' sessions do not rise.
  pub order_ready_candidates-IsDescending :
      (sessions : List Session)
      → QueuesPriced sessions
      → IsDescending (map (λ t. prio t.session_id) (order_ready_candidates sessions queued))
  unfolding order_ready_candidates
  order_ready_candidates-IsDescending sessions h =
      let cs = candidates sessions queued in
      drain-IsDescending prio (task_count cs) cs (IsPriced-candidates sessions h)

-- The first task of the dispatch order is the head of some session's queue, and that session comes
-- before each other session with a queue: its priority is higher, or the same with a head that
-- arrived no later.
pub order_ready_candidates-first :
    (sessions : List Session) (queued : String → List Task) (t : Task) (rest : List Task)
    → order_ready_candidates sessions queued ≡ t ∷ rest
    → (best : Candidate) × Holds best (candidates sessions queued)
      × (t ≡ best.head)
      × All (λ c. Precedes best c) (candidates sessions queued)
unfolding order_ready_candidates
order_ready_candidates-first sessions queued t rest e =
    go (candidates sessions queued) (task_count (candidates sessions queued)) e
  where
    go :
        (cs : List Candidate) (fuel : ℕ)
        → drain fuel cs ≡ t ∷ rest
        → (best : Candidate) × Holds best cs × (t ≡ best.head) × All (λ c. Precedes best c) cs
    go cs zero e = absurd (unfold drain in cc)
    go [] (suc fuel) e = absurd (unfold drain in cc)
    go (c ∷ cs) (suc fuel) e =
        let first = best_of-Precedes c cs in
        (best_of c cs, best_of-Holds c cs, unfold drain in cc, (first.0, first.1))
