-- ===== src/Ordering/Tasks.antt =====
-- The tasks of `order_ready_candidates` in core/orchestration/domain/ordering.py.
use mad_edge.Prelude.{
  ℕ, zero, suc, Bool, true, false, List, [], ◌∷◌, String, str_eq, All, inl, inr, subst, sym,
  List-cases, if◌then◌else◌,
}
use mad_edge.Tasks.{Task}
use mad_edge.Sessions.{Session}
use mad_edge.Ordering.{
  Candidate, tasks, with_queue, candidates, best_of, move_on, advance, drain, task_count,
  order_ready_candidates,
}
use mad_edge.Ordering.Rounds.{Holds, best_of-Holds}

module _ (P : Task → Type 0) where
  -- `P` holds of every task that is left.
  abbrev AllLeft : List Candidate → Type 0
  AllLeft cs = All (λ c. All P (tasks c)) cs

  AllLeft-move_on :
      (c : Candidate) (rest : List Candidate)
      → All P (tasks c)
      → AllLeft rest
      → AllLeft (move_on c rest)
  unfolding move_on
  AllLeft-move_on c rest h k = elim (List-cases c.tail) [
    | inl e ↦
        subst
          (λ l. AllLeft (elim l [ [] ↦ rest | t ∷ ts ↦ record c { head = t; tail = ts } ∷ rest ]))
          (sym e) k
    | inr (t, ts, e) ↦
        subst
          (λ l. AllLeft (elim l [ [] ↦ rest | t ∷ ts ↦ record c { head = t; tail = ts } ∷ rest ]))
          (sym e) (subst (λ l. All P l) e h.1, k)
  ]

  AllLeft-advance : (sid : String) (cs : List Candidate) → AllLeft cs → AllLeft (advance sid cs)
  unfolding advance
  AllLeft-advance sid [] h = tt
  AllLeft-advance sid (c ∷ cs) h =
      go (str_eq c.session_id sid) (AllLeft-move_on c cs h.0 h.1) (AllLeft-advance sid cs h.1)
    where
      go :
          (b : Bool)
          → AllLeft (move_on c cs)
          → AllLeft (advance sid cs)
          → AllLeft (if b then move_on c cs else c ∷ advance sid cs)
      go true m a = m
      go false m a = (h.0, a)

  AllLeft-Holds : (c : Candidate) (cs : List Candidate) → Holds c cs → AllLeft cs → All P (tasks c)
  AllLeft-Holds c [] m h = absurd m
  AllLeft-Holds c (d ∷ ds) (inl e) h = subst (λ (x : Candidate). All P (tasks x)) (sym e) h.0
  AllLeft-Holds c (d ∷ ds) (inr m) h = AllLeft-Holds c ds m h.1

  All-drain : (fuel : ℕ) (cs : List Candidate) → AllLeft cs → All P (drain fuel cs)
  unfolding drain
  All-drain zero cs h = tt
  All-drain (suc fuel) [] h = tt
  All-drain (suc fuel) (c ∷ cs) h = (
    (AllLeft-Holds (best_of c cs) (c ∷ cs) (best_of-Holds c cs) h).0,
    All-drain fuel (advance (best_of c cs).session_id (c ∷ cs))
        (AllLeft-advance (best_of c cs).session_id (c ∷ cs) h),
  )

  AllLeft-candidates :
      (queue : String → List Task) (sessions : List Session)
      → All (λ s. All P (queue s.session_id)) sessions
      → AllLeft (candidates sessions queue)
  unfolding candidates with_queue
  AllLeft-candidates queue [] h = tt
  AllLeft-candidates queue (s ∷ ss) h =
      go (queue s.session_id) h.0 (AllLeft-candidates queue ss h.1)
    where
      go :
          (l : List Task)
          → All P l
          → AllLeft (candidates ss queue)
          → AllLeft (with_queue s l (candidates ss queue))
      go [] k ih = ih
      go (t ∷ ts) k ih = (k, ih)

  -- What holds of every task in the sessions' queues holds of every task of the order.
  pub All-order_ready_candidates :
      (queue : String → List Task) (sessions : List Session)
      → All (λ s. All P (queue s.session_id)) sessions
      → All P (order_ready_candidates sessions queue)
  unfolding order_ready_candidates
  All-order_ready_candidates queue sessions h =
      All-drain (task_count (candidates sessions queue)) (candidates sessions queue)
        (AllLeft-candidates queue sessions h)
