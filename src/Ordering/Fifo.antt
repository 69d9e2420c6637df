-- ===== src/Ordering/Fifo.antt =====
-- `order_ready_candidates` of core/orchestration/domain/ordering.py within one session.
use mad_edge.Prelude.{
  ℕ, zero, suc, ◌≤◌, ◌≡◌, ◌≢◌, refl, sym, ap, subst, ◌∙◌, Bool, true, false, List, [], ◌∷◌, String,
  str_eq, str_eq-cases, List-cases, All, keep, any, inl, inr, if◌then◌else◌, arith,
}
use mad_edge.Tasks.{Task}
use mad_edge.Sessions.{Session}
use mad_edge.Ordering.{
  Candidate, tasks, with_queue, candidates, best_of, advance, drain, task_count,
  order_ready_candidates,
}
use mad_edge.Ordering.Rounds.{
  IsOwn, Holds, IsWell, remaining, best_of-Holds, remaining-Holds, remaining-advance,
  IsWell-advance, task_count-advance, own_head,
}

-- The tasks of one session, in the order in which the list has them.
abbrev pub of_session : String → List Task → List Task
of_session sid ts = keep (λ t. str_eq t.session_id sid) ts

drain_step :
    (s : String) (best : Candidate) (cs : List Candidate) (out : List Task)
    → IsWell cs
    → Holds best cs
    → of_session s out ≡ remaining s (advance best.session_id cs)
    → of_session s (best.head ∷ out) ≡ remaining s cs
drain_step s best cs out w h ih = elim (str_eq-cases best.session_id s) [
  | inl (e, q) ↦
      let own : str_eq best.head.session_id s ≡ true =
        ap (λ k. str_eq k s) (own_head best cs w h) ∙ e in
      let left : of_session s out ≡ best.tail =
        ih ∙ remaining-advance s best cs w h ∙ (rw e refl) in
      let all = subst (λ k. remaining k cs ≡ tasks best) q (remaining-Holds best cs w h) in
      rw own (ap (λ ts. best.head ∷ ts) left ∙ sym all)
  | inr (e, q) ↦
      let own : str_eq best.head.session_id s ≡ false =
        ap (λ k. str_eq k s) (own_head best cs w h) ∙ e in
      rw own (ih ∙ remaining-advance s best cs w h ∙ (rw e refl))
]

drain-of_session :
    (fuel : ℕ) (cs : List Candidate) (s : String)
    → task_count cs ≤ fuel
    → IsWell cs
    → of_session s (drain fuel cs) ≡ remaining s cs
unfolding drain
drain-of_session zero [] s h w = refl
drain-of_session zero (c ∷ cs) s h w = absurd (no_fuel c cs h)
  where
    no_fuel : (c : Candidate) (cs : List Candidate) → task_count (c ∷ cs) ≤ 0 → ⊥
    no_fuel c cs h = unfold task_count in omega arith
drain-of_session (suc fuel) [] s h w = refl
drain-of_session (suc fuel) (c ∷ cs) s h w =
    let best = best_of c cs in
    let held = best_of-Holds c cs in
    drain_step s best (c ∷ cs) (drain fuel (advance best.session_id (c ∷ cs))) w held (
      drain-of_session fuel (advance best.session_id (c ∷ cs)) s
        (omega (arith, task_count-advance best (c ∷ cs) held))
        (IsWell-advance best.session_id (c ∷ cs) w))

abbrev DistinctIds : List Session → Type 0
DistinctIds [] = Unit
DistinctIds (s ∷ ss) = All (λ x. s.session_id ≢ x.session_id) ss × DistinctIds ss

abbrev pub is_among : String → List Session → Bool
is_among sid sessions = any (λ s. str_eq s.session_id sid) sessions

module _ (queued : String → List Task) (own : (sid : String) → IsOwn sid (queued sid)) where
  apart-candidates :
      (sid : String) (sessions : List Session)
      → All (λ x. sid ≢ x.session_id) sessions
      → All (λ d. sid ≢ d.session_id) (candidates sessions queued)
  unfolding candidates
  apart-candidates sid [] a = tt
  apart-candidates sid (s ∷ ss) a =
      let ih = apart-candidates sid ss a.1 in
      elim (List-cases (queued s.session_id)) [
        | inl e ↦ rw (e, with_queue) ih
        | inr (t, ts, e) ↦ rw (e, with_queue) (a.0, ih)
      ]

  IsWell-candidates :
      (sessions : List Session) → DistinctIds sessions → IsWell (candidates sessions queued)
  unfolding candidates
  IsWell-candidates [] d = tt
  IsWell-candidates (s ∷ ss) d =
      let ih = IsWell-candidates ss d.1 in
      elim (List-cases (queued s.session_id)) [
        | inl e ↦ rw (e, with_queue) ih
        | inr (t, ts, e) ↦
            let mine = subst (λ l. IsOwn s.session_id l) e (own s.session_id) in
            rw (e, with_queue) (apart-candidates s.session_id ss d.0, mine, ih)
      ]

  remaining-candidates :
      (sid : String) (sessions : List Session)
      → remaining sid (candidates sessions queued)
        ≡ (if is_among sid sessions then queued sid else [])
  unfolding candidates
  remaining-candidates sid [] = refl
  remaining-candidates sid (s ∷ ss) =
      let ih = remaining-candidates sid ss in
      elim (List-cases (queued s.session_id)) [
        | inl e ↦ elim (str_eq-cases s.session_id sid) [
          | inl (same, q) ↦
              let nothing : queued sid ≡ [] = subst (λ k. queued k ≡ []) q e in
              rw (e, with_queue, same) (ih ∙ both_empty (is_among sid ss) nothing)
          | inr (other, q) ↦ rw (e, with_queue, other) ih
        ]
        | inr (t, ts, e) ↦ elim (str_eq-cases s.session_id sid) [
          | inl (same, q) ↦ rw (e, with_queue, same) (sym (subst (λ k. queued k ≡ t ∷ ts) q e))
          | inr (other, q) ↦ rw (e, with_queue, other) ih
        ]
      ]
    where
      both_empty : (b : Bool) → queued sid ≡ [] → (if b then queued sid else []) ≡ queued sid
      both_empty true e = refl
      both_empty false e = sym e

  -- If the eligible sessions have distinct ids and every queue holds tasks of its own session, then
  -- the dispatch order holds, of each eligible session, exactly its queue, in its own order, and of
  -- any other session nothing: no task is lost, repeated or overtaken within its session.
  pub order_ready_candidates-of_session :
      (sessions : List Session) (sid : String)
      → DistinctIds sessions
      → of_session sid (order_ready_candidates sessions queued)
        ≡ (if is_among sid sessions then queued sid else [])
  unfolding order_ready_candidates
  order_ready_candidates-of_session sessions sid d =
      let cs = candidates sessions queued in
      drain-of_session (task_count cs) cs sid (omega arith) (IsWell-candidates sessions d)
      ∙ remaining-candidates sid sessions
