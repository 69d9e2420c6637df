-- ===== src/Ordering/Least.antt =====
-- `min(remaining, key=…)` in core/orchestration/domain/ordering.py: the order of the sessions in the
-- list plays no part in what comes first.
use mad_edge.Prelude.{
  ℕ, zero, suc, ◌≡◌, refl, sym, subst, ap, ◌∙◌, Bool, true, false, Option, none, some, List, [],
  ◌∷◌, String, Bool-cases, All, Member, inl, inr, ◌⊎◌, if◌then◌else◌, arith,
}
use mad_edge.Prelude.TextOrder.{str_ltb_asym, str_ltb-IsWeakOrder, str_ltb_total}
use mad_edge.Tasks.{Task}
use mad_edge.Sessions.{Session}
use mad_edge.Ordering.{
  Candidate, with_queue, candidates, key_ltb, best_of, drain, task_count, order_ready_candidates,
}
use mad_edge.Ordering.Rounds.{Holds, best_of-Holds}

key_ltb_asym : (b c : Candidate) → key_ltb b c ≡ true → key_ltb c b ≡ false
unfolding key_ltb
key_ltb_asym b c h = ground (arith, str_ltb_asym b.session_id c.session_id)

key_not_less_trans :
    (b c d : Candidate) → key_ltb c b ≡ false → key_ltb d c ≡ false → key_ltb d b ≡ false
unfolding key_ltb
key_not_less_trans b c d h k =
    ground (arith, str_ltb-IsWeakOrder.not_less_trans b.session_id c.session_id d.session_id)

-- Of two candidates with no order between them, the session is the same.
key_ltb_total :
    (b c : Candidate) → key_ltb b c ≡ false → key_ltb c b ≡ false → b.session_id ≡ c.session_id
unfolding key_ltb
key_ltb_total b c h k = str_ltb_total b.session_id c.session_id (ground arith) (ground arith)

abbrev IsLeast : Candidate → List Candidate → Type 0
IsLeast b cs = All (λ c. key_ltb c b ≡ false) cs

best_of-IsLeast :
    (b : Candidate) (cs : List Candidate)
    → (key_ltb b (best_of b cs) ≡ false) × IsLeast (best_of b cs) cs
unfolding best_of
best_of-IsLeast b [] = (irreflexive b, tt)
  where
    irreflexive : (b : Candidate) → key_ltb b b ≡ false
    irreflexive b = elim (Bool-cases (key_ltb b b)) [ inl e ↦ key_ltb_asym b b e | inr e ↦ e ]
best_of-IsLeast b (c ∷ cs) = go (key_ltb c b) refl (best_of-IsLeast c cs) (best_of-IsLeast b cs)
  where
    go :
        (t : Bool)
        → key_ltb c b ≡ t
        → (key_ltb c (best_of c cs) ≡ false) × IsLeast (best_of c cs) cs
        → (key_ltb b (best_of b cs) ≡ false) × IsLeast (best_of b cs) cs
        → (key_ltb b (best_of (if t then c else b) cs) ≡ false)
          × IsLeast (best_of (if t then c else b) cs) (c ∷ cs)
    go true e h k = (key_not_less_trans (best_of c cs) c b h.0 (key_ltb_asym c b e), (h.0, h.1))
    go false e h k = (k.0, (key_not_less_trans (best_of b cs) b c k.0 e, k.1))

least : (b : Candidate) (cs : List Candidate) → IsLeast (best_of b cs) (b ∷ cs)
least b cs = let h = best_of-IsLeast b cs in (h.0, h.1)

IsLeast-Holds :
    (b c : Candidate) (cs : List Candidate) → IsLeast b cs → Holds c cs → key_ltb c b ≡ false
IsLeast-Holds b c [] l h = absurd h
IsLeast-Holds b c (d ∷ ds) l (inl e) = subst (λ x. key_ltb x b ≡ false) (sym e) l.0
IsLeast-Holds b c (d ∷ ds) l (inr h) = IsLeast-Holds b c ds l.1 h

abbrev pub candidate_of : Session → Task → List Task → Candidate
candidate_of s t ts = record {
  session_id = s.session_id;
  priority = s.priority;
  head = t;
  tail = ts;
}

-- `c` stands for the queue of a session of the list.
abbrev Stands : (String → List Task) → Candidate → List Session → Type 0
Stands queue c sessions =
    (s : Session) × (t : Task) × (ts : List Task) × Member s sessions
    × (queue s.session_id ≡ t ∷ ts)
    × (c ≡ candidate_of s t ts)

abbrev pub first_of : List Task → Option Task
first_of [] = none
first_of (t ∷ ts) = some t

module _ (queue : String → List Task) where
  Holds-Stands :
      (c : Candidate) (sessions : List Session)
      → Holds c (candidates sessions queue)
      → Stands queue c sessions
  unfolding candidates
  Holds-Stands c [] h = absurd h
  Holds-Stands c (s ∷ ss) h = go (queue s.session_id) refl h (Holds-Stands c ss)
    where
      later : Stands queue c ss → Stands queue c (s ∷ ss)
      later (x, t, ts, m, q, e) = (x, t, ts, inr m, q, e)

      go :
          (l : List Task)
          → queue s.session_id ≡ l
          → Holds c (with_queue s l (candidates ss queue))
          → (Holds c (candidates ss queue) → Stands queue c ss)
          → Stands queue c (s ∷ ss)
      go [] e h ih = later (ih (unfold with_queue in h))
      go (t ∷ ts) e h ih = place (unfold with_queue in h)
        where
          place :
              (c ≡ candidate_of s t ts) ⊎ Holds c (candidates ss queue) → Stands queue c (s ∷ ss)
          place (inl q) = (s, t, ts, inl refl, e, q)
          place (inr m) = later (ih m)

  Stands-Holds :
      (c : Candidate) (sessions : List Session)
      → Stands queue c sessions
      → Holds c (candidates sessions queue)
  unfolding candidates
  Stands-Holds c [] (s, t, ts, m, q, e) = absurd m
  Stands-Holds c (x ∷ xs) (s, t, ts, inl same, q, e) =
      let q' : queue x.session_id ≡ t ∷ ts =
        subst (λ (y : Session). queue y.session_id ≡ t ∷ ts) same q in
      subst (λ l. Holds c (with_queue x l (candidates xs queue))) (sym q')
        (unfold with_queue in inl (subst (λ (y : Session). c ≡ candidate_of y t ts) same e))
  Stands-Holds c (x ∷ xs) (s, t, ts, inr m, q, e) =
      let ih = Stands-Holds c xs (s, t, ts, m, q, e) in go (queue x.session_id) ih
    where
      go :
          (l : List Task)
          → Holds c (candidates xs queue)
          → Holds c (with_queue x l (candidates xs queue))
      go [] h = unfold with_queue in h
      go (t ∷ ts) h = unfold with_queue in inr h

  -- Sessions of one id are one session.
  abbrev pub IsById : List Session → Type 0
  IsById sessions =
      (s x : Session) → Member s sessions → Member x sessions → s.session_id ≡ x.session_id → s ≡ x

  -- Both lists hold the same sessions with a queue.
  abbrev pub Covers : List Session → List Session → Type 0
  Covers es fs =
      (s : Session) (t : Task) (ts : List Task)
      → Member s es
      → queue s.session_id ≡ t ∷ ts
      → Member s fs

  first : List Candidate → Option Task
  first [] = none
  first (c ∷ cs) = some (best_of c cs).head

  same_best :
      (es : List Session) (b c : Candidate)
      → IsById es
      → Stands queue b es
      → Stands queue c es
      → b.session_id ≡ c.session_id
      → b ≡ c
  same_best es b c u (s, t, ts, m, q, e) (x, y, ys, n, r, f) same =
      let one : s ≡ x = u s x m n (
        ap (λ (k : Candidate). k.session_id) (sym e)
        ∙ same
        ∙ ap (λ (k : Candidate). k.session_id) f) in
      let same_queue : t ∷ ts ≡ y ∷ ys =
        sym q ∙ subst (λ (k : Session). queue k.session_id ≡ y ∷ ys) (sym one) r in
      e ∙ one_candidate s x t y ts ys one same_queue ∙ sym f
    where
      one_candidate :
          (s x : Session) (t y : Task) (ts ys : List Task)
          → s ≡ x
          → t ∷ ts ≡ y ∷ ys
          → candidate_of s t ts ≡ candidate_of x y ys
      one_candidate s x t y ts ys p q = cc

  moved :
      (es fs : List Session) (c : Candidate)
      → Covers es fs
      → Holds c (candidates es queue)
      → Holds c (candidates fs queue)
  moved es fs c k h =
      let (s, t, ts, m, q, e) = Holds-Stands c es h in
      Stands-Holds c fs (s, t, ts, k s t ts m q, q, e)

  first-Covers :
      (es fs : List Session)
      → IsById fs
      → Covers es fs
      → Covers fs es
      → first (candidates es queue) ≡ first (candidates fs queue)
  unfolding first
  first-Covers es fs u k l =
      go (candidates es queue) (candidates fs queue) (λ c. moved es fs c k) (λ c. moved fs es c l)
        (λ c. Holds-Stands c fs)
    where
      go :
          (cs ds : List Candidate)
          → ((c : Candidate) → Holds c cs → Holds c ds)
          → ((c : Candidate) → Holds c ds → Holds c cs)
          → ((c : Candidate) → Holds c ds → Stands queue c fs)
          → first cs ≡ first ds
      go [] [] to from stands = refl
      go [] (d ∷ ds) to from stands = absurd (from d (inl refl))
      go (c ∷ cs) [] to from stands = absurd (to c (inl refl))
      go (c ∷ cs) (d ∷ ds) to from stands =
          let b = best_of c cs in
          let b' = best_of d ds in
          let here : Holds b (d ∷ ds) = to b (best_of-Holds c cs) in
          let there : Holds b' (d ∷ ds) = best_of-Holds d ds in
          let one : b ≡ b' = same_best fs b b' u (stands b here) (stands b' there) (
            key_ltb_total b b' (IsLeast-Holds b' b (d ∷ ds) (least d ds) here)
              (IsLeast-Holds b b' (c ∷ cs) (least c cs) (from b' there))) in
          ap (λ (k : Candidate). some k.head) one

  first-order_ready_candidates :
      (es : List Session) → first_of (order_ready_candidates es queue) ≡ first (candidates es queue)
  unfolding order_ready_candidates first
  first-order_ready_candidates es = go (candidates es queue)
    where
      one_round :
          (fuel : ℕ) (c : Candidate) (cs : List Candidate)
          → fuel ≡ task_count (c ∷ cs)
          → first_of (drain fuel (c ∷ cs)) ≡ some (best_of c cs).head
      one_round zero c cs e = absurd (unfold task_count in omega arith)
      one_round (suc fuel) c cs e = unfold drain in refl

      go : (cs : List Candidate) → first_of (drain (task_count cs) cs) ≡ first cs
      go [] = unfold drain task_count in refl
      go (c ∷ cs) = one_round (task_count (c ∷ cs)) c cs refl

  -- Two lists that hold the same sessions with a queue begin with the same task.
  pub order_ready_candidates-Covers :
      (es fs : List Session)
      → IsById fs
      → Covers es fs
      → Covers fs es
      → first_of (order_ready_candidates es queue) ≡ first_of (order_ready_candidates fs queue)
  order_ready_candidates-Covers es fs u k l =
      first-order_ready_candidates es
      ∙ first-Covers es fs u k l
      ∙ sym (first-order_ready_candidates fs)
