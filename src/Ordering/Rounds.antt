-- ===== src/Ordering/Rounds.antt =====
-- One round of the loop of `order_ready_candidates`, in core/orchestration/domain/ordering.py.
use mad_edge.Prelude.{
  suc, ◌+◌, ◌≡◌, ◌≢◌, refl, sym, ap, subst, ◌∙◌, true, false, List, [], ◌∷◌, String, length, str_eq,
  str_eq_refl, str_eq-cases, Bool-cases, List-cases, All, inl, inr, ◌⊎◌, if◌then◌else◌, arith,
}
use mad_edge.Tasks.{Task}
use mad_edge.Ordering.{Candidate, tasks, key_ltb, best_of, move_on, advance, task_count}

abbrev pub IsOwn : String → List Task → Type 0
IsOwn sid ts = All (λ t. t.session_id ≡ sid) ts

abbrev pub Holds : Candidate → List Candidate → Type 0
Holds c [] = ⊥
Holds c (d ∷ ds) = (c ≡ d) ⊎ Holds c ds

-- Session ids are distinct, and each candidate's tasks are its session's.
abbrev pub IsWell : List Candidate → Type 0
IsWell [] = Unit
IsWell (c ∷ cs) =
    All (λ d. c.session_id ≢ d.session_id) cs × IsOwn c.session_id (tasks c) × IsWell cs

-- What a session still has to give.
abbrev pub remaining : String → List Candidate → List Task
remaining s [] = []
remaining s (c ∷ cs) = if str_eq c.session_id s then tasks c else remaining s cs

pub best_of-Holds : (b : Candidate) (cs : List Candidate) → Holds (best_of b cs) (b ∷ cs)
unfolding best_of
best_of-Holds b [] = inl refl
best_of-Holds b (c ∷ cs) = elim (Bool-cases (key_ltb c b)) [
  | inl e ↦ moved (if_true e) (inr (best_of-Holds c cs))
  | inr e ↦ moved (if_false e) (elim (best_of-Holds b cs) [ inl h ↦ inl h | inr h ↦ inr (inr h) ])
]
  where
    if_true : key_ltb c b ≡ true → c ≡ (if key_ltb c b then c else b)
    if_true e = rw e refl

    if_false : key_ltb c b ≡ false → b ≡ (if key_ltb c b then c else b)
    if_false e = rw e refl

    moved :
        {d : Candidate}
        → d ≡ (if key_ltb c b then c else b)
        → Holds (best_of d cs) (b ∷ c ∷ cs)
        → Holds (best_of b (c ∷ cs)) (b ∷ c ∷ cs)
    moved e h = subst (λ x. Holds (best_of x cs) (b ∷ c ∷ cs)) e h

absent : (s : String) (cs : List Candidate) → All (λ d. s ≢ d.session_id) cs → remaining s cs ≡ []
absent s [] h = refl
absent s (c ∷ cs) h = elim (str_eq-cases c.session_id s) [
  | inl (e, q) ↦ absurd (h.0 (sym q))
  | inr (e, q) ↦ rw e (absent s cs h.1)
]

apart-Holds :
    (s : String) (c : Candidate) (cs : List Candidate)
    → All (λ d. s ≢ d.session_id) cs
    → Holds c cs
    → s ≢ c.session_id
apart-Holds s c [] a h = absurd h
apart-Holds s c (d ∷ ds) a (inl e) = λ q. a.0 (q ∙ ap (λ (x : Candidate). x.session_id) e)
apart-Holds s c (d ∷ ds) a (inr h) = apart-Holds s c ds a.1 h

pub remaining-Holds :
    (c : Candidate) (cs : List Candidate)
    → IsWell cs
    → Holds c cs
    → remaining c.session_id cs ≡ tasks c
remaining-Holds c [] w h = absurd h
remaining-Holds c (d ∷ ds) w (inl e) =
    subst (λ x. remaining x.session_id (d ∷ ds) ≡ tasks x) (sym e)
      (rw (str_eq_refl d.session_id) refl)
remaining-Holds c (d ∷ ds) w (inr h) = elim (str_eq-cases d.session_id c.session_id) [
  | inl (e, q) ↦ absurd (apart-Holds d.session_id c ds w.0 h q)
  | inr (e, q) ↦ rw e (remaining-Holds c ds w.2 h)
]

remaining-move_on :
    (s : String) (c : Candidate) (rest : List Candidate)
    → All (λ d. c.session_id ≢ d.session_id) rest
    → remaining s (move_on c rest) ≡ (if str_eq c.session_id s then c.tail else remaining s rest)
unfolding move_on
remaining-move_on s c rest a = elim (List-cases c.tail) [
  | inl e ↦ elim (str_eq-cases c.session_id s) [
    | inl (same, q) ↦
        let none_left = absent s rest (subst (λ k. All (λ d. k ≢ d.session_id) rest) q a) in
        ground (arith, none_left)
    | inr (other, q) ↦ ground arith
  ]
  | inr (t, ts, e) ↦ ground arith
]

pub remaining-advance :
    (s : String) (c : Candidate) (cs : List Candidate)
    → IsWell cs
    → Holds c cs
    → remaining s (advance c.session_id cs)
      ≡ (if str_eq c.session_id s then c.tail else remaining s cs)
unfolding advance
remaining-advance s c [] w h = absurd h
remaining-advance s c (d ∷ ds) w (inl e) =
    subst
      (λ x.
        remaining s (advance x.session_id (d ∷ ds))
        ≡ (if str_eq x.session_id s then x.tail else remaining s (d ∷ ds)))
      (sym e)
      (rw (str_eq_refl d.session_id) (
        remaining-move_on s d ds w.0 ∙ elim (str_eq-cases d.session_id s) [
          | inl (same, q) ↦ rw same refl
          | inr (other, q) ↦ rw other refl
        ]))
remaining-advance s c (d ∷ ds) w (inr h) = elim (str_eq-cases d.session_id c.session_id) [
  | inl (e, q) ↦ absurd (apart-Holds d.session_id c ds w.0 h q)
  | inr (e, q) ↦ rw e (elim (str_eq-cases d.session_id s) [
    | inl (same, p) ↦ elim (str_eq-cases c.session_id s) [
      | inl (f, r) ↦ absurd (q (p ∙ sym r))
      | inr (f, r) ↦ rw (same, f) refl
    ]
    | inr (other, p) ↦ rw other (remaining-advance s c ds w.2 h)
  ])
]

apart-move_on :
    (s : String) (c : Candidate) (rest : List Candidate)
    → s ≢ c.session_id
    → All (λ d. s ≢ d.session_id) rest
    → All (λ d. s ≢ d.session_id) (move_on c rest)
unfolding move_on
apart-move_on s c rest n a = elim (List-cases c.tail) [
  | inl e ↦ ground (arith, a)
  | inr (t, ts, e) ↦ ground (arith, a, n)
]

apart-advance :
    (s sid : String) (cs : List Candidate)
    → All (λ d. s ≢ d.session_id) cs
    → All (λ d. s ≢ d.session_id) (advance sid cs)
unfolding advance
apart-advance s sid [] a = tt
apart-advance s sid (d ∷ ds) a = elim (Bool-cases (str_eq d.session_id sid)) [
  | inl e ↦ rw e (apart-move_on s d ds a.0 a.1)
  | inr e ↦ rw e (a.0, apart-advance s sid ds a.1)
]

IsWell-move_on :
    (c : Candidate) (rest : List Candidate) → IsWell (c ∷ rest) → IsWell (move_on c rest)
unfolding move_on
IsWell-move_on c rest w = elim (List-cases c.tail) [
  | inl e ↦ ground (arith, w)
  | inr (t, ts, e) ↦ let own = subst (λ l. IsOwn c.session_id l) e w.1.1 in ground (arith, w, own)
]

pub IsWell-advance : (sid : String) (cs : List Candidate) → IsWell cs → IsWell (advance sid cs)
unfolding advance
IsWell-advance sid [] w = tt
IsWell-advance sid (d ∷ ds) w = elim (Bool-cases (str_eq d.session_id sid)) [
  | inl e ↦ rw e (IsWell-move_on d ds w)
  | inr e ↦ rw e (apart-advance d.session_id sid ds w.0, w.1, IsWell-advance sid ds w.2)
]

task_count-move_on :
    (c : Candidate) (rest : List Candidate)
    → suc (task_count (move_on c rest)) ≡ length (tasks c) + task_count rest
unfolding move_on task_count
task_count-move_on c rest = elim (List-cases c.tail) [
  | inl e ↦ ground arith
  | inr (t, ts, e) ↦ ground arith
]

pub task_count-advance :
    (c : Candidate) (cs : List Candidate)
    → Holds c cs
    → suc (task_count (advance c.session_id cs)) ≡ task_count cs
unfolding task_count advance
task_count-advance c [] h = absurd h
task_count-advance c (d ∷ ds) h = elim (str_eq-cases d.session_id c.session_id) [
  | inl (e, q) ↦ rw e (task_count-move_on d ds)
  | inr (e, q) ↦ rw e (omega (arith, task_count-advance c ds (later h q)))
]
  where
    later : Holds c (d ∷ ds) → d.session_id ≢ c.session_id → Holds c ds
    later (inl e) q = absurd (q (ap (λ (x : Candidate). x.session_id) (sym e)))
    later (inr h) q = h

pub own_head :
    (c : Candidate) (cs : List Candidate)
    → IsWell cs
    → Holds c cs
    → c.head.session_id ≡ c.session_id
own_head c [] w h = absurd h
own_head c (d ∷ ds) w (inl e) = subst (λ x. x.head.session_id ≡ x.session_id) (sym e) w.1.0
own_head c (d ∷ ds) w (inr h) = own_head c ds w.2 h
