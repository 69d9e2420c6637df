-- ===== src/Projection/Ids.antt =====
-- The ids of the tasks that adapters/outbound/orchestration/projection.py holds for a session.
use mad_edge.Prelude.{
  ℕ, ◌≡◌, ◌≢◌, sym, ◌∙◌, Bool, Option, none, some, List, [], ◌∷◌, ◌++◌, ◌==◌, Bool-cases,
  Option-cases, All, keep, not, inl, inr, map, arith,
}
use mad_edge.Tasks.{Task}
use mad_edge.Events.{Body, task_queued}
use mad_edge.Projection.{pop_task}
use mad_edge.Projection.View.{SessionQueue}

abbrev pub ids : List Task → List ℕ
ids ts = map (λ t. t.task_id) ts

abbrev pub running_ids : Option Task → List ℕ
running_ids none = []
running_ids (some t) = t.task_id ∷ []

-- The ids that a session holds: the one in flight, and those that wait.
abbrev pub held : SessionQueue → List ℕ
held q = running_ids q.running ++ ids q.waiting

abbrev pub Distinct : List ℕ → Type 0
Distinct [] = Unit
Distinct (x ∷ xs) = All (λ y. x ≢ y) xs × Distinct xs

-- No queued or in-flight task of the session has the id that the event queues.
abbrev pub IsFresh : Body → SessionQueue → Type 0
IsFresh (task_queued d) q = All (λ y. y ≢ d.task_id) (held q)
IsFresh _ q = Unit

pub All-pop_task :
    (P : ℕ → Type 0) (id : ℕ) (ts : List Task) (t : Task) (rest : List Task)
    → pop_task id ts ≡ some (t, rest)
    → All P (ids ts)
    → P t.task_id × All P (ids rest)
unfolding pop_task
All-pop_task P id [] t rest e h = cc
All-pop_task P id (u ∷ us) t rest e h = elim (Bool-cases (u.task_id == id)) [
  | inl this ↦ ground arith
  | inr other ↦ elim (Option-cases (pop_task id us)) [
    | inl no_task ↦ ground arith
    | inr ((v, vs), found) ↦ let ih = All-pop_task P id us v vs found h.1 in ground arith
  ]
]

pop_task-id :
    (id : ℕ) (ts : List Task) (t : Task) (rest : List Task)
    → pop_task id ts ≡ some (t, rest)
    → t.task_id ≡ id
unfolding pop_task
pop_task-id id [] t rest e = cc
pop_task-id id (u ∷ us) t rest e = elim (Bool-cases (u.task_id == id)) [
  | inl this ↦ ground arith
  | inr other ↦ elim (Option-cases (pop_task id us)) [
    | inl no_task ↦ ground arith
    | inr ((v, vs), found) ↦ let ih = pop_task-id id us v vs found in ground arith
  ]
]

pub Distinct-pop_task :
    (id : ℕ) (ts : List Task) (t : Task) (rest : List Task)
    → pop_task id ts ≡ some (t, rest)
    → Distinct (ids ts)
    → Distinct (t.task_id ∷ ids rest)
unfolding pop_task
Distinct-pop_task id [] t rest e h = cc
Distinct-pop_task id (u ∷ us) t rest e h = elim (Bool-cases (u.task_id == id)) [
  | inl this ↦ ground arith
  | inr other ↦ elim (Option-cases (pop_task id us)) [
    | inl no_task ↦ ground arith
    | inr ((v, vs), found) ↦
        let ih = Distinct-pop_task id us v vs found h.1 in
        let apart = All-pop_task (λ y. u.task_id ≢ y) id us v vs found h.0 in
        let same = pop_task-id id us v vs found in
        let t_v : t ≡ v = ground arith in
        let r_vs : rest ≡ u ∷ vs = ground arith in
        rw (t_v, r_vs) ((λ q. apart.0 (sym q), ih.0), (apart.1, ih.1))
  ]
]

pub All-keep :
    (P : ℕ → Type 0) (p : Task → Bool) (ts : List Task) → All P (ids ts) → All P (ids (keep p ts))
All-keep P p [] h = tt
All-keep P p (t ∷ ts) h =
    let ih = All-keep P p ts h.1 in
    elim (Bool-cases (p t)) [ inl e ↦ rw e (h.0, ih) | inr e ↦ rw e ih ]

pub Distinct-keep :
    (p : Task → Bool) (ts : List Task) → Distinct (ids ts) → Distinct (ids (keep p ts))
Distinct-keep p [] h = tt
Distinct-keep p (t ∷ ts) h =
    let ih = Distinct-keep p ts h.1 in
    elim (Bool-cases (p t)) [
      | inl e ↦ rw e (All-keep (λ y. t.task_id ≢ y) p ts h.0, ih)
      | inr e ↦ rw e ih
    ]

pub keep-others :
    (id : ℕ) (ts : List Task) → All (λ y. y ≢ id) (ids (keep (λ t. not (t.task_id == id)) ts))
keep-others id [] = tt
keep-others id (t ∷ ts) = ground (arith, keep-others id ts)

pub All-map_ne : (x id : ℕ) (ys : List ℕ) → x ≡ id → All (λ y. x ≢ y) ys → All (λ y. y ≢ id) ys
All-map_ne x id [] e h = tt
All-map_ne x id (y ∷ ys) e h = (λ q. h.0 (e ∙ sym q), All-map_ne x id ys e h.1)

pub All-snoc :
    (P : ℕ → Type 0) (ts : List Task) (t : Task)
    → All P (ids ts)
    → P t.task_id
    → All P (ids (ts ++ t ∷ []))
All-snoc P [] t h p = (p, tt)
All-snoc P (x ∷ xs) t h p = (h.0, All-snoc P xs t h.1 p)

pub Distinct-snoc :
    (ts : List Task) (t : Task)
    → Distinct (ids ts)
    → All (λ y. y ≢ t.task_id) (ids ts)
    → Distinct (ids (ts ++ t ∷ []))
Distinct-snoc [] t h f = (tt, tt)
Distinct-snoc (u ∷ us) t h f =
    (All-snoc (λ y. u.task_id ≢ y) us t h.0 f.0, Distinct-snoc us t h.1 f.1)

-- What `held` is Distinct says of its two parts.
abbrev pub Apart : Option Task → List Task → Type 0
Apart none ts = Unit
Apart (some t) ts = All (λ y. t.task_id ≢ y) (ids ts)

pub Distinct-parts :
    (o : Option Task) (ts : List Task)
    → Distinct (running_ids o ++ ids ts)
    → Apart o ts × Distinct (ids ts)
Distinct-parts none ts h = (tt, h)
Distinct-parts (some t) ts h = h
