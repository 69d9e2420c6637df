-- ===== src/Workflow/Validate/Acyclic.antt =====
-- `_reject_cycles` of core/orchestration/domain/workflow.py, and chains of dependencies.
use mad_edge.Prelude.{
  suc, ◌≡◌, ◌≢◌, refl, sym, subst, ◌∙◌, true, false, some, List, [], ◌∷◌, String, elem, length,
  str_eq, str_eq_refl, str_eq-cases, All, Member, inl, inr, ◌⊎◌, arith,
}
use mathlib.Core.Option.{some-injective}
use mad_edge.Prelude.Dict.{lookup, insert, lookup-insert, keys}
use mad_edge.Workflow.{WorkflowStep}
use mad_edge.Workflow.Validate.{
  Checked, ok, ◌>>◌, reject_if, Color, white, grey, black, Graph, visit_all, all_white, collect_ids,
  add_edges, reject_cycles, empty_id, duplicate_id,
}
use mad_edge.Workflow.Validate.Visit.{IsOrdered, bind-ok, passed, elem-later}
use mad_edge.Workflow.Validate.Search.{visit_all-IsOrdered, lookup-all_white, elem-keys}

-- An edge of the graph, and a chain of edges.
abbrev Edge : Graph → String → String → Type 0
Edge graph a b = (deps : List String) × (lookup a graph ≡ some deps) × (elem b deps ≡ true)

pub data Chain (E : String → String → Type 0) : String → String → Type 0 where
  one : {a b : String} → E a b → Chain E a b
  cons : {a b c : String} → E a b → Chain E b c → Chain E a c

All-elem :
    (xs : List String) (b : String) (deps : List String)
    → All (λ d. elem d xs ≡ true) deps
    → elem b deps ≡ true
    → elem b xs ≡ true
All-elem xs b [] h e = cc
All-elem xs b (d ∷ deps) h e = elim (str_eq-cases d b) [
  | inl (q, same) ↦ subst (λ s. elem s xs ≡ true) same h.0
  | inr (q, other) ↦ All-elem xs b deps h.1 (ground arith)
]

module _ (graph : Graph) where
  -- What the first node of an order leads to stands behind it.
  behind :
      (x : String) (ns : List String) (b : String)
      → IsOrdered graph (x ∷ ns)
      → Edge graph x b
      → elem b ns ≡ true
  behind x ns b ((deps, q, all), o) (deps', q', h) =
      All-elem ns b deps all
        (subst (λ ds. elem b ds ≡ true) (some-injective deps' deps (sym q' ∙ q)) h)

  Edge-closed :
      (order : List String) (a b : String)
      → IsOrdered graph order
      → elem a order ≡ true
      → Edge graph a b
      → elem b order ≡ true
  Edge-closed [] a b o h e = cc
  Edge-closed (x ∷ ns) a b o h e = elim (str_eq-cases x a) [
    | inl (q, same) ↦ elem-later b x ns (behind x ns b o (subst (λ s. Edge graph s b) (sym same) e))
    | inr (q, other) ↦ elem-later b x ns (Edge-closed ns a b o.1 (ground arith) e)
  ]

  Chain-closed :
      (order : List String) (a b : String)
      → IsOrdered graph order
      → elem a order ≡ true
      → Chain (Edge graph) a b
      → elem b order ≡ true
  Chain-closed order a b o h (one e) = Edge-closed order a b o h e
  Chain-closed order a b o h (cons {b = m} e c) =
      Chain-closed order m b o (Edge-closed order a m o h e) c

  no_cycle :
      (order : List String) (n : String)
      → IsOrdered graph order
      → elem n order ≡ true
      → Chain (Edge graph) n n
      → ⊥
  no_cycle [] n o h c = absurd (ground arith)
  no_cycle (x ∷ ns) n o h c = no_cycle ns n o.1 (deeper (str_eq-cases x n)) c
    where
      from_first : Chain (Edge graph) x x → elem x ns ≡ true
      from_first (one e) = behind x ns x o e
      from_first (cons {b = m} e c) = Chain-closed ns m x o.1 (behind x ns m o e) c

      deeper : ((str_eq x n ≡ true) × (x ≡ n)) ⊎ ((str_eq x n ≡ false) × (x ≢ n)) → elem n ns ≡ true
      deeper (inl (q, same)) =
          subst (λ s. elem s ns ≡ true) same
            (from_first (subst (λ s. Chain (Edge graph) s s) (sym same) c))
      deeper (inr (q, other)) = ground arith

-- One step of the workflow depends on another.
abbrev pub DependsOn : List WorkflowStep → String → String → Type 0
DependsOn steps a b =
    (step : WorkflowStep) × Member step steps × (step.step_id ≡ a) × (elem b step.depends_on ≡ true)

pub collect_ids-passed :
    (s : WorkflowStep) (steps : List WorkflowStep) (ids ids' : List String)
    → collect_ids (s ∷ steps) ids ≡ ok ids'
    → (str_eq s.step_id "" ≡ false)
      × (elem s.step_id ids ≡ false)
      × (collect_ids steps (s.step_id ∷ ids) ≡ ok ids')
unfolding collect_ids
collect_ids-passed s steps ids ids' h =
    let rest : Checked (List String) = collect_ids steps (s.step_id ∷ ids) in
    let (first, h1) =
      passed (str_eq s.step_id "") empty_id (reject_if (elem s.step_id ids) duplicate_id >> rest)
        ids' h in
    let (second, h2) = passed (elem s.step_id ids) duplicate_id rest ids' h1 in (first, second, h2)

-- The ids that `collect_ids` accepts are not empty and not among those it has seen.
pub collect_ids-fresh :
    (steps : List WorkflowStep) (ids ids' : List String)
    → collect_ids steps ids ≡ ok ids'
    → (step : WorkflowStep) → Member step steps
    → (str_eq step.step_id "" ≡ false) × (elem step.step_id ids ≡ false)
unfolding collect_ids
collect_ids-fresh [] ids ids' h step m = absurd m
collect_ids-fresh (s ∷ steps) ids ids' h step m =
    let (first, second, h2) = collect_ids-passed s steps ids ids' h in
    go first second m (collect_ids-fresh steps (s.step_id ∷ ids) ids' h2 step)
  where
    go :
        str_eq s.step_id "" ≡ false
        → elem s.step_id ids ≡ false
        → (step ≡ s) ⊎ Member step steps
        → (Member step steps
            → (str_eq step.step_id "" ≡ false) × (elem step.step_id (s.step_id ∷ ids) ≡ false))
        → (str_eq step.step_id "" ≡ false) × (elem step.step_id ids ≡ false)
    go a b (inl same) ih =
        subst (λ t. (str_eq t.step_id "" ≡ false) × (elem t.step_id ids ≡ false)) (sym same) (a, b)
    go a b (inr later) ih = let r = ih later in (r.0, ground arith)

add_edges-other :
    (steps : List WorkflowStep) (graph : Graph) (n : String)
    → ((step : WorkflowStep) → Member step steps → str_eq step.step_id n ≡ false)
    → lookup n (add_edges steps graph) ≡ lookup n graph
unfolding add_edges
add_edges-other [] graph n h = refl
add_edges-other (s ∷ steps) graph n h =
    add_edges-other steps (insert s.step_id s.depends_on graph) n (λ t m. h t (inr m)) ∙ missed
  where
    missed : lookup n (insert s.step_id s.depends_on graph) ≡ lookup n graph
    missed = rw (lookup-insert s.step_id n s.depends_on graph, h s (inl refl)) refl

pub str_eq-false_comm : (s t : String) → str_eq s t ≡ false → str_eq t s ≡ false
str_eq-false_comm s t h = elim (str_eq-cases t s) [
  | inl (q, same) ↦ absurd (distinct (sym (str_eq_refl s) ∙ subst (λ x. str_eq s x ≡ false) same h))
  | inr (q, other) ↦ q
]
  where
    distinct : true ≡ false → ⊥
    distinct e = cc

pub add_edges-own :
    (steps : List WorkflowStep) (ids ids' : List String) (graph : Graph)
    → collect_ids steps ids ≡ ok ids'
    → (step : WorkflowStep) → Member step steps
    → lookup step.step_id (add_edges steps graph) ≡ some step.depends_on
unfolding add_edges collect_ids
add_edges-own [] ids ids' graph h step m = absurd m
add_edges-own (s ∷ steps) ids ids' graph h step m =
    let (first, second, h2) = collect_ids-passed s steps ids ids' h in
    go h2 m
      (add_edges-own steps (s.step_id ∷ ids) ids' (insert s.step_id s.depends_on graph) h2 step)
  where
    head :
        collect_ids steps (s.step_id ∷ ids) ≡ ok ids'
        → lookup s.step_id (add_edges steps (insert s.step_id s.depends_on graph))
          ≡ some s.depends_on
    head h2 = add_edges-other steps (insert s.step_id s.depends_on graph) s.step_id other ∙ stored
      where
        stored : lookup s.step_id (insert s.step_id s.depends_on graph) ≡ some s.depends_on
        stored =
            rw (lookup-insert s.step_id s.step_id s.depends_on graph, str_eq_refl s.step_id) refl

        other : (t : WorkflowStep) → Member t steps → str_eq t.step_id s.step_id ≡ false
        other t m =
            let r = (collect_ids-fresh steps (s.step_id ∷ ids) ids' h2 t m).1 in
            str_eq-false_comm s.step_id t.step_id (ground arith)

    go :
        collect_ids steps (s.step_id ∷ ids) ≡ ok ids'
        → (step ≡ s) ⊎ Member step steps
        → (Member step steps
            → lookup step.step_id (add_edges steps (insert s.step_id s.depends_on graph))
              ≡ some step.depends_on)
        → lookup step.step_id (add_edges steps (insert s.step_id s.depends_on graph))
          ≡ some step.depends_on
    go h2 (inl same) ih =
        subst
          (λ t.
            lookup t.step_id (add_edges steps (insert s.step_id s.depends_on graph))
            ≡ some t.depends_on)
          (sym same) (head h2)
    go h2 (inr later) ih = ih later

module _ (steps : List WorkflowStep) (ids : List String)
    (collected : collect_ids steps [] ≡ ok ids) where
  Edge-of : (a b : String) → DependsOn steps a b → Edge (add_edges steps []) a b
  Edge-of a b (step, m, same, dep) = (
    step.depends_on,
    subst (λ n. lookup n (add_edges steps []) ≡ some step.depends_on) same
        (add_edges-own steps [] ids [] collected step m),
    dep,
  )

  Chain-of : (a b : String) → Chain (DependsOn steps) a b → Chain (Edge (add_edges steps [])) a b
  Chain-of a b (one e) = one (Edge-of a b e)
  Chain-of a b (cons {b = m} e c) = cons (Edge-of a m e) (Chain-of m b c)

  Chain-keys :
      (a b : String)
      → Chain (Edge (add_edges steps [])) a b
      → elem a (keys (add_edges steps [])) ≡ true
  Chain-keys a b (one (deps, q, h)) = elem-keys a (add_edges steps []) deps q
  Chain-keys a b (cons (deps, q, h) c) = elem-keys a (add_edges steps []) deps q

  pub reject_cycles-acyclic :
      reject_cycles steps ≡ ok tt → (n : String) → Chain (DependsOn steps) n n → ⊥
  unfolding reject_cycles lookup
  reject_cycles-acyclic h n c =
      let nodes = keys (add_edges steps []) in
      let graph = add_edges steps [] in
      let (colors, found, done) =
        bind-ok (visit_all graph (suc (length nodes)) nodes (all_white nodes [])) (λ _. ok tt) h in
      let (order, o, s, r) =
        visit_all-IsOrdered graph (suc (length nodes)) nodes (all_white nodes []) colors [] tt
          (λ m e. absurd (not_black (lookup-all_white nodes [] m black (λ k. start k m) e)))
          (λ m e. not_grey (lookup-all_white nodes [] m grey (λ k. start k m) e)) found in
      no_cycle graph order n o (All-elem order n nodes r (Chain-keys n n (Chain-of n n c)))
        (Chain-of n n c)
    where
      not_black : black ≡ white → ⊥
      not_black e = cc

      not_grey : grey ≡ white → ⊥
      not_grey e = cc

      start : (k : Color) (m : String) → lookup m [] ≡ some k → k ≡ white
      start k m e = cc
