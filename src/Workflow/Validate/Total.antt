-- ===== src/Workflow/Validate/Total.antt =====
-- How `validate_workflow` of core/orchestration/domain/workflow.py may end.
use mad_edge.Prelude.{
  ℕ, suc, ◌≤◌, ◌≡◌, refl, sym, subst, ◌∙◌, Bool, true, false, some, List, [], ◌∷◌, String, elem,
  length, str_eq, str_eq_refl, Bool-cases, All, Member, inl, inr, ◌⊎◌, arith, if◌then◌else◌,
}
use mathlib.Core.Option.{some-injective}
use mad_edge.Prelude.Dict.{Dict, lookup, insert, lookup-insert, keys}
use mad_edge.Workflow.{WorkflowStep}
use mad_edge.Workflow.Validate.{
  Checked, ok, invalid, key_error, out_of_fuel, ◌>>=◌, ◌>>◌, no_steps, collect_ids, check_all_deps,
  Color, white, Graph, add_edges, visit_all, all_white, reject_cycles, check_all_mounts,
  no_steps_given, validate_workflow,
}
use mad_edge.Workflow.Validate.Search.{elem-keys}
use mad_edge.Workflow.Validate.Acyclic.{add_edges-own}
use mad_edge.Workflow.Validate.Ids.{
  Known, collect_ids-Known, check_deps-accepted, check_all_deps-accepted,
}
use mad_edge.Workflow.Validate.Whites.{whites, IsColored, Fine, IsClosed, visit_all-Fine}
use mad_edge.Workflow.Validate.Answers.{
  Answers, bind-Answers, guard-Answers, collect_ids-Answers, check_all_deps-Answers,
  check_all_mounts-Answers,
}

keys-lookup :
    {V : Type 0} (n : String) (d : Dict V)
    → elem n (keys d) ≡ true
    → (v : V) × (lookup n d ≡ some v)
unfolding lookup
keys-lookup n [] h = absurd (ground arith)
keys-lookup n ((k, w) ∷ d) h = elim (Bool-cases (str_eq k n)) [
  | inl e ↦ (w, rw e refl)
  | inr e ↦ let r = keys-lookup n d (ground arith) in (r.0, rw e r.1)
]

elem-All :
    {P : String → Type 0} (xs : List String) → ((x : String) → elem x xs ≡ true → P x) → All P xs
elem-All [] h = tt
elem-All (x ∷ xs) h = (h x (rw (str_eq_refl x) refl), elem-All xs (λ y m. h y (ground arith)))

-- Where an entry of the graph comes from.
add_edges-source :
    (steps : List WorkflowStep) (graph : Graph) (n : String) (deps : List String)
    → lookup n (add_edges steps graph) ≡ some deps
    → ((step : WorkflowStep) × Member step steps × (step.depends_on ≡ deps))
      ⊎ (lookup n graph ≡ some deps)
unfolding add_edges
add_edges-source [] graph n deps h = inr h
add_edges-source (s ∷ steps) graph n deps h =
    elim (add_edges-source steps (insert s.step_id s.depends_on graph) n deps h) [
      | inl (t, m, q) ↦ inl (t, inr m, q)
      | inr e ↦ elim (Bool-cases (str_eq s.step_id n)) [
        | inl hit ↦ inl (s, inl refl, some-injective s.depends_on deps (sym (found hit) ∙ e))
        | inr miss ↦ inr (sym (kept miss) ∙ e)
      ]
    ]
  where
    found :
        str_eq s.step_id n ≡ true
        → lookup n (insert s.step_id s.depends_on graph) ≡ some s.depends_on
    found hit = rw (lookup-insert s.step_id n s.depends_on graph, hit) refl

    kept :
        str_eq s.step_id n ≡ false → lookup n (insert s.step_id s.depends_on graph) ≡ lookup n graph
    kept miss = rw (lookup-insert s.step_id n s.depends_on graph, miss) refl

all_white-lookup :
    (nodes : List String) (color : Dict Color) (n : String)
    → (elem n nodes ≡ true) ⊎ (lookup n color ≡ some white)
    → lookup n (all_white nodes color) ≡ some white
all_white-lookup [] color n (inl m) = absurd (ground arith)
all_white-lookup [] color n (inr w) = w
all_white-lookup (x ∷ xs) color n h = all_white-lookup xs (insert x white color) n (go h)
  where
    set : str_eq x n ≡ true → lookup n (insert x white color) ≡ some white
    set e = rw (lookup-insert x n white color, e) refl

    go :
        (elem n (x ∷ xs) ≡ true) ⊎ (lookup n color ≡ some white)
        → (elem n xs ≡ true) ⊎ (lookup n (insert x white color) ≡ some white)
    go (inl m) = elim (Bool-cases (str_eq x n)) [ inl e ↦ inr (set e) | inr e ↦ inl (ground arith) ]
    go (inr w) = inr (rw (lookup-insert x n white color) (either_white (str_eq x n)))
      where
        either_white : (b : Bool) → (if b then some white else lookup n color) ≡ some white
        either_white true = refl
        either_white false = w

whites-le-length : (ns : List String) (color : Dict Color) → whites ns color ≤ length ns
whites-le-length [] color = omega arith
whites-le-length (n ∷ ns) color = ground (arith, whites-le-length ns color)

module _ (steps : List WorkflowStep) (ids : List String) (collected : collect_ids steps [] ≡ ok ids)
    (checked : check_all_deps ids steps ≡ ok tt) where
  graph-IsClosed : IsClosed (add_edges steps []) (keys (add_edges steps []))
  graph-IsClosed n m =
      let (deps, q) = keys-lookup n (add_edges steps []) m in
      (deps, q, elem-All deps (λ b e. node b deps (add_edges-source steps [] n deps q) e))
    where
      known_node : (b : String) → Known steps b → elem b (keys (add_edges steps [])) ≡ true
      known_node b (t, m, same) =
          subst (λ k. elem k (keys (add_edges steps [])) ≡ true) same
            (elem-keys t.step_id (add_edges steps []) t.depends_on
              (add_edges-own steps [] ids [] collected t m))

      from_ids : (b : String) → elem b ids ≡ true → elem b (keys (add_edges steps [])) ≡ true
      from_ids b e = elim (collect_ids-Known steps [] ids collected b e) [
        | inl none_yet ↦ absurd (ground arith)
        | inr k ↦ known_node b k
      ]

      node :
          (b : String) (deps : List String)
          → ((step : WorkflowStep) × Member step steps × (step.depends_on ≡ deps))
            ⊎ (lookup n [] ≡ some deps)
          → elem b deps ≡ true
          → elem b (keys (add_edges steps [])) ≡ true
      node b deps (inr h) e = absurd (unfold lookup in cc)
      node b deps (inl (t, m, same)) e =
          from_ids b
            (check_deps-accepted t.step_id ids t.depends_on b
              (check_all_deps-accepted ids steps t checked m)
              (subst (λ ds. elem b ds ≡ true) (sym same) e)).1

  reject_cycles-Answers : Answers (reject_cycles steps)
  unfolding reject_cycles
  reject_cycles-Answers =
      let graph = add_edges steps [] in
      let nodes = keys graph in
      let start = all_white nodes [] in
      let colored : IsColored nodes start = λ n m. (white, all_white-lookup nodes [] n (inl m)) in
      let fine =
        visit_all-Fine graph nodes graph-IsClosed (suc (length nodes)) nodes start
          (elem-All nodes (λ x e. e)) colored (omega (arith, whites-le-length nodes start)) in
      fine_answers (visit_all graph (suc (length nodes)) nodes start) (whites nodes start) fine
    where
      fine_answers :
          (r : Checked (Dict Color)) (most : ℕ)
          → Fine (keys (add_edges steps [])) most r
          → Answers (r >>= λ c. ok tt)
      fine_answers (ok c) most f = tt
      fine_answers (invalid e) most f = tt
      fine_answers key_error most f = f
      fine_answers out_of_fuel most f = f

-- `validate_workflow` answers for all steps whatever: it accepts them or raises InvalidWorkflow. It
-- meets no KeyError, and its search is never deeper than the number of nodes.
pub validate_workflow-Answers : (steps : List WorkflowStep) → Answers (validate_workflow steps)
unfolding validate_workflow
validate_workflow-Answers steps =
    let mounting : Checked (Unit {0}) = check_all_mounts steps steps in
    let cycles : Checked (Unit {0}) = reject_cycles steps >> mounting in
    guard-Answers (no_steps_given steps) no_steps
      (collect_ids steps [] >>= λ ids. check_all_deps ids steps >> cycles)
      (bind-Answers (collect_ids steps []) (λ ids. check_all_deps ids steps >> cycles)
        (collect_ids-Answers steps [])
        (λ ids collected.
          bind-Answers (check_all_deps ids steps) (λ _. cycles) (check_all_deps-Answers ids steps)
            (λ u checked.
              bind-Answers (reject_cycles steps) (λ _. mounting)
                (reject_cycles-Answers steps ids collected checked)
                (λ v e. check_all_mounts-Answers steps steps))))
