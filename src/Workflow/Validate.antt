-- ===== src/Workflow/Validate.antt =====
-- `validate_workflow` of core/orchestration/domain/workflow.py: its checks in their order, and the
-- depth-first search for cycles. Each error stands for one message.
mod Visit
mod Search
pub mod Acyclic
pub mod Ids
pub mod Mounts
pub mod Accepted
mod Whites
pub mod Answers
pub mod Total
use mad_edge.Prelude.{
  ℕ, zero, suc, ◌≡◌, refl, Bool, true, false, not, ◌&&◌, ◌||◌, Option, none, some, List, [], ◌∷◌,
  String, length, any, elem, str_eq, if◌then◌else◌,
}
use mad_edge.Prelude.Dict.{Dict, lookup, insert, keys}
use mad_edge.Workflow.{WorkflowMount, WorkflowStep, is_github, github}

pub data Invalid : Type 0 where
  no_steps empty_id duplicate_id self_dependency unknown_dependency cyclic : Invalid
  unknown_type from_step_on_file unknown_ref not_a_dependency unknown_from_step : Invalid
  no_github_mount : Invalid

pub data Checked {ℓ} (A : Type ℓ) : Type ℓ where
  ok : A → Checked A
  invalid : Invalid → Checked A
  key_error : Checked A
  out_of_fuel : Checked A

infixl 5 ◌>>=◌ ◌>>◌
abbrev pub ◌>>=◌ {ℓ κ} : {A : Type ℓ} {B : Type κ} → Checked A → (A → Checked B) → Checked B
ok a >>= f = f a
invalid e >>= f = invalid e
key_error >>= f = key_error
out_of_fuel >>= f = out_of_fuel

abbrev pub ◌>>◌ {ℓ} : {B : Type ℓ} → Checked (Unit {0}) → Checked B → Checked B
m >> k = m >>= λ _. k

-- `if test: raise InvalidWorkflow(…)`
abbrev pub reject_if : Bool → Invalid → Checked (Unit {0})
reject_if true e = invalid e
reject_if false e = ok tt

-- The first loop: ids are non-empty and distinct. It returns the set `ids`.
unfoldable pub collect_ids : List WorkflowStep → List String → Checked (List String)
collect_ids [] ids = ok ids
collect_ids (step ∷ steps) ids = do
  reject_if (str_eq step.step_id "") empty_id
  reject_if (elem step.step_id ids) duplicate_id
  collect_ids steps (step.step_id ∷ ids)

-- The second loop: every dependency is another known step.
unfoldable pub check_deps : String → List String → List String → Checked (Unit {0})
check_deps step_id ids [] = ok tt
check_deps step_id ids (dep ∷ deps) = do
  reject_if (str_eq dep step_id) self_dependency
  reject_if (not (elem dep ids)) unknown_dependency
  check_deps step_id ids deps

unfoldable pub check_all_deps : List String → List WorkflowStep → Checked (Unit {0})
unfolding check_deps
check_all_deps ids [] = ok tt
check_all_deps ids (step ∷ steps) = do
  check_deps step.step_id ids step.depends_on
  check_all_deps ids steps

pub data Color : Type 0 where
  white grey black : Color

abbrev pub Graph : Type 0
Graph = Dict (List String)

-- `{step.step_id: tuple(step.depends_on) for step in steps}`, a later step over an earlier one.
unfoldable pub add_edges : List WorkflowStep → Graph → Graph
add_edges [] graph = graph
add_edges (step ∷ steps) graph = add_edges steps (insert step.step_id step.depends_on graph)

-- `visit(node)`, and its loop over the node's dependencies. `color[dep]` and `graph[node]` of an
-- unknown node are a KeyError. The fuel bounds the depth of the recursion.
unfoldable pub visit_deps :
    (String → Dict Color → Checked (Dict Color)) → List String → Dict Color → Checked (Dict Color)
visit_deps visit [] color = ok color
visit_deps visit (dep ∷ deps) color = elim (lookup dep color) [
  | none ↦ key_error
  | some grey ↦ invalid cyclic
  | some white ↦ visit dep color >>= λ color'. visit_deps visit deps color'
  | some black ↦ visit_deps visit deps color
]

unfoldable pub visit : Graph → ℕ → String → Dict Color → Checked (Dict Color)
unfolding visit_deps
visit graph zero node color = out_of_fuel
visit graph (suc fuel) node color = elim (lookup node graph) [
  | none ↦ key_error
  | some deps ↦ visit_deps (visit graph fuel) deps (insert node grey color) >>= λ color'.
      ok (insert node black color')
]

-- The loop `for node in graph`.
unfoldable pub visit_all : Graph → ℕ → List String → Dict Color → Checked (Dict Color)
unfolding visit
visit_all graph fuel [] color = ok color
visit_all graph fuel (node ∷ nodes) color = elim (lookup node color) [
  | none ↦ key_error
  | some white ↦ visit graph fuel node color >>= λ color'. visit_all graph fuel nodes color'
  | some grey ↦ visit_all graph fuel nodes color
  | some black ↦ visit_all graph fuel nodes color
]

abbrev pub all_white : List String → Dict Color → Dict Color
all_white [] color = color
all_white (node ∷ nodes) color = all_white nodes (insert node white color)

-- A path of grey nodes holds each node at most once, so the number of nodes bounds the depth.
unfoldable pub reject_cycles : List WorkflowStep → Checked (Unit {0})
unfolding add_edges visit_all
reject_cycles steps =
    let graph = add_edges steps [] in
    let nodes = keys graph in
    visit_all graph (suc (length nodes)) nodes (all_white nodes []) >>= λ _. ok tt

unfoldable pub find_step : String → List WorkflowStep → Option WorkflowStep
find_step sid [] = none
find_step sid (step ∷ steps) = elim (find_step sid steps) [
  | some later ↦ some later
  | none ↦ if str_eq step.step_id sid then some step else none
]

-- `_validate_mount`; `index` is the dict of steps by id.
unfoldable pub check_referenced : Option WorkflowStep → Checked (Unit {0})
check_referenced none = invalid unknown_from_step
check_referenced (some referenced) =
    reject_if (not (any is_github referenced.mounts)) no_github_mount

-- What follows on `if mount.from_step is None: return`, with that field.
unfoldable pub check_source :
    List WorkflowStep → WorkflowStep → WorkflowMount → Option String → Checked (Unit {0})
unfolding is_github check_referenced find_step
check_source steps step mount none = ok tt
check_source steps step mount (some from_step) = do
  reject_if (not (is_github mount)) from_step_on_file
  reject_if (not (str_eq mount.ref "sha" || str_eq mount.ref "branch")) unknown_ref
  reject_if (not (elem from_step step.depends_on)) not_a_dependency
  check_referenced (find_step from_step steps)

unfoldable pub validate_mount :
    List WorkflowStep → WorkflowStep → WorkflowMount → Checked (Unit {0})
unfolding check_source
validate_mount steps step mount = do
  reject_if (not (str_eq mount.type github || str_eq mount.type "file")) unknown_type
  check_source steps step mount mount.from_step

unfoldable pub check_mounts :
    List WorkflowStep → WorkflowStep → List WorkflowMount → Checked (Unit {0})
unfolding validate_mount
check_mounts steps step [] = ok tt
check_mounts steps step (mount ∷ mounts) = do
  validate_mount steps step mount
  check_mounts steps step mounts

unfoldable pub check_all_mounts : List WorkflowStep → List WorkflowStep → Checked (Unit {0})
unfolding check_mounts
check_all_mounts steps [] = ok tt
check_all_mounts steps (step ∷ rest) = do
  check_mounts steps step step.mounts
  check_all_mounts steps rest

abbrev pub no_steps_given : List WorkflowStep → Bool
no_steps_given [] = true
no_steps_given _ = false

unfoldable pub validate_workflow : List WorkflowStep → Checked (Unit {0})
unfolding collect_ids check_all_deps reject_cycles check_all_mounts
validate_workflow steps = do
  reject_if (no_steps_given steps) no_steps
  ids ← collect_ids steps []
  check_all_deps ids steps
  reject_cycles steps
  check_all_mounts steps steps
