-- ===== src/Workflow/Validate/Visit.antt =====
-- `visit` and its loop over the dependencies, in `_reject_cycles` of
-- core/orchestration/domain/workflow.py: what a search that finds no cycle leaves.
use mad_edge.Prelude.{
  ℕ, zero, suc, ◌≡◌, ◌≢◌, refl, sym, subst, ◌∙◌, Bool, true, false, Option, none, some, List, [],
  ◌∷◌, String, elem, str_eq, str_eq_refl, Bool-cases, All, inl, inr, arith,
}
use mathlib.Core.Option.{some-injective}
use mad_edge.Prelude.Dict.{Dict, lookup, insert, lookup-insert}
use mad_edge.Workflow.Validate.{
  Invalid, Checked, ok, invalid, key_error, out_of_fuel, ◌>>=◌, ◌>>◌, reject_if, Color, white, grey,
  black, Graph, visit_deps, visit,
}

abbrev pub Sub : List String → List String → Type 0
Sub xs ys = (n : String) → elem n xs ≡ true → elem n ys ≡ true

-- Every node of the list has its dependencies behind it.
abbrev pub IsOrdered : Graph → List String → Type 0
IsOrdered graph [] = Unit
IsOrdered graph (n ∷ ns) =
    ((deps : List String) × (lookup n graph ≡ some deps) × All (λ d. elem d ns ≡ true) deps)
    × IsOrdered graph ns

-- Only nodes of the list are black.
abbrev pub Blackened : Dict Color → List String → Type 0
Blackened color ns = (n : String) → lookup n color ≡ some black → elem n ns ≡ true

abbrev NoNewGrey : Dict Color → Dict Color → Type 0
NoNewGrey before after = (n : String) → lookup n after ≡ some grey → lookup n before ≡ some grey

-- What a search of some nodes leaves, from colours and an order that it found.
pub record Left (graph : Graph) (color : Dict Color) (order : List String) (nodes : List String)
    (color' : Dict Color) : Type 0 where
  pub order' : List String
  pub ordered : IsOrdered graph order'
  pub blackened : Blackened color' order'
  pub grown : Sub order order'
  pub reached : All (λ d. elem d order' ≡ true) nodes
  pub greys : NoNewGrey color color'

abbrev Visits : Graph → (String → Dict Color → Checked (Dict Color)) → Type 0
Visits graph v =
    (node : String) (color color' : Dict Color) (order : List String)
    → IsOrdered graph order
    → Blackened color order
    → v node color ≡ ok color'
    → Left graph color order (node ∷ []) color'

All-Sub :
    (xs ys deps : List String)
    → Sub xs ys
    → All (λ d. elem d xs ≡ true) deps
    → All (λ d. elem d ys ≡ true) deps
All-Sub xs ys [] s h = tt
All-Sub xs ys (d ∷ deps) s h = (s d h.0, All-Sub xs ys deps s h.1)

pub bind-ok :
    {A B : Type 0} (m : Checked A) (f : A → Checked B) {b : B}
    → (m >>= f) ≡ ok b
    → (a : A) × (m ≡ ok a) × (f a ≡ ok b)
bind-ok (ok a) f h = (a, refl, h)
bind-ok (invalid e) f h = cc
bind-ok key_error f h = cc
bind-ok out_of_fuel f h = cc

-- A check that passes, and what follows it.
pub passed :
    {B : Type 0} (test : Bool) (e : Invalid) (k : Checked B) (b : B)
    → (reject_if test e >> k) ≡ ok b
    → (test ≡ false) × (k ≡ ok b)
passed true e k b h = cc
passed false e k b h = (refl, h)

module _ (graph : Graph) (v : String → Dict Color → Checked (Dict Color))
    (visits : Visits graph v) where
  visit_deps-Left :
      (deps : List String) (color color' : Dict Color) (order : List String)
      → IsOrdered graph order
      → Blackened color order
      → visit_deps v deps color ≡ ok color'
      → Left graph color order deps color'
  unfolding visit_deps
  visit_deps-Left [] color color' order o b e =
      let same : color ≡ color' = cc in
      record {
        order' = order;
        ordered = o;
        blackened = subst (λ c. Blackened c order) same b;
        grown = λ n h. h;
        reached = tt;
        greys = λ n h. subst (λ c. lookup n c ≡ some grey) (sym same) h;
      }
  visit_deps-Left (dep ∷ deps) color color' order o b e =
      go (lookup dep color) refl (visit_deps-Left deps)
    where
      go :
          (k : Option Color)
          → lookup dep color ≡ k
          → ((c c' : Dict Color) (ns : List String)
              → IsOrdered graph ns
              → Blackened c ns
              → visit_deps v deps c ≡ ok c'
              → Left graph c ns deps c')
          → Left graph color order (dep ∷ deps) color'
      go none q ih = absurd (ground arith)
      go (some grey) q ih = absurd (ground arith)
      go (some white) q ih =
          let e' : (v dep color >>= λ c. visit_deps v deps c) ≡ ok color' =
            rw (q, visit_deps) at e in
          let (mid, first, rest) = bind-ok (v dep color) (λ c. visit_deps v deps c) e' in
          let l = visits dep color mid order o b first in
          let r = ih mid color' l.order' l.ordered l.blackened rest in
          record {
            order' = r.order';
            ordered = r.ordered;
            blackened = r.blackened;
            grown = λ n h. r.grown n (l.grown n h);
            reached = (r.grown dep l.reached.0, r.reached);
            greys = λ n h. l.greys n (r.greys n h);
          }
      go (some black) q ih =
          let e' : visit_deps v deps color ≡ ok color' = rw (q, visit_deps) at e in
          let r = ih color color' order o b e' in
          record {
            order' = r.order';
            ordered = r.ordered;
            blackened = r.blackened;
            grown = r.grown;
            reached = (r.grown dep (b dep q), r.reached);
            greys = r.greys;
          }

-- A lookup after an insertion that gives another value is one before it.
lookup-under :
    (n node : String) (c k : Color) (color : Dict Color)
    → c ≢ k
    → lookup n (insert node c color) ≡ some k
    → (str_eq node n ≡ false) × (lookup n color ≡ some k)
lookup-under n node c k color ne h = elim (Bool-cases (str_eq node n)) [
  | inl e ↦ absurd (ne (some-injective c k (hit e ∙ h)))
  | inr e ↦ (e, miss e ∙ h)
]
  where
    hit : str_eq node n ≡ true → some c ≡ lookup n (insert node c color)
    hit e = rw (lookup-insert node n c color, e) refl

    miss : str_eq node n ≡ false → lookup n color ≡ lookup n (insert node c color)
    miss e = rw (lookup-insert node n c color, e) refl

greyed :
    (node : String) (color : Dict Color) (order : List String)
    → Blackened color order
    → Blackened (insert node grey color) order
greyed node color order b n h = b n (lookup-under n node grey black color (λ e. cc) h).1

pub elem-later : (n x : String) (xs : List String) → elem n xs ≡ true → elem n (x ∷ xs) ≡ true
elem-later n x xs h = ground arith

module _ (graph : Graph) where
  pub visit-Left : (fuel : ℕ) → Visits graph (visit graph fuel)
  unfolding visit
  visit-Left zero node color color' order o b e = absurd (ground arith)
  visit-Left (suc fuel) node color color' order o b e =
      go (lookup node graph) refl (visit-Left fuel)
    where
      after :
          (deps : List String) (mid : Dict Color)
          → lookup node graph ≡ some deps
          → insert node black mid ≡ color'
          → Left graph (insert node grey color) order deps mid
          → Left graph color order (node ∷ []) color'
      after deps mid q same l =
          subst (λ c. Left graph color order (node ∷ []) c) same
            (record {
              order' = node ∷ l.order';
              ordered = ((deps, q, l.reached), l.ordered);
              blackened = λ n h. black_in n h;
              grown = λ n h. elem-later n node l.order' (l.grown n h);
              reached = (rw (str_eq_refl node) refl, tt);
              greys = λ n h. still_grey n h;
            })
        where
          black_in :
              (n : String)
              → lookup n (insert node black mid) ≡ some black
              → elem n (node ∷ l.order') ≡ true
          black_in n h = elim (Bool-cases (str_eq node n)) [
            | inl e ↦ rw e refl
            | inr e ↦ elem-later n node l.order' (l.blackened n (mid_black e ∙ h))
          ]
            where
              mid_black : str_eq node n ≡ false → lookup n mid ≡ lookup n (insert node black mid)
              mid_black e = rw (lookup-insert node n black mid, e) refl

          still_grey :
              (n : String)
              → lookup n (insert node black mid) ≡ some grey
              → lookup n color ≡ some grey
          still_grey n h =
              let u = lookup-under n node black grey mid (λ e. cc) h in
              under_grey n u.0 (l.greys n u.1)
            where
              under_grey :
                  (n : String)
                  → str_eq node n ≡ false
                  → lookup n (insert node grey color) ≡ some grey
                  → lookup n color ≡ some grey
              under_grey n e h = skipped ∙ h
                where
                  skipped : lookup n color ≡ lookup n (insert node grey color)
                  skipped = rw (lookup-insert node n grey color, e) refl

      go :
          (k : Option (List String))
          → lookup node graph ≡ k
          → Visits graph (visit graph fuel)
          → Left graph color order (node ∷ []) color'
      go none q ih = absurd (ground arith)
      go (some deps) q ih =
          let search = visit_deps (visit graph fuel) deps (insert node grey color) in
          let finish : Dict Color → Checked (Dict Color) = λ c. ok (insert node black c) in
          let e' : (search >>= finish) ≡ ok color' = rw (q, visit) at e in
          let (mid, found, done) = bind-ok search finish e' in
          after deps mid q (cc) (
            visit_deps-Left graph (visit graph fuel) ih deps (insert node grey color) mid order o
              (greyed node color order b) found)
