-- ===== src/Workflow/Validate/Search.antt =====
-- `visit_all`, the outer loop of `_reject_cycles` of core/orchestration/domain/workflow.py.
use mad_edge.Prelude.{
  ℕ, ◌≡◌, ◌≢◌, refl, Bool, true, false, Option, none, some, List, [], ◌∷◌, String, elem, str_eq,
  Bool-cases, All, inl, inr, arith, if◌then◌else◌,
}
use mad_edge.Prelude.Dict.{Dict, lookup, insert, lookup-insert, keys}
use mad_edge.Workflow.Validate.{
  Checked, ok, ◌>>=◌, Color, white, grey, black, Graph, visit, visit_all, all_white,
}
use mad_edge.Workflow.Validate.Visit.{visit-Left, Sub, IsOrdered, Blackened, bind-ok}

module _ (graph : Graph) (fuel : ℕ) where
  pub visit_all-IsOrdered :
      (nodes : List String) (color color' : Dict Color) (order : List String)
      → IsOrdered graph order
      → Blackened color order
      → ((n : String) → lookup n color ≢ some grey)
      → visit_all graph fuel nodes color ≡ ok color'
      → (order' : List String) × IsOrdered graph order'
        × Sub order order'
        × All (λ d. elem d order' ≡ true) nodes
  unfolding visit_all
  visit_all-IsOrdered [] color color' order o b g e = (order, o, λ n h. h, tt)
  visit_all-IsOrdered (node ∷ nodes) color color' order o b g e =
      go (lookup node color) refl (visit_all-IsOrdered nodes)
    where
      go :
          (k : Option Color)
          → lookup node color ≡ k
          → ((c c' : Dict Color) (ns : List String)
              → IsOrdered graph ns
              → Blackened c ns
              → ((n : String) → lookup n c ≢ some grey)
              → visit_all graph fuel nodes c ≡ ok c'
              → (ns' : List String) × IsOrdered graph ns'
                × Sub ns ns'
                × All (λ d. elem d ns' ≡ true) nodes)
          → (order' : List String) × IsOrdered graph order'
            × Sub order order'
            × All (λ d. elem d order' ≡ true) (node ∷ nodes)
      go none q ih = absurd (ground arith)
      go (some grey) q ih = absurd (g node q)
      go (some white) q ih =
          let rest : Dict Color → Checked (Dict Color) = λ c. visit_all graph fuel nodes c in
          let e' : (visit graph fuel node color >>= rest) ≡ ok color' = rw (q, visit_all) at e in
          let (mid, first, later) = bind-ok (visit graph fuel node color) rest e' in
          let l = visit-Left graph fuel node color mid order o b first in
          let (order', o', s, r) =
            ih mid color' l.order' l.ordered l.blackened (λ n h. g n (l.greys n h)) later in
          (order', o', λ n h. s n (l.grown n h), (s node l.reached.0, r))
      go (some black) q ih =
          let e' : visit_all graph fuel nodes color ≡ ok color' = rw (q, visit_all) at e in
          let (order', o', s, r) = ih color color' order o b g e' in
          (order', o', s, (s node (b node q), r))

pub lookup-all_white :
    (nodes : List String) (color : Dict Color) (n : String) (k : Color)
    → ((c : Color) → lookup n color ≡ some c → c ≡ white)
    → lookup n (all_white nodes color) ≡ some k
    → k ≡ white
lookup-all_white [] color n k w h = w k h
lookup-all_white (x ∷ xs) color n k w h = lookup-all_white xs (insert x white color) n k w' h
  where
    w' : (c : Color) → lookup n (insert x white color) ≡ some c → c ≡ white
    w' c q =
        let q' : (if str_eq x n then some white else lookup n color) ≡ some c =
          rw (lookup-insert x n white color) at q in
        elim (Bool-cases (str_eq x n)) [ inl e ↦ ground arith | inr e ↦ w c (ground arith) ]

pub elem-keys :
    {V : Type 0} (n : String) (d : Dict V) (v : V) → lookup n d ≡ some v → elem n (keys d) ≡ true
unfolding lookup
elem-keys n [] v h = cc
elem-keys n ((k, w) ∷ d) v h = go (str_eq k n) refl (elem-keys n d v)
  where
    go :
        (b : Bool)
        → str_eq k n ≡ b
        → (lookup n d ≡ some v → elem n (keys d) ≡ true)
        → elem n (k ∷ keys d) ≡ true
    go true e ih = rw e refl
    go false e ih = rw e (ih (rw (lookup, e) at h))
