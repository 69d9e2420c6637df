-- ===== src/Workflow/Validate/Whites.antt =====
-- The colours of `_reject_cycles`, in core/orchestration/domain/workflow.py: how many nodes are white.
use mad_edge.Prelude.{
  ℕ, zero, suc, ◌≤◌, ◌≡◌, refl, sym, ap, subst, ◌∙◌, Bool, true, false, Option, none, some, List,
  [], ◌∷◌, String, elem, count, str_eq, str_eq_refl, str_eq-cases, Bool-cases, All, inl, inr, arith,
}
use mad_edge.Prelude.Dict.{Dict, lookup, insert, lookup-insert}
use mad_edge.Workflow.Validate.Acyclic.{str_eq-false_comm}
use mad_edge.Workflow.Validate.{
  Checked, ok, invalid, key_error, out_of_fuel, ◌>>=◌, Color, white, grey, black, Graph, visit_deps,
  visit, visit_all, cyclic,
}

abbrev is_white : Option Color → Bool
is_white (some white) = true
is_white _ = false

abbrev pub whites : List String → Dict Color → ℕ
whites ns color = count (λ n. is_white (lookup n color)) ns

-- Every node of the list has a colour.
abbrev pub IsColored : List String → Dict Color → Type 0
IsColored ns color = (n : String) → elem n ns ≡ true → (c : Color) × (lookup n color ≡ some c)

-- A search that ends well, or finds a cycle; it leaves every node coloured and none more white.
abbrev pub Fine : List String → ℕ → Checked (Dict Color) → Type 0
Fine ns most (ok color) = IsColored ns color × (whites ns color ≤ most)
Fine ns most (invalid e) = Unit
Fine ns most key_error = ⊥
Fine ns most out_of_fuel = ⊥

whites-insert :
    (ns : List String) (node : String) (c : Color) (color : Dict Color)
    → is_white (some c) ≡ false
    → whites ns (insert node c color) ≤ whites ns color
whites-insert [] node c color h = omega arith
whites-insert (n ∷ ns) node c color h =
    let ih = whites-insert ns node c color h in
    elim (Bool-cases (str_eq node n)) [
      | inl e ↦
          let q : lookup n (insert node c color) ≡ some c =
            rw (lookup-insert node n c color, e) refl in
          ground arith
      | inr e ↦
          let q : lookup n (insert node c color) ≡ lookup n color =
            rw (lookup-insert node n c color, e) refl in
          rw q (ground arith)
    ]

whites-grey :
    (ns : List String) (node : String) (color : Dict Color)
    → elem node ns ≡ true
    → lookup node color ≡ some white
    → suc (whites ns (insert node grey color)) ≤ whites ns color
whites-grey [] node color h w = absurd (ground arith)
whites-grey (n ∷ ns) node color h w = elim (str_eq-cases n node) [
  | inl (e, same) ↦
      let was : is_white (lookup n color) ≡ true =
        subst (λ k. is_white (lookup k color) ≡ true) (sym same) (ap is_white w) in
      let now : is_white (lookup n (insert node grey color)) ≡ false =
        rw (lookup-insert node n grey color, turned same) refl in
      let rest = whites-insert ns node grey color refl in ground arith
  | inr (e, other) ↦
      let q : lookup n (insert node grey color) ≡ lookup n color =
        rw (lookup-insert node n grey color, untouched e) refl in
      let ih = whites-grey ns node color (ground arith) w in rw q (ground arith)
]
  where
    turned : n ≡ node → str_eq node n ≡ true
    turned same = subst (λ k. str_eq node k ≡ true) (sym same) (str_eq_refl node)

    untouched : str_eq n node ≡ false → str_eq node n ≡ false
    untouched e = str_eq-false_comm n node e

IsColored-insert :
    (ns : List String) (node : String) (c : Color) (color : Dict Color)
    → IsColored ns color
    → IsColored ns (insert node c color)
IsColored-insert ns node c color h n m = elim (Bool-cases (str_eq node n)) [
  | inl e ↦ (c, hit e)
  | inr e ↦ let old = h n m in (old.0, miss e ∙ old.1)
]
  where
    hit : str_eq node n ≡ true → lookup n (insert node c color) ≡ some c
    hit e = rw (lookup-insert node n c color, e) refl

    miss : str_eq node n ≡ false → lookup n (insert node c color) ≡ lookup n color
    miss e = rw (lookup-insert node n c color, e) refl

Fine-weaken :
    (ns : List String) (m k : ℕ) (r : Checked (Dict Color)) → m ≤ k → Fine ns m r → Fine ns k r
Fine-weaken ns m k (ok c) h f = (f.0, omega (arith, h, f.1))
Fine-weaken ns m k (invalid e) h f = tt
Fine-weaken ns m k key_error h f = f
Fine-weaken ns m k out_of_fuel h f = f

Fine-bind :
    (ns : List String) (m k : ℕ) (r : Checked (Dict Color)) (f : Dict Color → Checked (Dict Color))
    → Fine ns m r
    → ((c : Dict Color) → IsColored ns c → whites ns c ≤ m → Fine ns k (f c))
    → Fine ns k (r >>= f)
Fine-bind ns m k (ok c) f h g = g c h.0 h.1
Fine-bind ns m k (invalid e) f h g = tt
Fine-bind ns m k key_error f h g = absurd h
Fine-bind ns m k out_of_fuel f h g = absurd h

-- The dependencies of every node are nodes, and every node has its entry.
abbrev pub IsClosed : Graph → List String → Type 0
IsClosed graph ns =
    (n : String)
    → elem n ns ≡ true
    → (deps : List String) × (lookup n graph ≡ some deps) × All (λ d. elem d ns ≡ true) deps

module _ (graph : Graph) (ns : List String) (closed : IsClosed graph ns) where
  visit_deps-Fine :
      (fuel : ℕ) (v : String → Dict Color → Checked (Dict Color))
      → ((node : String) (color : Dict Color)
          → elem node ns ≡ true
          → lookup node color ≡ some white
          → IsColored ns color
          → whites ns color ≤ fuel
          → Fine ns (whites ns color) (v node color))
      → (deps : List String) (color : Dict Color) → All (λ d. elem d ns ≡ true) deps
      → IsColored ns color
      → whites ns color ≤ fuel
      → Fine ns (whites ns color) (visit_deps v deps color)
  unfolding visit_deps
  visit_deps-Fine fuel v fine [] color a h w = (h, omega arith)
  visit_deps-Fine fuel v fine (dep ∷ deps) color a h w =
      go (lookup dep color) refl (visit_deps-Fine fuel v fine deps)
    where
      go :
          (k : Option Color)
          → lookup dep color ≡ k
          → ((c : Dict Color)
              → All (λ d. elem d ns ≡ true) deps
              → IsColored ns c
              → whites ns c ≤ fuel
              → Fine ns (whites ns c) (visit_deps v deps c))
          → Fine ns (whites ns color) (elim k [
            | none ↦ key_error
            | some grey ↦ invalid cyclic
            | some white ↦ v dep color >>= λ color'. visit_deps v deps color'
            | some black ↦ visit_deps v deps color
          ])
      go none q ih = let c = h dep a.0 in absurd (ground (arith, c.1))
      go (some grey) q ih = tt
      go (some white) q ih =
          Fine-bind ns (whites ns color) (whites ns color) (v dep color) (λ c. visit_deps v deps c)
            (fine dep color a.0 q h w)
            (λ c i l.
              Fine-weaken ns (whites ns c) (whites ns color) (visit_deps v deps c) l
                (ih c a.1 i (omega (arith, l, w))))
      go (some black) q ih = ih color a.1 h w

  visit-Fine :
      (fuel : ℕ) (node : String) (color : Dict Color)
      → elem node ns ≡ true
      → lookup node color ≡ some white
      → IsColored ns color
      → whites ns color ≤ fuel
      → Fine ns (whites ns color) (visit graph fuel node color)
  unfolding visit
  visit-Fine zero node color m e h w =
      let less = whites-grey ns node color m e in absurd (omega (arith, less, w))
  visit-Fine (suc fuel) node color m e h w =
      let (deps, q, a) = closed node m in
      rw (q, visit)
        (Fine-bind ns (whites ns color) (whites ns color)
          (visit_deps (visit graph fuel) deps (insert node grey color))
          (λ c. ok (insert node black c))
          (Fine-weaken ns (whites ns (insert node grey color)) (whites ns color)
            (visit_deps (visit graph fuel) deps (insert node grey color))
            (omega (arith, whites-grey ns node color m e))
            (visit_deps-Fine fuel (visit graph fuel) (visit-Fine fuel) deps (insert node grey color)
              a (IsColored-insert ns node grey color h)
              (omega (arith, whites-grey ns node color m e, w))))
          (λ c i l. (
            IsColored-insert ns node black c i,
            omega (arith, whites-insert ns node black c refl, l),
          )))

  pub visit_all-Fine :
      (fuel : ℕ) (nodes : List String) (color : Dict Color)
      → All (λ d. elem d ns ≡ true) nodes
      → IsColored ns color
      → whites ns color ≤ fuel
      → Fine ns (whites ns color) (visit_all graph fuel nodes color)
  unfolding visit_all
  visit_all-Fine fuel [] color a h w = (h, omega arith)
  visit_all-Fine fuel (node ∷ nodes) color a h w =
      go (lookup node color) refl (visit_all-Fine fuel nodes)
    where
      go :
          (k : Option Color)
          → lookup node color ≡ k
          → ((c : Dict Color)
              → All (λ d. elem d ns ≡ true) nodes
              → IsColored ns c
              → whites ns c ≤ fuel
              → Fine ns (whites ns c) (visit_all graph fuel nodes c))
          → Fine ns (whites ns color) (elim k [
            | none ↦ key_error
            | some white ↦
                visit graph fuel node color >>= λ color'. visit_all graph fuel nodes color'
            | some grey ↦ visit_all graph fuel nodes color
            | some black ↦ visit_all graph fuel nodes color
          ])
      go none q ih = let c = h node a.0 in absurd (ground (arith, c.1))
      go (some grey) q ih = ih color a.1 h w
      go (some black) q ih = ih color a.1 h w
      go (some white) q ih =
          Fine-bind ns (whites ns color) (whites ns color) (visit graph fuel node color)
            (λ c. visit_all graph fuel nodes c) (visit-Fine fuel node color a.0 q h w)
            (λ c i l.
              Fine-weaken ns (whites ns c) (whites ns color) (visit_all graph fuel nodes c) l
                (ih c a.1 i (omega (arith, l, w))))
