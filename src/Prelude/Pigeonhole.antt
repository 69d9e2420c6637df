-- ===== src/Prelude/Pigeonhole.antt =====
-- Distinct texts that all stand in a list are no more than the list is long.
use Prim.Native.Nat.{suc, ◌≤◌}
use Prim.Native.String.{String}
use mathlib.Core.Path.{◌≡◌, refl, subst}
use mathlib.Core.Bool.{true, false}
use mathlib.Core.Logic.{◌≢◌, ◌⊎◌, inl, inr}
use mathlib.Core.List.{List, [], ◌∷◌}
use native.Mathlib.Omega.{arith}
use mad_edge.Prelude.Lists.{elem, length}
use mad_edge.Prelude.Tests.{if◌then◌else◌, Bool-cases}
use mad_edge.Prelude.Text.{str_eq, str_eq-cases}

abbrev pub IsApart : List String → Type 0
IsApart [] = Unit
IsApart (x ∷ xs) = (elem x xs ≡ false) × IsApart xs

abbrev drop_one : String → List String → List String
drop_one x [] = []
drop_one x (y ∷ ys) = if str_eq y x then ys else y ∷ drop_one x ys

length-drop_one :
    (x : String) (ys : List String) → elem x ys ≡ true → length ys ≡ suc (length (drop_one x ys))
length-drop_one x [] h = absurd (ground arith)
length-drop_one x (y ∷ ys) h = elim (Bool-cases (str_eq y x)) [
  | inl e ↦ ground arith
  | inr e ↦ ground (arith, length-drop_one x ys (ground arith))
]

elem-drop_one :
    (x z : String) (ys : List String) → x ≢ z → elem z ys ≡ true → elem z (drop_one x ys) ≡ true
elem-drop_one x z [] ne h = absurd (ground arith)
elem-drop_one x z (y ∷ ys) ne h = elim (str_eq-cases y x) [
  | inl (e, same) ↦ elim (str_eq-cases y z) [
    | inl (f, also) ↦ absurd (ne (subst (λ k. k ≡ z) same also))
    | inr (f, other) ↦ ground arith
  ]
  | inr (e, other) ↦ elim (Bool-cases (str_eq y z)) [
    | inl f ↦ ground arith
    | inr f ↦ ground (arith, elem-drop_one x z ys ne (ground arith))
  ]
]

pub pigeonhole :
    (xs ys : List String)
    → IsApart xs
    → ((z : String) → elem z xs ≡ true → elem z ys ≡ true)
    → length xs ≤ length ys
pigeonhole [] ys d h = omega arith
pigeonhole (x ∷ xs) ys d h =
    let here : elem x ys ≡ true = h x (first (str_eq-cases x x)) in
    omega (
      arith,
      length-drop_one x ys here,
      pigeonhole xs (drop_one x ys) d.1
          (λ z m. elem-drop_one x z ys (λ e. apart z m e) (h z (ground arith))),
    )
  where
    first :
        ((str_eq x x ≡ true) × (x ≡ x)) ⊎ ((str_eq x x ≡ false) × (x ≢ x)) → elem x (x ∷ xs) ≡ true
    first (inl (e, same)) = ground arith
    first (inr (e, other)) = absurd (other refl)

    apart : (z : String) → elem z xs ≡ true → x ≡ z → ⊥
    apart z m e =
        let q : elem z xs ≡ false = subst (λ k. elem k xs ≡ false) e d.0 in absurd (ground arith)
