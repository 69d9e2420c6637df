-- ===== src/Prelude/TextOrder.antt =====
-- The order of texts by their code points is a strict one.
use Prim.Native.Nat.{ℕ, Ordering, compare as compare_ℕ}
use Prim.Native.Char.{Char, code}
use Prim.Native.String.{String, compare, then as or_else}
use Prim.Native.String.compare.{nil-cons, cons-nil, cons-cons}
use mathlib.Core.Path.{◌≡◌, refl, subst}
use mathlib.Core.Bool.{Bool, true, false}
use native.Mathlib.Omega.{arith}
use text.Mathlib.TextEquality.{path_by_compare}
use mad_edge.Prelude.Text.{str_ltb}
use mad_edge.Prelude.Sorting.{IsWeakOrder}

flip : Ordering → Ordering
flip Ordering.lt = Ordering.gt
flip Ordering.eq = Ordering.eq
flip Ordering.gt = Ordering.lt

compare_ℕ-flip : (m n : ℕ) → compare_ℕ n m ≡ flip (compare_ℕ m n)
unfolding flip
compare_ℕ-flip m n = ground arith

or_else-flip : (o p : Ordering) → or_else (flip o) (flip p) ≡ flip (or_else o p)
unfolding flip
or_else-flip Ordering.lt p = refl
or_else-flip Ordering.eq p = refl
or_else-flip Ordering.gt p = refl

pub compare-cons :
    (c d : Char) (s t : String)
    → compare (String.◌∷◌ c s) (String.◌∷◌ d t)
      ≡ or_else (compare_ℕ (code c) (code d)) (compare s t)
compare-cons c d s t = λ i. cons-cons c d s t i

pub compare_nil_cons : (d : Char) (t : String) → compare String.[] (String.◌∷◌ d t) ≡ Ordering.lt
compare_nil_cons d t = λ i. nil-cons d t i

pub compare_cons_nil : (c : Char) (s : String) → compare (String.◌∷◌ c s) String.[] ≡ Ordering.gt
compare_cons_nil c s = λ i. cons-nil c s i

compare-flip : (s t : String) → compare t s ≡ flip (compare s t)
unfolding flip
compare-flip String.[] String.[] = refl
compare-flip String.[] (String.◌∷◌ d t) = rw (compare_nil_cons d t, compare_cons_nil d t) refl
compare-flip (String.◌∷◌ c s) String.[] = rw (compare_nil_cons c s, compare_cons_nil c s) refl
compare-flip (String.◌∷◌ c s) (String.◌∷◌ d t) =
    rw
      (
        compare-cons c d s t,
        compare-cons d c t s,
        compare_ℕ-flip (code c) (code d),
        compare-flip s t,
      )
      (or_else-flip (compare_ℕ (code c) (code d)) (compare s t))

pub str_ltb_asym : (s t : String) → str_ltb s t ≡ true → str_ltb t s ≡ false
unfolding flip
str_ltb_asym s t h = ground (arith, compare-flip s t)

abbrev not_gt : Ordering → Bool
not_gt Ordering.gt = false
not_gt _ = true

or_else_trans :
    (a b c : ℕ) (o p q : Ordering)
    → (not_gt o ≡ true → not_gt p ≡ true → not_gt q ≡ true)
    → not_gt (or_else (compare_ℕ a b) o) ≡ true
    → not_gt (or_else (compare_ℕ b c) p) ≡ true
    → not_gt (or_else (compare_ℕ a c) q) ≡ true
or_else_trans a b c o p q h k l = ground arith

not_gt_trans :
    (s t u : String)
    → not_gt (compare s t) ≡ true
    → not_gt (compare t u) ≡ true
    → not_gt (compare s u) ≡ true
not_gt_trans String.[] t String.[] h k = refl
not_gt_trans String.[] t (String.◌∷◌ e u) h k = rw (compare_nil_cons e u) refl
not_gt_trans (String.◌∷◌ c s) String.[] u h k = absurd (ground (arith, compare_cons_nil c s))
not_gt_trans (String.◌∷◌ c s) (String.◌∷◌ d t) String.[] h k =
    absurd (ground (arith, compare_cons_nil d t))
not_gt_trans (String.◌∷◌ c s) (String.◌∷◌ d t) (String.◌∷◌ e u) h k = rw (compare-cons c e s u) (
    or_else_trans (code c) (code d) (code e) (compare s t) (compare t u) (compare s u)
      (not_gt_trans s t u) (subst (λ (o : Ordering). not_gt o ≡ true) (compare-cons c d s t) h)
      (subst (λ (o : Ordering). not_gt o ≡ true) (compare-cons d e t u) k))

str_ltb-not_gt : (s t : String) → str_ltb t s ≡ false → not_gt (compare s t) ≡ true
unfolding flip
str_ltb-not_gt s t h = ground (arith, compare-flip s t)

not_gt-str_ltb : (s t : String) → not_gt (compare s t) ≡ true → str_ltb t s ≡ false
unfolding flip
not_gt-str_ltb s t h = ground (arith, compare-flip s t)

pub str_ltb-IsWeakOrder : IsWeakOrder str_ltb
str_ltb-IsWeakOrder = record {
  asym = str_ltb_asym;
  not_less_trans = λ x y z h k.
      not_gt-str_ltb x z (not_gt_trans x y z (str_ltb-not_gt x y h) (str_ltb-not_gt y z k));
}

-- Of two different texts one comes first.
pub str_ltb_total : (s t : String) → str_ltb s t ≡ false → str_ltb t s ≡ false → s ≡ t
unfolding flip
str_ltb_total s t h k = path_by_compare s t (ground (arith, compare-flip s t))
