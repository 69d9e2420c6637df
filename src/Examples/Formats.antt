-- ===== src/Examples/Formats.antt =====
-- Concrete parameters for the examples: ids and instants as texts, and the digits of ASCII.
use Prim.Native.Nat.{Ordering}
use Prim.Native.String.{compare}
use mad_edge.Prelude.{
  ℕ, zero, suc, ◌+◌, ◌-◌, ◌<◌, ◌≡◌, refl, ap, false, ◌&&◌, Option, none, some, String, str_eq,
  str_eq-cases, str_ltb, ltb, leb, ◌==◌, inl, inr, if◌then◌else◌, arith,
}
use mad_edge.Prelude.TextOrder.{compare-cons, compare_nil_cons, compare_cons_nil}
use mad_edge.Store.{Formats}
use mad_edge.Policy.Serial.{Digits}
use mad_edge.EventLog.Sorted.{IsOrderly}

-- The number n as n + 1 strokes.
abbrev pub strokes : ℕ → String
strokes zero = "1"
strokes (suc n) = String.◌∷◌ "1" (strokes n)

abbrev more : Option ℕ → Option ℕ
more none = none
more (some n) = some (suc n)

abbrev pub count_strokes : String → Option ℕ
count_strokes String.[] = none
count_strokes (String.◌∷◌ c String.[]) = some 0
count_strokes (String.◌∷◌ c (String.◌∷◌ d s)) = more (count_strokes (String.◌∷◌ d s))

pub count_strokes_lem : (n : ℕ) → count_strokes (strokes n) ≡ some n
count_strokes_lem zero = refl
count_strokes_lem (suc zero) = refl
count_strokes_lem (suc (suc n)) = ap more (count_strokes_lem (suc n))

pub some_strokes : (n : ℕ) → str_eq (strokes n) "" ≡ false
some_strokes zero = refl
some_strokes (suc n) = elim (str_eq-cases (strokes (suc n)) "") [
  | inl (e, same) ↦ absurd (apart (strokes n) same)
  | inr (e, other) ↦ e
]
  where
    apart : (s : String) → ◌≡◌ {A = String} (String.◌∷◌ "1" s) "" → ⊥
    apart s e = cc

empty_first : (n : ℕ) → compare "" (strokes n) ≡ Ordering.lt
empty_first zero = refl
empty_first (suc n) = compare_nil_cons "1" (strokes n)

empty_last : (n : ℕ) → compare (strokes n) "" ≡ Ordering.gt
empty_last zero = refl
empty_last (suc n) = compare_cons_nil "1" (strokes n)

strokes_order : (a b : ℕ) → str_ltb (strokes a) (strokes b) ≡ ltb a b
strokes_order zero zero = refl
strokes_order zero (suc b) = ground (arith, compare-cons "1" "1" "" (strokes b), empty_first b)
strokes_order (suc a) zero = ground (arith, compare-cons "1" "1" (strokes a) "", empty_last a)
strokes_order (suc a) (suc b) =
    ground (arith, compare-cons "1" "1" (strokes a) (strokes b), strokes_order a b)

abbrev pub formats : Formats
formats = record {
  uuid_text = strokes;
  parse_uuid = count_strokes;
  iso_text = strokes;
  parse_iso = count_strokes;
  parse_uuid_text = count_strokes_lem;
  parse_iso_text = count_strokes_lem;
  uuid_text_some = some_strokes;
  iso_text_some = some_strokes;
}

pub formats-IsOrderly : IsOrderly formats
formats-IsOrderly = record { uuid_text_order = strokes_order }

abbrev pub ascii_decimal : ℕ → Option ℕ
ascii_decimal c = if leb 48 c && leb c 57 then some (c - 48) else none

pub ascii_decimal_lem : (n : ℕ) → n < 10 → ascii_decimal (48 + n) ≡ some n
ascii_decimal_lem n h = ground arith

pub ascii_space_lem : (n : ℕ) → n < 10 → (48 + n == 32) ≡ false
ascii_space_lem n h = ground arith

abbrev pub ascii : Digits
ascii = record {
  decimal = ascii_decimal;
  is_space = λ c. c == 32;
  decimal_ascii = ascii_decimal_lem;
  is_space_ascii = ascii_space_lem;
}
