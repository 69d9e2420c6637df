-- ===== src/EventLog/Ids/Layout.antt =====
-- The fields of the ids that core/events/domain/event_id.py mints, and their order.
use Prim.Native.Nat.{bit_or, bit_or-bitwise, digits}
use mad_edge.Prelude.{
  ℕ, zero, suc, ◌+◌, ◌*◌, ◌/◌, ◌%◌, ◌^◌, ◌<◌, ◌≤◌, ◌≡◌, refl, sym, ap, ◌∙◌, max, arith,
}
use mad_edge.EventLog.Ids.{stamp_bits, new_event_id}

-- The law for the lowest digit, from the definition that the native operation stands for.
abbrev or_digits : ℕ → ℕ → ℕ → ℕ
or_digits n a b = digits (λ b. b) max n a b

or_digits_fuel : (n m a b : ℕ) → a ≤ n → a ≤ m → or_digits n a b ≡ or_digits m a b
or_digits_fuel zero zero a b p q = refl
or_digits_fuel zero (suc m) zero b p q = refl
or_digits_fuel zero (suc m) (suc a) b p q = absurd (omega arith)
or_digits_fuel (suc n) zero zero b p q = refl
or_digits_fuel (suc n) zero (suc a) b p q = absurd (omega arith)
or_digits_fuel (suc n) (suc m) zero b p q = refl
or_digits_fuel (suc n) (suc m) (suc a) b p q =
    omega (arith, or_digits_fuel n m (suc a / 2) (b / 2) (omega arith) (omega arith))

zero-bit_or : (b : ℕ) → bit_or 0 b ≡ b
zero-bit_or b = bit_or-bitwise 0 b

bit_or_step : (a b : ℕ) → bit_or a b ≡ bit_or (a / 2) (b / 2) * 2 + max (a % 2) (b % 2)
bit_or_step zero b = omega (arith, zero-bit_or b, zero-bit_or (b / 2))
bit_or_step (suc a) b = omega (
  arith,
  bit_or-bitwise (suc a) b,
  bit_or-bitwise (suc a / 2) (b / 2),
  or_digits_fuel a (suc a / 2) (suc a / 2) (b / 2) (omega arith) (omega arith),
)

bit_or-zero_fuel : (n a : ℕ) → a ≤ n → bit_or a 0 ≡ a
bit_or-zero_fuel n zero h = zero-bit_or 0
bit_or-zero_fuel zero (suc a) h = absurd (omega arith)
bit_or-zero_fuel (suc n) (suc a) h =
    omega (arith, bit_or_step (suc a) 0, bit_or-zero_fuel n (suc a / 2) (omega arith))

-- Digits above and below a place do not meet.
abbrev shift : ℕ → ℕ → ℕ
shift zero a = a
shift (suc k) a = 2 * shift k a

bit_or-shift : (k a b : ℕ) → b < shift k 1 → bit_or (shift k a) b ≡ shift k a + b
bit_or-shift zero a zero h = omega (arith, bit_or-zero_fuel a a (omega arith))
bit_or-shift zero a (suc b) h = absurd (omega arith)
bit_or-shift (suc k) a b h =
    let half : 2 * shift k a / 2 ≡ shift k a = omega arith in
    bit_or_step (2 * shift k a) b
    ∙ ap (λ h. bit_or h (b / 2) * 2 + max (2 * shift k a % 2) (b % 2)) half
    ∙ omega (arith, bit_or-shift k a (b / 2) (omega arith))

-- The four places at which `new_event_id` adds a field.
below_80 : (a b : ℕ) → b < 2 ^ 80 → bit_or (a * 2 ^ 80) b ≡ a * 2 ^ 80 + b
below_80 a b h =
    let at : shift 80 a ≡ a * 2 ^ 80 = omega arith in
    rw (sym at) (bit_or-shift 80 a b (omega arith))

below_76 : (v a b : ℕ) → v ≡ a * 2 ^ 76 → b < 2 ^ 76 → bit_or v b ≡ v + b
below_76 v a b e h =
    let at : v ≡ shift 76 a = omega arith in rw at (bit_or-shift 76 a b (omega arith))

below_64 : (v a b : ℕ) → v ≡ a * 2 ^ 64 → b < 2 ^ 64 → bit_or v b ≡ v + b
below_64 v a b e h =
    let at : v ≡ shift 64 a = omega arith in rw at (bit_or-shift 64 a b (omega arith))

below_62 : (v a b : ℕ) → v ≡ a * 2 ^ 62 → b < 2 ^ 62 → bit_or v b ≡ v + b
below_62 v a b e h =
    let at : v ≡ shift 62 a = omega arith in rw at (bit_or-shift 62 a b (omega arith))

-- The fields side by side.
abbrev layout : ℕ → ℕ → ℕ → ℕ
layout t rand_a rand_b = t * 2 ^ 80 + 7 * 2 ^ 76 + rand_a * 2 ^ 64 + 2 * 2 ^ 62 + rand_b

new_event_id-layout :
    (ms rand_a rand_b : ℕ)
    → rand_a < 2 ^ 12
    → rand_b < 2 ^ 62
    → new_event_id ms rand_a rand_b ≡ layout (ms % 2 ^ 48) rand_a rand_b
unfolding new_event_id stamp_bits
new_event_id-layout ms rand_a rand_b ha hb =
    let t : ℕ = ms % 2 ^ 48 in
    ap (λ v. bit_or (bit_or (bit_or v (rand_a * 2 ^ 64)) (2 * 2 ^ 62)) rand_b)
      (below_80 t (0x7 * 2 ^ 76) (omega arith))
    ∙ ap (λ v. bit_or (bit_or v (2 * 2 ^ 62)) rand_b)
        (below_76 (t * 2 ^ 80 + 7 * 2 ^ 76) (16 * t + 7) (rand_a * 2 ^ 64) (omega arith)
          (omega arith))
    ∙ ap (λ v. bit_or v rand_b)
        (below_64 (t * 2 ^ 80 + 7 * 2 ^ 76 + rand_a * 2 ^ 64) ((16 * t + 7) * 2 ^ 12 + rand_a)
          (2 * 2 ^ 62) (omega arith) (omega arith))
    ∙ below_62 (t * 2 ^ 80 + 7 * 2 ^ 76 + rand_a * 2 ^ 64 + 2 * 2 ^ 62)
        (((16 * t + 7) * 2 ^ 12 + rand_a) * 4 + 2) rand_b (omega arith) (omega arith)

-- With random numbers of 12 and 62 bits, an id that is minted before the year 10889, when 48 bits of
-- milliseconds run out, has 128 bits: the time in the first 48, then the version 7, the first random
-- number, the variant 2 and the second one. An id is thus greater than each one of an earlier
-- millisecond.
pub new_event_id_lem :
    (ms rand_a rand_b : ℕ)
    → ms < 2 ^ 48
    → rand_a < 2 ^ 12
    → rand_b < 2 ^ 62
    → let id : ℕ = new_event_id ms rand_a rand_b in
      (id < 2 ^ 128)
      × (id / 2 ^ 80 ≡ ms)
      × (id / 2 ^ 76 % 2 ^ 4 ≡ 7)
      × (id / 2 ^ 64 % 2 ^ 12 ≡ rand_a)
      × (id / 2 ^ 62 % 2 ^ 2 ≡ 2)
      × (id % 2 ^ 62 ≡ rand_b)
      × ((ms' a' b' : ℕ) → ms' < ms → a' < 2 ^ 12 → b' < 2 ^ 62 → new_event_id ms' a' b' < id)
new_event_id_lem ms rand_a rand_b hm ha hb =
    let e = new_event_id-layout ms rand_a rand_b ha hb in
    (
      omega (arith, e),
      omega (arith, e),
      omega (arith, e),
      omega (arith, e),
      omega (arith, e),
      omega (arith, e),
      λ ms' a' b' lt ha' hb'. omega (arith, e, new_event_id-layout ms' a' b' ha' hb'),
    )
