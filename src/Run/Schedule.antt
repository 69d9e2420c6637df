-- ===== src/Run/Schedule.antt =====
-- `backoff_s` of core/orchestration/domain/retry_schedule.py.
use native.Mathlib.Nat.{pow-suc}
use mad_edge.Prelude.{
  ℕ, zero, suc, ◌+◌, ◌*◌, ◌/◌, ◌^◌, ◌≤◌, ◌<◌, ◌≡◌, refl, arith, Option, none, some,
}
use mad_edge.Run.{base, cap_wait, random_range, capped, jittered, backoff, retry_delay}

jittered_bounds :
    (c r : ℕ) → r < random_range → (c * 9 / 10 ≤ jittered c r) × (jittered c r ≤ c * 11 / 10)
unfolding jittered
jittered_bounds c r h = let below : c * r ≤ c * random_range = grind arith in omega (arith, below)

capped-le : (attempt : ℕ) → capped attempt ≤ cap_wait
unfolding capped
capped-le attempt = omega arith

pow-pos : (n : ℕ) → 1 ≤ 2 ^ n
pow-pos zero = omega arith
pow-pos (suc n) = rw pow-suc (omega (arith, pow-pos n))

base-le-capped : (attempt : ℕ) → base ≤ capped attempt
unfolding capped
base-le-capped attempt = omega (arith, pow-pos attempt)

-- The delay before a retry lies within ten percent of the capped exponential interval, is at least
-- 27 seconds and at most 66 minutes.
pub backoff_bounds :
    (attempt r : ℕ)
    → r < random_range
    → (capped attempt * 9 / 10 ≤ backoff attempt r)
      × (backoff attempt r ≤ capped attempt * 11 / 10)
      × (27_000 ≤ backoff attempt r)
      × (backoff attempt r ≤ 3_960_000)
unfolding backoff
backoff_bounds attempt r h =
    let b = jittered_bounds (capped attempt) r h in
    let low = base-le-capped attempt in
    let high = capped-le attempt in (omega arith, omega arith, omega arith, omega arith)

-- An advertised reset only lengthens the delay, and is waited for in full.
retry_delay_lem :
    (attempt r : ℕ) (floor : Option ℕ) → backoff attempt r ≤ retry_delay attempt r floor
unfolding retry_delay
retry_delay_lem attempt r none = omega arith
retry_delay_lem attempt r (some floor) = ground arith

-- What the delays of the first attempts come to at least.
unfoldable pub least_wait : ℕ → ℕ
unfolding capped
least_wait zero = 0
least_wait (suc attempt) = least_wait attempt + capped attempt * 9 / 10

-- After twelve delays the ceiling is passed.
pub least_wait-twelve : least_wait 12 ≡ 19_629_000
unfolding least_wait
least_wait-twelve = refl

pub least_wait-suc :
    (attempt r : ℕ) (floor : Option ℕ)
    → r < random_range
    → least_wait (suc attempt) ≤ least_wait attempt + retry_delay attempt r floor
unfolding least_wait
least_wait-suc attempt r floor h =
    let b = backoff_bounds attempt r h in omega (arith, b.0, retry_delay_lem attempt r floor)
