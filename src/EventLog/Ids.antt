-- ===== src/EventLog/Ids.antt =====
-- core/events/domain/event_id.py: the layout of a UUIDv7, from the time in milliseconds and the two
-- random numbers. `x << k` is a product, and the mask of 48 ones a remainder.
pub mod Layout
use Prim.Native.Nat.{bit_or}
use mad_edge.Prelude.{ℕ, ◌*◌, ◌%◌, ◌^◌}

-- `new_event_id`, a statement of its body at a time.
unfoldable pub stamp_bits : ℕ → ℕ
stamp_bits ms = ms % 2 ^ 48 * 2 ^ 80

unfoldable pub new_event_id : ℕ → ℕ → ℕ → ℕ
unfolding stamp_bits
new_event_id ms rand_a rand_b =
    let value = stamp_bits ms in
    let value = bit_or value (0x7 * 2 ^ 76) in
    let value = bit_or value (rand_a * 2 ^ 64) in
    let value = bit_or value (2 * 2 ^ 62) in bit_or value rand_b
