-- ===== src/Uint256/Divide.antt =====
-- operator/= of base_uint: a quotient by shifts and differences.
pub mod SetBit
pub mod Rounds
pub mod Quotient
use mamio.Base.{ℕ, zero, suc, ◌-◌, ◌/◌, ◌%◌, ◌^◌, true, false, ◌||◌, List, ltb, ◌==◌, if◌then◌else◌}
use mamio.Uint256.{subtract, fill_zero, greater_equal, bits}
use mamio.Uint256.Shift.{or_at, shift_left, shift_right}

-- The loop, from the round with the shift `rounds` - 1 down: the numbers num and div, and the
-- quotient so far.
unfoldable pub divide_loop : ℕ → List ℕ → List ℕ → List ℕ → List ℕ
divide_loop zero num div pn = pn
divide_loop (suc shift) num div pn = elim (greater_equal num div) [
  | true ↦
      divide_loop shift (subtract num div) (shift_right 1 div)
        (or_at (shift / 32) (2 ^ (shift % 32)) pn)
  | false ↦ divide_loop shift num (shift_right 1 div) pn
]

unfoldable pub divide : List ℕ → List ℕ → List ℕ
divide xs ys =
    let num_bits = bits xs in
    let div_bits = bits ys in
    let shift = num_bits - div_bits in
    if div_bits == 0 || ltb num_bits div_bits
    then fill_zero xs
    else divide_loop (suc shift) xs (shift_left shift ys) (fill_zero xs)
