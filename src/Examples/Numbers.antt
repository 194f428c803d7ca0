-- ===== src/Examples/Numbers.antt =====
-- src/crypto/uint256.h, class base_uint, on small words.
use mamio.Base.{
  ◌/◌, ℕ, ◌+◌, ◌-◌, ◌*◌, ◌%◌, ◌≡◌, refl, List, [], ◌∷◌, arith, ltb, leb, ◌==◌, if◌then◌else◌, false,
}
use mamio.Uint256.{
  bits, bits_loop, top_bit, multiply, multiply_row, multiply_rows, add, add_loop, subtract, less,
  less_equal, greater, greater_equal,
}
use mamio.Uint256.Value.{value, modulus, value-subtract}
use mamio.Uint256.Order.{comparisons}
use mamio.Uint256.Product.{value-multiply}
use mamio.Uint256.Shift.{
  shift_left, shift_right, left_loop, left_round, right_loop, right_round, or_at,
}
use mamio.Uint256.{set_uint64, fill_zero, negate, complement, increment, greater_loop}
use mamio.Uint256.Divide.{divide, divide_loop}
use mamio.Uint256.Divide.Quotient.{value-divide}
use mamio.Uint256.Compact.{digits_of, set_compact, get_compact}
use mamio.Uint256.Compact.Digits.{kept, value-set_compact-get_compact}

abbrev left : List ℕ
left = 0xffffffff ∷ 7 ∷ 9 ∷ []

abbrev right : List ℕ
right = 5 ∷ 0xfffffff0 ∷ 1 ∷ []

add_test : add left right ≡ 4 ∷ 0xfffffff8 ∷ 10 ∷ []
unfolding add add_loop
add_test = refl

value-subtract_example :
    value (subtract left right) ≡ (value left + (modulus left - value right)) % modulus left
value-subtract_example =
    value-subtract left right refl (omega arith, (omega arith, (omega arith, tt)))

comparisons_example :
    (less left right ≡ ltb (value left) (value right))
    × (less_equal left right ≡ leb (value left) (value right))
    × (greater left right ≡ ltb (value right) (value left))
    × (greater_equal left right ≡ leb (value right) (value left))
comparisons_example =
    comparisons left right refl (omega arith, (omega arith, (omega arith, tt)))
      (omega arith, (omega arith, (omega arith, tt)))

abbrev zeros : List ℕ
zeros = 0 ∷ 0 ∷ 0 ∷ []

multiply_test : multiply zeros (3 ∷ 0 ∷ 0 ∷ []) (0x80000000 ∷ 5 ∷ 0 ∷ []) ≡ 0x80000000 ∷ 16 ∷ 0 ∷ []
unfolding multiply multiply_row multiply_rows
multiply_test = refl

-- A local that holds 7 at first makes the product of 3 and 5 come out as 22.
uninitialised_test : multiply (7 ∷ 0 ∷ []) (3 ∷ 0 ∷ []) (5 ∷ 0 ∷ []) ≡ 22 ∷ 0 ∷ []
unfolding multiply multiply_row multiply_rows
uninitialised_test = refl

value-multiply_example :
    value (multiply zeros left right) ≡ (value zeros + value left * value right) % modulus left
value-multiply_example = value-multiply zeros left right refl refl

bits_test : bits left ≡ 68
unfolding bits bits_loop top_bit
bits_test = refl

shift_left_test : shift_left 36 left ≡ 0 ∷ 0xfffffff0 ∷ 127 ∷ []
unfolding shift_left left_loop left_round or_at fill_zero
shift_left_test = refl

shift_right_test : shift_right 33 left ≡ 0x80000003 ∷ 4 ∷ 0 ∷ []
unfolding shift_right right_loop right_round or_at fill_zero
shift_right_test = refl

divide_test : divide left (1000 ∷ 0 ∷ 0 ∷ []) ≡ 2886218022 ∷ 38654705 ∷ 0 ∷ []
unfolding divide divide_loop bits bits_loop top_bit shift_left shift_right left_loop left_round
    right_loop right_round or_at fill_zero subtract negate complement increment add add_loop
    greater_equal greater_loop
divide_test = refl

value-divide_example :
    value (divide left right) ≡ (if value right == 0 then 0 else value left / value right)
value-divide_example =
    value-divide left right refl (omega arith, (omega arith, (omega arith, tt)))
      (omega arith, (omega arith, (omega arith, tt)))

-- A number with its highest byte above 0x7f keeps two bytes.
abbrev signed : List ℕ
signed = 0x80abcd12 ∷ 0 ∷ []

signed_test : set_compact (get_compact false signed) signed ≡ 0x80ab0000 ∷ 0 ∷ []
unfolding set_compact get_compact digits_of bits bits_loop top_bit shift_left shift_right left_loop
    left_round right_loop right_round or_at fill_zero set_uint64
signed_test = refl

value-set_compact-get_compact_example :
    value (set_compact (get_compact false left) right) ≡ kept (bits left) (value left)
value-set_compact-get_compact_example =
    value-set_compact-get_compact left right (omega arith, (omega arith, (omega arith, tt)))
      (omega arith, (omega arith, (omega arith, tt))) refl (omega arith)
