-- ===== src/Core/Target/Configured.antt =====
-- src/minemon/core.cpp, the constructor of CCoreProtocol: the limits of the target.
use mamio.Base.{ℕ, ◌-◌, ◌/◌, ◌^◌, ◌≤◌, ◌≡◌, refl, ap, ◌∙◌, false, [], ◌∷◌, arith}
use native.Mathlib.Nat.{le-div_iff_mul-le, pow-le-pow_right, mul-le-mul_left, div-mul-le_self}
use mamio.Uint256.{bits, bits_loop, top_bit, complement, set_uint64, fill_zero}
use mamio.Uint256.Value.{value, AreWords-complement, length-complement}
use mamio.Uint256.Shift.{
  shift_right, shift_left, left_loop, left_round, right_loop, right_round, or_at,
}
use mamio.Uint256.Shift.Kept.{IsNumber, shift_right-IsNumber}
use mamio.Uint256.Shift.Words.{two_pos}
use mamio.Uint256.Shift.Right.{value-shift_right}
use mamio.Uint256.Compact.{set_compact, get_compact, digits_of}
use mamio.Uint256.Compact.Digits.{kept, value-set_compact-get_compact}
use mamio.Uint256.Compact.Monotone.{kept-le}
use mamio.Core.Target.{Difficulty, zero_words, limit_of, new_difficulty}
use mamio.Core.Target.Width.{set_compact-IsNumber}

all_ones : value (complement zero_words) ≡ 2 ^ 256 - 1
unfolding value complement
all_ones = refl

-- Limits of eight words in their order, where the upper limit is what its compact form keeps.
pub record AreLimits (d : Difficulty) : Type 0 where
  pub lower : IsNumber 8 d.lower_limit
  pub upper : IsNumber 8 d.upper_limit
  pub order : value d.upper_limit ≤ value d.lower_limit
  pub whole : kept (bits d.upper_limit) (value d.upper_limit) ≡ value d.upper_limit

-- The limits that the constructor sets are the numbers of so many zero bits, but for their lowest
-- bytes.
limit_of_lem :
    (n : ℕ)
    → IsNumber 8 (limit_of n)
      × (let limit = shift_right n (complement zero_words) in
          (value limit ≡ (2 ^ 256 - 1) / 2 ^ n)
          × IsNumber 8 limit
          × (value (limit_of n) ≡ kept (bits limit) (value limit)))
unfolding limit_of
limit_of_lem n =
    let ones = complement zero_words in
    let w = AreWords-complement zero_words in
    let r = shift_right-IsNumber n ones w in
    let limit : IsNumber 8 (shift_right n ones) = record {
      words = r.words;
      width = r.width ∙ length-complement zero_words;
    } in
    let all : value ones ≡ 2 ^ 256 - 1 = all_ones in
    let v : value (shift_right n ones) ≡ (2 ^ 256 - 1) / 2 ^ n =
      value-shift_right n ones w ∙ ap (λ m. m / 2 ^ n) all in
    let e =
      value-set_compact-get_compact (shift_right n ones) (shift_right n ones) limit.words
        limit.words refl (omega (arith, limit.width)) in
    (
      set_compact-IsNumber 8 (get_compact false (shift_right n ones)) (shift_right n ones) limit,
      (v, limit, e),
    )

limit_of_order : (n : ℕ) → n ≤ 200 → value (limit_of 200) ≤ value (limit_of n)
limit_of_order n few =
    let (_, (v, h, e)) = limit_of_lem n in
    let (_, (u, k, f)) = limit_of_lem 200 in
    let more : (2 ^ 256 - 1) / 2 ^ 200 ≤ (2 ^ 256 - 1) / 2 ^ n = (le-div_iff_mul-le (two_pos n)).1 (
      omega (
        arith,
        mul-le-mul_left {m = 2 ^ n} {n = 2 ^ 200} ((2 ^ 256 - 1) / 2 ^ 200)
            (pow-le-pow_right {n = 2} (omega arith) {i = n} {j = 200} few),
        div-mul-le_self (2 ^ 256 - 1) (2 ^ 200),
      )) in
    let le =
      kept-le (shift_right 200 (complement zero_words)) (shift_right n (complement zero_words))
        k.words h.words (omega (arith, u, v, more)) in
    omega (arith, e, f, le)

upper_words : limit_of 200 ≡ 0 ∷ 0xffff00 ∷ 0 ∷ 0 ∷ 0 ∷ 0 ∷ 0 ∷ 0 ∷ []
unfolding limit_of shift_right right_loop right_round or_at complement set_compact get_compact
    digits_of bits bits_loop top_bit set_uint64 fill_zero shift_left left_loop left_round
upper_words = refl

upper_whole : kept (bits (limit_of 200)) (value (limit_of 200)) ≡ value (limit_of 200)
unfolding bits bits_loop top_bit value
upper_whole = rw upper_words refl

pub new_difficulty-AreLimits :
    (lower_bits init_bits interval : ℕ)
    → lower_bits ≤ 200
    → AreLimits (new_difficulty lower_bits init_bits interval)
unfolding new_difficulty
new_difficulty-AreLimits lower_bits init_bits interval few = record {
  lower = (limit_of_lem lower_bits).0;
  upper = (limit_of_lem 200).0;
  order = limit_of_order lower_bits few;
  whole = upper_whole;
}
