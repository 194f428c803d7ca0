-- ===== src/Uint256/Divide/Quotient.antt =====
-- operator/= divides the numbers.
use native.Mathlib.Nat.{
  mul-le-mul_right, mul-lt-mul_of_pos_right, pow-le-pow_right, div-eq_of_lt, pow-suc, mod-eq_of_lt,
}
use mamio.Base.{
  ℕ, suc, length, ◌+◌, ◌-◌, ◌*◌, ◌/◌, ◌^◌, ◌≤◌, ◌<◌, ◌≡◌, refl, ap, sym, ◌∙◌, inl, inr, false, List,
  ltb, ◌==◌, if◌then◌else◌, arith, Bool-cases, ltb→lt, ltb→le, ==_iff,
}
use mamio.Uint256.{base, fill_zero, bits}
use mamio.Uint256.Value.{value, modulus, AreWords, value-lt-modulus, modulus-length}
use mamio.Uint256.Bits.{bits_size}
use mamio.Uint256.Shift.{shift_left}
use mamio.Uint256.Shift.Words.{two_pos, two_word, modulus-power, two_power}
use mamio.Uint256.Shift.Left.{value-shift_left, value-zeros, fill_zero-zeros}
use mamio.Uint256.Shift.Kept.{fill_zero-IsNumber, shift_left-IsNumber}
use mamio.Uint256.Divide.{divide_loop, divide}
use mamio.Uint256.Divide.Rounds.{Round, doubled, divide_loop_lem}

power_modulus : (xs : List ℕ) → modulus xs ≡ 2 ^ (32 * length xs)
power_modulus xs =
    let p : 2 ^ 0 * base ^ length xs ≡ 2 ^ (32 * length xs) =
      two_power 0 (length xs) ∙ ap (λ e. 2 ^ e) (omega arith) in
    modulus-power xs ∙ omega (arith, p)

-- A number has no more bits than its words.
bits_le : (xs : List ℕ) → AreWords xs → 2 ^ bits xs ≤ 2 * value xs → bits xs ≤ 32 * length xs
bits_le xs w h = elim (Bool-cases (ltb (32 * length xs) (bits xs))) [
  | inr le ↦ ltb→le (32 * length xs) (bits xs) le
  | inl gt ↦
      let more = ltb→lt (32 * length xs) (bits xs) gt in
      let up =
        pow-le-pow_right {n = 2} (omega arith) {i = suc (32 * length xs)} {j = bits xs} more in
      absurd
        (omega (arith, up, pow-suc 2 (32 * length xs), h, value-lt-modulus xs w, power_modulus xs))
]

pub value-fill_zero : (xs : List ℕ) → value (fill_zero xs) ≡ 0
value-fill_zero xs = ap value (fill_zero-zeros xs) ∙ value-zeros (length xs)

-- Fewer bits make a smaller number.
fewer_bits : (m n x y : ℕ) → m < n → x < 2 ^ m → 2 ^ n ≤ 2 * y → x < y
fewer_bits m n x y lt h k =
    omega (arith, pow-le-pow_right {n = 2} (omega arith) {i = suc m} {j = n} lt, pow-suc 2 m, h, k)

-- The first round: the divisor stands below the highest bit of the dividend.
first-Round :
    (xs ys : List ℕ) (shift : ℕ)
    → length xs ≡ length ys
    → AreWords xs
    → AreWords ys
    → bits xs ≡ bits ys + shift
    → 2 ^ bits ys ≤ 2 * value ys
    → 2 ^ bits xs ≤ 2 * value xs
    → Round (length xs) (value ys) (suc shift) 0 xs (shift_left shift ys) (fill_zero xs)
first-Round xs ys shift h v w e low top =
    let (above_ys, _) = bits_size ys w in
    let (above_xs, _) = bits_size xs v in
    let split : 2 ^ bits xs ≡ 2 ^ bits ys * 2 ^ shift =
      ap (λ n. 2 ^ n) e ∙ sym (two_word (bits ys) shift) in
    let left = shift_left-IsNumber shift ys w in
    let widest =
      pow-le-pow_right {n = 2} (omega arith) {i = bits xs} {j = 32 * length xs}
        (bits_le xs v top) in
    let below : value ys * 2 ^ shift < 2 ^ bits ys * 2 ^ shift =
      mul-lt-mul_of_pos_right above_ys (two_pos shift) in
    let fits : value ys * 2 ^ shift < modulus ys =
      omega (arith, below, split, widest, power_modulus xs, modulus-length xs ys h) in
    let twice : 2 ^ bits ys * 2 ^ shift ≤ 2 * value ys * 2 ^ shift =
      mul-le-mul_right (2 ^ shift) low in
    record {
      num_words = record { words = v; width = refl };
      div_words = record { words = left.words; width = left.width ∙ sym h };
      pn_words = fill_zero-IsNumber xs;
      aligned = value-shift_left shift ys w ∙ mod-eq_of_lt fits;
      above = value-fill_zero xs ∙ omega arith;
      rest = omega (arith, above_xs, split, twice, doubled (value ys) shift);
    }

quotient_one : (x y q : ℕ) → 0 < y → q ≡ x / y → q ≡ (if y == 0 then 0 else x / y)
quotient_one x y q pos e = ground (arith, pos, e)

-- For numbers of 32-bit words and of one width, operator/= gives the quotient of the numbers, and 0
-- for the divisor 0.
pub value-divide :
    (xs ys : List ℕ)
    → length xs ≡ length ys
    → AreWords xs
    → AreWords ys
    → value (divide xs ys) ≡ (if value ys == 0 then 0 else value xs / value ys)
unfolding divide
value-divide xs ys h v w =
    let (above_ys, exact_ys) = bits_size ys w in
    let (above_xs, exact_xs) = bits_size xs v in
    elim exact_ys [
      | inl zero_bits ↦
          let none_left : value ys ≡ 0 = omega (arith, above_ys, ap (λ n. 2 ^ n) zero_bits) in
          rw (zero_bits, none_left, divide) (value-fill_zero xs)
      | inr low ↦
          let pos : 0 < value ys = omega (arith, low, two_pos (bits ys)) in
          let some_bits : (bits ys == 0) ≡ false = elim (Bool-cases (bits ys == 0)) [
            | inr e ↦ e
            | inl e ↦
                absurd (omega (arith, above_ys, ap (λ n. 2 ^ n) ((==_iff (bits ys) 0).0 e), pos))
          ] in
          elim (Bool-cases (ltb (bits xs) (bits ys))) [
            | inl fewer ↦
                let lt =
                  fewer_bits (bits xs) (bits ys) (value xs) (value ys)
                    (ltb→lt (bits xs) (bits ys) fewer) above_xs low in
                rw (some_bits, fewer, divide)
                  (quotient_one (value xs) (value ys) (value (fill_zero xs)) pos
                    (value-fill_zero xs ∙ sym (div-eq_of_lt lt)))
            | inr more ↦
                let le = ltb→le (bits xs) (bits ys) more in
                let shift = bits xs - bits ys in
                elim exact_xs [
                  | inl empty ↦ absurd (ground (arith, some_bits, empty, le))
                  | inr top ↦
                      let r = first-Round xs ys shift h v w (omega (arith, le)) low top in
                      let fit : suc shift ≤ 32 * length xs =
                        ground (arith, some_bits, le, bits_le xs v top) in
                      rw (some_bits, more, divide)
                        (quotient_one (value xs) (value ys)
                          (value (divide_loop (suc shift) xs (shift_left shift ys) (fill_zero xs)))
                          pos
                          (divide_loop_lem (length xs) (value ys) (suc shift) 0 xs
                              (shift_left shift ys) (fill_zero xs) pos fit r
                            ∙ omega (arith, value-fill_zero xs)))
                ]
          ]
    ]
