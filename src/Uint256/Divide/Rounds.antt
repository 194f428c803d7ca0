-- ===== src/Uint256/Divide/Rounds.antt =====
-- operator/=: the rounds of its loop.
use native.Mathlib.Nat.{
  mul_assoc, mul_comm, add-mul, pow-le-pow_right, add-mul-div_left, div-eq_of_lt, pow-suc,
}
use mamio.Base.{
  ℕ, zero, suc, length, ◌+◌, ◌-◌, ◌*◌, ◌/◌, ◌%◌, ◌^◌, ◌≤◌, ◌<◌, ◌≡◌, refl, ap, sym, ◌∙◌, inl, inr,
  List, [], ◌∷◌, leb, arith, Bool-cases, leb→le,
}
use mamio.Uint256.{base, add_loop, add, subtract, negate}
use mamio.Uint256.Value.{
  value, modulus, AreWords, value-subtract, AreWords-add_loop, value-lt-modulus, mod_of,
  length-negate,
}
use mamio.Uint256.Order.{comparisons}
use mamio.Uint256.Shift.{or_at, shift_right}
use mamio.Uint256.Shift.Right.{value-shift_right}
use mamio.Uint256.Shift.Kept.{IsNumber, or_at-IsNumber, shift_right-IsNumber}
use mamio.Uint256.Divide.{divide_loop}
use mamio.Uint256.Divide.SetBit.{value-set_bit}

pub length-add_loop :
    (carry : ℕ) (xs ys : List ℕ) → length xs ≡ length ys → length (add_loop carry xs ys) ≡ length xs
unfolding add_loop
length-add_loop carry [] ys h = refl
length-add_loop carry (x ∷ xs) [] h = absurd (omega arith)
length-add_loop carry (x ∷ xs) (y ∷ ys) h =
    omega (arith, length-add_loop ((carry + x + y) / base) xs ys (omega arith))

-- A difference that does not wrap.
value-difference :
    (n : ℕ) (xs ys : List ℕ)
    → IsNumber n xs
    → IsNumber n ys
    → value ys ≤ value xs
    → value (subtract xs ys) + value ys ≡ value xs
value-difference n xs ys h k le =
    let e = value-subtract xs ys (h.width ∙ sym k.width) k.words in
    let lt = value-lt-modulus xs h.words in
    let d : value xs - value ys ≡ (value xs + (modulus xs - value ys)) % modulus xs =
      mod_of (value xs - value ys) 1 (modulus xs) (value xs + (modulus xs - value ys))
        (omega (arith, lt, le)) (omega (arith, lt)) in
    omega (arith, e, d, le)

pub subtract-IsNumber :
    (n : ℕ) (xs ys : List ℕ) → IsNumber n xs → IsNumber n ys → IsNumber n (subtract xs ys)
unfolding subtract add
subtract-IsNumber n xs ys h k = record {
  words = AreWords-add_loop 0 xs (negate ys);
  width =
      length-add_loop 0 xs (negate ys) (h.width ∙ sym k.width ∙ sym (length-negate ys)) ∙ h.width;
}

-- The divisor of a round, and nothing for no more rounds.
abbrev pub IsAligned : ℕ → ℕ → List ℕ → Type 0
IsAligned d zero div = Unit {0}
IsAligned d (suc s) div = value div ≡ d * 2 ^ s

pub record Round (n d rounds a : ℕ) (num div pn : List ℕ) : Type 0 where
  pub num_words : IsNumber n num
  pub div_words : IsNumber n div
  pub pn_words : IsNumber n pn
  pub aligned : IsAligned d rounds div
  pub above : value pn ≡ a * 2 ^ rounds
  pub rest : value num < d * 2 ^ rounds

halved :
    (d s : ℕ) (div : List ℕ)
    → AreWords div
    → value div ≡ d * 2 ^ s
    → IsAligned d s (shift_right 1 div)
halved d zero div w e = tt
halved d (suc s) div w e =
    let two : d * 2 ^ suc s ≡ 2 * (d * 2 ^ s) =
      ap (λ n. d * n) (pow-suc 2 s) ∙ sym (mul_assoc d (2 ^ s) 2) ∙ mul_comm (d * 2 ^ s) 2 in
    omega (arith, value-shift_right 1 div w, e, two)

pub doubled : (a s : ℕ) → a * 2 ^ suc s ≡ 2 * a * 2 ^ s
doubled a s =
    ap (λ n. a * n) (pow-suc 2 s)
    ∙ sym (mul_assoc a (2 ^ s) 2)
    ∙ mul_comm (a * 2 ^ s) 2
    ∙ sym (mul_assoc 2 a (2 ^ s))

pub shifted-IsNumber : (n : ℕ) (div : List ℕ) → IsNumber n div → IsNumber n (shift_right 1 div)
shifted-IsNumber n div k =
    let r = shift_right-IsNumber 1 div k.words in
    record { words = r.words; width = r.width ∙ k.width }

-- The round before one, where the divisor does not fit.
Round-without :
    (n d s a : ℕ) (num div pn : List ℕ)
    → Round n d (suc s) a num div pn
    → value num < value div
    → Round n d s (2 * a) num (shift_right 1 div) pn
Round-without n d s a num div pn r lt = record {
  num_words = r.num_words;
  div_words = shifted-IsNumber n div r.div_words;
  pn_words = r.pn_words;
  aligned = halved d s div r.div_words.words r.aligned;
  above = r.above ∙ doubled a s;
  rest = omega (arith, lt, r.aligned);
}

-- The round before one, where it does.
Round-with :
    (n d s a : ℕ) (num div pn : List ℕ)
    → suc s ≤ 32 * n
    → Round n d (suc s) a num div pn
    → value div ≤ value num
    → Round n d s
        (2 * a + 1)
        (subtract num div)
        (shift_right 1 div)
        (or_at (s / 32) (2 ^ (s % 32)) pn)
Round-with n d s a num div pn fit r le =
    let bit =
      value-set_bit s a pn (omega (arith, fit, r.pn_words.width)) r.pn_words.words r.above in
    let difference = value-difference n num div r.num_words r.div_words le in
    let odd : (2 * a + 1) * 2 ^ s ≡ 2 * a * 2 ^ s + 2 ^ s =
      add-mul (2 * a) 1 (2 ^ s) ∙ omega arith in
    let small : 2 ^ (s % 32) < base =
      omega (arith, pow-le-pow_right {n = 2} (omega arith) {i = s % 32} {j = 31} (omega arith)) in
    record {
      num_words = subtract-IsNumber n num div r.num_words r.div_words;
      div_words = shifted-IsNumber n div r.div_words;
      pn_words = or_at-IsNumber n (s / 32) (2 ^ (s % 32)) pn small r.pn_words;
      aligned = halved d s div r.div_words.words r.aligned;
      above = omega (arith, bit, r.above, doubled a s, odd);
      rest = omega (arith, difference, r.rest, r.aligned, doubled d s, mul_assoc 2 d (2 ^ s));
    }

pub divide_loop_lem :
    (n d rounds a : ℕ) (num div pn : List ℕ)
    → 0 < d
    → rounds ≤ 32 * n
    → Round n d rounds a num div pn
    → value (divide_loop rounds num div pn) ≡ value pn + value num / d
unfolding divide_loop
divide_loop_lem n d zero a num div pn pos fit r =
    let small : value num < d = omega (arith, r.rest) in omega (arith, div-eq_of_lt small)
divide_loop_lem n d (suc s) a num div pn pos fit r =
    let (_, _, _, compared) =
      comparisons num div (r.num_words.width ∙ sym r.div_words.width) r.num_words.words
        r.div_words.words in
    elim (Bool-cases (leb (value div) (value num))) [
      | inl le ↦
          let fits = leb→le (value div) (value num) le in
          let difference = value-difference n num div r.num_words r.div_words fits in
          let bit =
            value-set_bit s a pn (omega (arith, fit, r.pn_words.width)) r.pn_words.words r.above in
          let whole : (value (subtract num div) + d * 2 ^ s) / d ≡ value num / d =
            ap (λ v. v / d) {x = value (subtract num div) + d * 2 ^ s} {y = value num}
              (omega (arith, difference, r.aligned)) in
          rw (compared ∙ le, divide_loop)
            (divide_loop_lem n d s (2 * a + 1) (subtract num div) (shift_right 1 div)
                (or_at (s / 32) (2 ^ (s % 32)) pn) pos (omega (arith, fit))
                (Round-with n d s a num div pn fit r fits)
              ∙ omega (
                arith,
                bit,
                add-mul-div_left (value (subtract num div)) (2 ^ s) {y = d} pos,
                whole,
              ))
      | inr gt ↦
          rw (compared ∙ gt, divide_loop)
            (divide_loop_lem n d s (2 * a) num (shift_right 1 div) pn pos (omega (arith, fit))
              (Round-without n d s a num div pn r (ground (arith, gt))))
    ]
