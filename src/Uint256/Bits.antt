-- ===== src/Uint256/Bits.antt =====
-- Bits() counts the bits of the number.
use mathlib.Core.List.{reverse}
use native.Mathlib.Nat.{div-lt_iff_lt-mul}
use mamio.Base.{
  ltb, ◌⊎◌, ℕ, zero, suc, ◌+◌, ◌*◌, ◌/◌, ◌%◌, ◌^◌, ◌≤◌, ◌<◌, ◌≡◌, refl, ap, ◌∙◌, inl, inr, List, [],
  ◌∷◌, arith, length, Bool-cases, ◌==◌,
}
use mamio.Uint256.{top_bit, bits_loop, bits}
use mamio.Uint256.Value.{value, modulus, AreWords}
use mamio.Uint256.Order.{high_value, high_value-lt, high_value-reverse, AreWords-reverse}

pow_pos : (n : ℕ) → 0 < 2 ^ n
pow_pos zero = omega arith
pow_pos (suc n) = omega (arith, pow_pos n)

pow_one : (n : ℕ) → 2 ^ (n + 1) ≡ 2 * 2 ^ n
pow_one n = ap (λ e. 2 ^ e) {x = n + 1} {y = suc n} (omega arith) ∙ omega arith

-- A quotient below 2 is odd exactly when the divisor fits.
half : (w p : ℕ) → 0 < p → w < 2 * p → ((w / p % 2 ≡ 1) × (p ≤ w)) ⊎ ((w / p % 2 ≡ 0) × (w < p))
half w p h l = elim (Bool-cases (ltb w p)) [
  | inl e ↦
      let q : w / p < 1 = (div-lt_iff_lt-mul h).1 (ground arith) in
      inr (omega (arith, q), ground arith)
  | inr e ↦
      let q : w / p < 2 = (div-lt_iff_lt-mul h).1 (omega arith) in
      let one : ¬ (w / p < 1) = λ z. ground (arith, (div-lt_iff_lt-mul h).0 z) in
      inl (omega (arith, q, one), ground arith)
]

-- The number of bits of a number that is not 0.
record IsTop (w b : ℕ) : Type 0 where
  high : w < 2 ^ b
  low : 2 ^ b ≤ 2 * w

top_bit-IsTop : (n w : ℕ) → 0 < w → w < 2 ^ (n + 1) → IsTop w (top_bit n w)
unfolding top_bit
top_bit-IsTop zero w pos h = record { high = omega arith; low = omega arith }
top_bit-IsTop (suc n) w pos h =
    elim (half w (2 ^ suc n) (pow_pos (suc n)) (omega (arith, h, pow_one (suc n)))) [
      | inl (e, l) ↦
          rw (e, top_bit)
            (record {
              high = omega (arith, h, pow_one (suc n));
              low = omega (arith, l, pow_one (suc n));
            })
      | inr (e, l) ↦ rw (e, top_bit) (top_bit-IsTop n w pos (omega (arith, l, pow_one n)))
    ]

pow_add : (m n : ℕ) → 2 ^ (m + n) ≡ 2 ^ m * 2 ^ n
pow_add zero n = ap (λ e. 2 ^ e) {x = 0 + n} {y = n} (omega arith) ∙ omega arith
pow_add (suc m) n =
    let q : 2 ^ suc m * 2 ^ n ≡ 2 * 2 ^ m * 2 ^ n =
      ap (λ k. k * 2 ^ n) {x = 2 ^ suc m} {y = 2 * 2 ^ m} (omega arith) in
    ap (λ e. 2 ^ e) {x = suc m + n} {y = m + n + 1} (omega arith)
    ∙ omega (arith, pow_add m n, pow_one (m + n), q)

modulus_pow : (xs : List ℕ) → modulus xs ≡ 2 ^ (32 * length xs)
unfolding modulus
modulus_pow [] = refl
modulus_pow (x ∷ xs) =
    let p : 2 ^ (32 * length (x ∷ xs)) ≡ 2 ^ 32 * 2 ^ (32 * length xs) =
      ap (λ e. 2 ^ e) {x = 32 * length (x ∷ xs)} {y = 32 + 32 * length xs} (omega arith)
      ∙ pow_add 32 (32 * length xs) in
    omega (arith, p, modulus_pow xs)

record Counted (v b : ℕ) : Type 0 where
  above : v < 2 ^ b
  exact : (b ≡ 0) ⊎ (2 ^ b ≤ 2 * v)

mul_le : (a b m : ℕ) → a ≤ b → a * m ≤ b * m
mul_le a b m h = grind arith

product : (a b m : ℕ) → m ≡ a → a * b ≡ b * m
product a b m h = rw h (omega arith)

bits_loop_lem : (xs : List ℕ) → AreWords xs → Counted (high_value xs) (bits_loop xs)
unfolding bits_loop high_value
bits_loop_lem [] w = record { above = omega arith; exact = inl refl }
bits_loop_lem (x ∷ xs) w = elim (Bool-cases (x == 0)) [
  | inl e ↦
      rw (e, bits_loop)
        (record {
          above = ground (arith, (bits_loop_lem xs w.1).above);
          exact = ground (arith, (bits_loop_lem xs w.1).exact);
        })
  | inr e ↦
      let t = top_bit-IsTop 31 x (ground arith) (omega (arith, w.0)) in
      let b : ℕ = top_bit 31 x in
      let m = modulus_pow xs in
      let p = pow_add (32 * length xs) b in
      let v = high_value-lt xs w.1 in
      let up : (x + 1) * modulus xs ≤ 2 ^ b * modulus xs =
        mul_le (x + 1) (2 ^ b) (modulus xs) (omega (arith, t.high)) in
      let down : 2 ^ b * modulus xs ≤ 2 * x * modulus xs =
        mul_le (2 ^ b) (2 * x) (modulus xs) t.low in
      let q : 2 ^ (32 * length xs + b) ≡ 2 ^ b * modulus xs =
        p ∙ product (2 ^ (32 * length xs)) (2 ^ b) (modulus xs) m in
      rw (e, bits_loop)
        (record { above = omega (arith, v, up, q); exact = inr (omega (arith, down, q)) })
]

-- For a number of 32-bit words, Bits() is the number of its bits: 2 to that power is above the
-- number, and at most twice the number unless the count is 0.
pub bits_size :
    (xs : List ℕ)
    → AreWords xs
    → (value xs < 2 ^ bits xs) × ((bits xs ≡ 0) ⊎ (2 ^ bits xs ≤ 2 * value xs))
unfolding bits
bits_size xs w =
    let c = bits_loop_lem (reverse xs) (AreWords-reverse xs w) in
    let e = high_value-reverse xs in (rw e at c.above, rw e at c.exact)
