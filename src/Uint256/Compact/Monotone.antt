-- ===== src/Uint256/Compact/Monotone.antt =====
-- The compact form keeps the order of numbers.
use native.Mathlib.Nat.{div-mul-le_self, le-div_iff_mul-le, pow-le-pow_right, mul-le-mul_right}
use mamio.Base.{
  ℕ, ◌+◌, ◌-◌, ◌*◌, ◌/◌, ◌^◌, ◌≤◌, ◌<◌, ◌≡◌, ◌⊎◌, inl, inr, List, ltb, ◌==◌, arith, Bool-cases,
}
use mamio.Uint256.{bits}
use mamio.Uint256.Value.{value, AreWords}
use mamio.Uint256.Bits.{bits_size}
use mamio.Uint256.Shift.Words.{two_word, two_pos}
use mamio.Uint256.Compact.Digits.{kept}

-- A number of so many bits, as Bits() counts them.
record HasBits (bits v : ℕ) : Type 0 where
  above : v < 2 ^ bits
  exact : (bits ≡ 0) ⊎ (2 ^ bits ≤ 2 * v)

power_mono : (m n : ℕ) → m ≤ n → 2 ^ m ≤ 2 ^ n
power_mono m n le = pow-le-pow_right {n = 2} (omega arith) {i = m} {j = n} le

bits_mono : (a u b v : ℕ) → HasBits a u → HasBits b v → u ≤ v → a ≤ b
bits_mono a u b v h k le = elim (Bool-cases (ltb b a)) [
  | inr fine ↦ ground (arith, fine)
  | inl less ↦
      let lt : b < a = ground (arith, less) in
      let one : 2 ^ b * 2 ^ 1 ≡ 2 ^ (b + 1) = two_word b 1 in
      elim h.exact [
        | inl nothing ↦ absurd (omega (arith, nothing, lt))
        | inr exact ↦
            absurd
              (omega (arith, one, exact, k.above, le, power_mono (b + 1) a (omega (arith, lt))))
      ]
]

-- Numbers that lose as many bytes.
same_bytes : (p u v : ℕ) → 0 < p → u ≤ v → u / p * p ≤ v / p * p
same_bytes p u v h le =
    mul-le-mul_right {m = u / p} {n = v / p} p
      ((le-div_iff_mul-le h).1 (omega (arith, div-mul-le_self u p, le)))

more_bytes : (a u b v : ℕ) → HasBits a u → HasBits b v → a / 8 - 2 < b / 8 - 2 → kept a u ≤ kept b v
more_bytes a u b v h k lt =
    let q = 8 * (b / 8 - 2) in
    let word : 2 ^ 15 * 2 ^ q ≡ 2 ^ (15 + q) = two_word 15 q in
    let one : 2 ^ (15 + q) * 2 ^ 1 ≡ 2 ^ (15 + q + 1) = two_word (15 + q) 1 in
    let low : 2 ^ a ≤ 2 ^ (15 + q) = power_mono a (15 + q) (omega (arith, lt)) in
    let high : 2 ^ (15 + q + 1) ≤ 2 ^ b = power_mono (15 + q + 1) b (omega (arith, lt)) in
    elim k.exact [
      | inl nothing ↦ absurd (omega (arith, nothing, lt))
      | inr exact ↦
          let digits : 2 ^ 15 ≤ v / 2 ^ q =
            (le-div_iff_mul-le (two_pos q)).1 (omega (arith, word, one, high, exact)) in
          let least : 2 ^ 15 * 2 ^ q ≤ kept b v =
            mul-le-mul_right {m = 2 ^ 15} {n = v / 2 ^ q} (2 ^ q) digits in
          omega (arith, least, word, low, h.above, div-mul-le_self u (2 ^ (8 * (a / 8 - 2))))
    ]

kept_mono : (a u b v : ℕ) → HasBits a u → HasBits b v → u ≤ v → kept a u ≤ kept b v
kept_mono a u b v h k le =
    let fewer = bits_mono a u b v h k le in
    elim (Bool-cases (a / 8 - 2 == b / 8 - 2)) [
      | inl same ↦
          let e : a / 8 - 2 ≡ b / 8 - 2 = ground (arith, same) in
          let r = same_bytes (2 ^ (8 * (b / 8 - 2))) u v (two_pos (8 * (b / 8 - 2))) le in rw e r
      | inr other ↦ more_bytes a u b v h k (ground (arith, other, fewer))
    ]

-- What the compact form keeps of the smaller of two numbers is at most what it keeps of the other.
pub kept-le :
    (xs ys : List ℕ)
    → AreWords xs
    → AreWords ys
    → value xs ≤ value ys
    → kept (bits xs) (value xs) ≤ kept (bits ys) (value ys)
kept-le xs ys v w le =
    let (above, exact) = bits_size xs v in
    let (above', exact') = bits_size ys w in
    kept_mono (bits xs) (value xs) (bits ys) (value ys) (record { above = above; exact = exact })
      (record { above = above'; exact = exact' }) le
