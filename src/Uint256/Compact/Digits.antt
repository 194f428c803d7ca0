-- ===== src/Uint256/Compact/Digits.antt =====
-- GetCompact and SetCompact: what a number keeps of itself.
use native.Mathlib.Nat.{div-lt_iff_lt-mul, le-div_iff_mul-le, pow-le-pow_right, div-mul-le_self}
use mamio.Base.{
  ℕ, length, ◌+◌, ◌-◌, ◌*◌, ◌/◌, ◌%◌, ◌^◌, ◌≤◌, ◌<◌, ◌≡◌, refl, ap, sym, ◌∙◌, inl, inr, true, false,
  List, leb, ◌==◌, ◌⊎◌, arith, Bool-cases, leb→le,
}
use mamio.Uint256.{bits}
use mamio.Uint256.Value.{value, modulus, AreWords, value-lt-modulus, modulus-length}
use mamio.Uint256.Bits.{bits_size}
use mamio.Uint256.Shift.Words.{two_word, two_pos}
use mamio.Uint256.Compact.{set_compact, byte_size, digits_of, get_compact}
use mamio.Uint256.Compact.Parts.{
  decoded, value-set_compact, compact_size, compact_word, compact_word_lt, get_compact_lem,
  digits_small, digits_large, compact_parts,
}

-- The highest digit's highest bit is set exactly when the bits fill the bytes.
compact_size_bits :
    (size bits d : ℕ)
    → d < 2 ^ 24
    → size ≡ (bits + 7) / 8
    → 3 ≤ size
    → (bits ≡ 8 * size → 2 ^ 23 ≤ d)
    → (bits < 8 * size → d < 2 ^ 23)
    → compact_size size d - 3 ≡ bits / 8 - 2
compact_size_bits size bits d small e le full unset = elim (Bool-cases (bits == 8 * size)) [
  | inl same ↦
      let p : bits ≡ 8 * size = ground (arith, same) in
      let high : 2 ^ 23 ≤ d = full p in
      let one : (d / 2 ^ 23 % 2 == 1) ≡ true = ground (arith, high, small) in
      rw one (omega (arith, p))
  | inr other ↦
      let lt : bits < 8 * size = ground (arith, other, e) in
      let low : d < 2 ^ 23 = unset lt in
      let none_set : (d / 2 ^ 23 % 2 == 1) ≡ false = ground (arith, low) in
      rw none_set (omega (arith, lt, e))
]

fill_bytes :
    (size bits v : ℕ)
    → bits ≡ 8 * size
    → 3 ≤ size
    → (bits ≡ 0) ⊎ (2 ^ bits ≤ 2 * v)
    → 2 ^ 23 * 2 ^ (8 * (size - 3)) ≤ v
fill_bytes size bits v e le (inl nothing) = absurd (omega (arith, e, le, nothing))
fill_bytes size bits v e le (inr exact) =
    let split : 2 ^ bits ≡ 2 ^ 24 * 2 ^ (8 * (size - 3)) =
      ap (λ n. 2 ^ n) (omega (arith, e, le)) ∙ sym (two_word 24 (8 * (size - 3))) in
    omega (arith, split, exact)

leave_bit :
    (size bits v : ℕ)
    → bits < 8 * size
    → 3 ≤ size
    → v < 2 ^ bits
    → v < 2 ^ 23 * 2 ^ (8 * (size - 3))
leave_bit size bits v lt le above =
    let more : 2 ^ bits ≤ 2 ^ (23 + 8 * (size - 3)) =
      pow-le-pow_right {n = 2} (omega arith) {i = bits} {j = 23 + 8 * (size - 3)}
        (omega (arith, lt, le)) in
    let split : 2 ^ 23 * 2 ^ (8 * (size - 3)) ≡ 2 ^ (23 + 8 * (size - 3)) =
      two_word 23 (8 * (size - 3)) in
    omega (arith, above, more, split)

-- The size that GetCompact writes, from the number of bits.
compact_size-bits :
    (xs : List ℕ)
    → AreWords xs
    → 2 ≤ length xs
    → compact_size (byte_size xs) (digits_of xs) - 3 ≡ bits xs / 8 - 2
compact_size-bits xs w l =
    let (above, exact) = bits_size xs w in
    let size = byte_size xs in
    let (small, _) = compact_parts xs w l in
    elim (Bool-cases (leb size 3)) [
      | inr high ↦
          let gt : 3 < size = ground (arith, high) in
          let p = two_pos (8 * (size - 3)) in
          let (e, _) = digits_large xs w l gt in
          compact_size_bits size (bits xs) (digits_of xs) small refl (omega (arith, gt))
            (λ full. omega (
              arith,
              e,
              (le-div_iff_mul-le p).1
                  (fill_bytes size (bits xs) (value xs) full (omega (arith, gt)) exact),
            ))
            (λ unset. omega (
              arith,
              e,
              (div-lt_iff_lt-mul p).1
                  (leave_bit size (bits xs) (value xs) unset (omega (arith, gt)) above),
            ))
      | inl low ↦
          let le = leb→le size 3 low in
          let e = digits_small xs w l le in
          elim (Bool-cases (size == 3)) [
            | inr fewer ↦
                let lt : size < 3 = ground (arith, le, fewer) in
                let at_most : compact_size size (digits_of xs) ≤ 3 = ground (arith, lt) in
                omega (arith, at_most, lt)
            | inl three ↦
                let is_three : size ≡ 3 = ground (arith, three) in
                let same : digits_of xs ≡ value xs = e ∙ rw is_three (omega arith) in
                let none_out : 2 ^ (8 * (size - 3)) ≡ 1 = rw is_three refl in
                compact_size_bits size (bits xs) (digits_of xs) small refl (omega (arith, is_three))
                  (λ full. omega (
                    arith,
                    same,
                    none_out,
                    fill_bytes size (bits xs) (value xs) full (omega (arith, is_three)) exact,
                  ))
                  (λ unset. omega (
                    arith,
                    same,
                    none_out,
                    leave_bit size (bits xs) (value xs) unset (omega (arith, is_three)) above,
                  ))
          ]
    ]

-- What the compact form keeps of a number of so many bits: all but its lowest bytes.
abbrev pub kept : ℕ → ℕ → ℕ
kept bits v = v / 2 ^ (8 * (bits / 8 - 2)) * 2 ^ (8 * (bits / 8 - 2))

-- For a number of at least two 32-bit words: what SetCompact reads, in a number of the same width,
-- from what GetCompact wrote is the number with its Bits() / 8 - 2 lowest bytes, if that is more
-- than none, set to 0. So the three highest bytes stay, or the two highest ones when the highest bit
-- of the highest byte is set.
pub value-set_compact-get_compact :
    (xs ys : List ℕ)
    → AreWords xs
    → AreWords ys
    → length xs ≡ length ys
    → 2 ≤ length xs
    → value (set_compact (get_compact false xs) ys) ≡ kept (bits xs) (value xs)
value-set_compact-get_compact xs ys w v h l =
    let (small, e) = compact_parts xs w l in
    let word = compact_word (digits_of xs) in
    let size = compact_size (byte_size xs) (digits_of xs) in
    let compact = get_compact_lem xs small in
    let lt = compact_word_lt (digits_of xs) small in
    let p = 2 ^ (8 * (size - 3)) in
    let fits : decoded size word < modulus ys =
      omega
        (arith, e, div-mul-le_self (value xs) p, value-lt-modulus xs w, modulus-length xs ys h) in
    let left_out = compact_size-bits xs w l in
    ap (λ c. value (set_compact c ys)) compact
    ∙ value-set_compact size word ys lt (omega (arith, l, h)) v fits
    ∙ e
    ∙ ap (λ k. value xs / 2 ^ (8 * k) * 2 ^ (8 * k)) left_out
