-- ===== src/Uint256/Compact/Parts.antt =====
-- GetCompact and SetCompact: the size and the digits of the compact form.
use Prim.Native.Nat.{bit_or}
use native.Mathlib.Nat.{
  div-lt_iff_lt-mul, div-div-eq-div-mul, pow-le-pow_right, mod-eq_of_lt, div-le_self,
}
use mamio.Base.{
  ℕ, zero, suc, length, ◌+◌, ◌-◌, ◌*◌, ◌/◌, ◌%◌, ◌^◌, ◌≤◌, ◌<◌, ◌≡◌, refl, ap, sym, ◌∙◌, inl, inr,
  true, false, List, [], ◌∷◌, leb, ◌==◌, if◌then◌else◌, arith, Bool-cases, leb→le,
}
use mamio.Base.Bits.{bit_or_over, bit_or-zero}
use mamio.Uint256.{set_uint64, fill_zero, bits}
use mamio.Uint256.Value.{value, modulus, AreWords, modulus-length}
use mamio.Uint256.Bits.{bits_size}
use mamio.Uint256.Shift.{shift_right}
use mamio.Uint256.Shift.Words.{two_word, two_pos}
use mamio.Uint256.Shift.Left.{value-shift_left}
use mamio.Uint256.Shift.Right.{value-shift_right}
use mamio.Uint256.Shift.Kept.{fill_zero-IsNumber, shift_right-IsNumber}
use mamio.Uint256.Divide.Quotient.{value-fill_zero}
use mamio.Uint256.Compact.{size_of, set_compact, get_low64, byte_size, digits_of, get_compact}

get_low64_lem :
    (xs : List ℕ) → AreWords xs → value xs < 2 ^ 64 → 2 ≤ length xs → get_low64 xs ≡ value xs
unfolding value
get_low64_lem [] w h l = absurd (omega arith)
get_low64_lem (x ∷ []) w h l = absurd (omega arith)
get_low64_lem (x ∷ y ∷ xs) w h l = bit_or_over 32 x y w.0 ∙ omega (arith, h)

pub value-set_uint64 :
    (b : ℕ) (xs : List ℕ) → b < 2 ^ 64 → 2 ≤ length xs → value (set_uint64 b xs) ≡ b
unfolding value set_uint64
value-set_uint64 b [] h l = absurd (omega arith)
value-set_uint64 b (x ∷ []) h l = absurd (omega arith)
value-set_uint64 b (x ∷ y ∷ xs) h l = omega (arith, value-fill_zero xs)

set_uint64-modulus :
    (b : ℕ) (xs : List ℕ)
    → AreWords xs
    → AreWords (set_uint64 b xs) × (modulus (set_uint64 b xs) ≡ modulus xs)
unfolding set_uint64 modulus
set_uint64-modulus b [] w = (tt, refl)
set_uint64-modulus b (x ∷ []) w = (w, refl)
set_uint64-modulus b (x ∷ y ∷ xs) w =
    let r = fill_zero-IsNumber xs in
    ((omega arith, (omega arith, r.words)), omega (arith, modulus-length (fill_zero xs) xs r.width))

-- The number that a size and a word stand for.
abbrev pub decoded : ℕ → ℕ → ℕ
decoded size word = if leb size 3 then word / 2 ^ (8 * (3 - size)) else word * 2 ^ (8 * (size - 3))

pub parts_of_compact :
    (size word : ℕ)
    → word < 2 ^ 23
    → (size_of (word + size * 2 ^ 24) ≡ size) × ((word + size * 2 ^ 24) % 2 ^ 23 ≡ word)
parts_of_compact size word h = (omega arith, omega arith)

-- SetCompact reads the number.
pub value-set_compact :
    (size word : ℕ) (xs : List ℕ)
    → word < 2 ^ 23
    → 2 ≤ length xs
    → AreWords xs
    → decoded size word < modulus xs
    → value (set_compact (word + size * 2 ^ 24) xs) ≡ decoded size word
unfolding set_compact
value-set_compact size word xs h l w fits =
    let (s, d) = parts_of_compact size word h in
    elim (Bool-cases (leb size 3)) [
      | inl low ↦
          let small : word / 2 ^ (8 * (3 - size)) < 2 ^ 64 =
            omega (arith, div-le_self word (2 ^ (8 * (3 - size))), h) in
          rw (set_compact, s, d, low) (value-set_uint64 (word / 2 ^ (8 * (3 - size))) xs small l)
      | inr high ↦
          let (words, same) = set_uint64-modulus word xs w in
          let e = value-set_uint64 word xs (omega (arith, h)) l in
          let less : word * 2 ^ (8 * (size - 3)) < modulus xs = ground (arith, fits, high) in
          rw (set_compact, s, d, high)
            (value-shift_left (8 * (size - 3)) (set_uint64 word xs) words
              ∙ ap (λ v. v * 2 ^ (8 * (size - 3)) % modulus (set_uint64 word xs)) e
              ∙ ap (λ m. word * 2 ^ (8 * (size - 3)) % m) same
              ∙ mod-eq_of_lt less)
    ]

-- The size and the word of GetCompact, from the digits that it has.
abbrev pub compact_size : ℕ → ℕ → ℕ
compact_size size digits = if digits / 2 ^ 23 % 2 == 1 then size + 1 else size

abbrev pub compact_word : ℕ → ℕ
compact_word digits = if digits / 2 ^ 23 % 2 == 1 then digits / 2 ^ 8 else digits

pub compact_word_lt : (digits : ℕ) → digits < 2 ^ 24 → compact_word digits < 2 ^ 23
compact_word_lt digits h = ground (arith, h)

pub get_compact_lem :
    (xs : List ℕ)
    → digits_of xs < 2 ^ 24
    → get_compact false xs
      ≡ compact_word (digits_of xs) + compact_size (byte_size xs) (digits_of xs) * 2 ^ 24
unfolding get_compact
get_compact_lem xs h =
    let word = compact_word (digits_of xs) in
    let size = compact_size (byte_size xs) (digits_of xs) in
    bit_or-zero (bit_or word (size * 2 ^ 24))
    ∙ bit_or_over 24 word size (omega (arith, compact_word_lt (digits_of xs) h))

-- A number of at most three bytes fits the word whole.
small_digits : (size v : ℕ) → size ≤ 3 → v < 2 ^ (8 * size) → v * 2 ^ (8 * (3 - size)) < 2 ^ 24
small_digits zero v le h = omega (arith, h)
small_digits (suc zero) v le h = omega (arith, h)
small_digits (suc (suc zero)) v le h = omega (arith, h)
small_digits (suc (suc (suc zero))) v le h = omega (arith, h)
small_digits (suc (suc (suc (suc n)))) v le h = absurd (omega arith)

small_decoded :
    (size v : ℕ)
    → size ≤ 3
    → v < 2 ^ (8 * size)
    → let d = v * 2 ^ (8 * (3 - size)) in
      let s = compact_size size d in
      decoded s (compact_word d) ≡ v / 2 ^ (8 * (s - 3)) * 2 ^ (8 * (s - 3))
small_decoded zero v le h = ground (arith, h)
small_decoded (suc zero) v le h = ground (arith, h)
small_decoded (suc (suc zero)) v le h = ground (arith, h)
small_decoded (suc (suc (suc zero))) v le h = ground (arith, h)
small_decoded (suc (suc (suc (suc n)))) v le h = absurd (omega arith)

large_decoded :
    (size v : ℕ)
    → 3 < size
    → let d = v / 2 ^ (8 * (size - 3)) in
      let s = compact_size size d in
      decoded s (compact_word d) ≡ v / 2 ^ (8 * (s - 3)) * 2 ^ (8 * (s - 3))
large_decoded size v gt =
    let k = 2 ^ (8 * (size - 3)) in
    let d = v / k in
    let high : leb size 3 ≡ false = ground (arith, gt) in
    let higher : leb (size + 1) 3 ≡ false = ground (arith, gt) in
    let next : k * 2 ^ 8 ≡ 2 ^ (8 * (size + 1 - 3)) =
      two_word (8 * (size - 3)) 8 ∙ ap (λ e. 2 ^ e) (omega (arith, gt)) in
    let part : d / 2 ^ 8 ≡ v / 2 ^ (8 * (size + 1 - 3)) =
      div-div-eq-div-mul v k (2 ^ 8) ∙ ap (λ p. v / p) next in
    elim (Bool-cases (d / 2 ^ 23 % 2 == 1)) [
      | inr plain ↦ rw (plain, high) refl
      | inl signed ↦ rw (signed, higher) (ap (λ q. q * 2 ^ (8 * (size + 1 - 3))) part)
    ]

byte_bound : (xs : List ℕ) → AreWords xs → value xs < 2 ^ (8 * byte_size xs)
byte_bound xs w =
    let (above, _) = bits_size xs w in
    omega (
      arith,
      above,
      pow-le-pow_right {n = 2} (omega arith) {i = bits xs} {j = 8 * byte_size xs} (omega arith),
    )

-- The digits that GetCompact has.
pub digits_small :
    (xs : List ℕ)
    → AreWords xs
    → 2 ≤ length xs
    → byte_size xs ≤ 3
    → digits_of xs ≡ value xs * 2 ^ (8 * (3 - byte_size xs))
unfolding digits_of
digits_small xs w l le =
    let bound = byte_bound xs w in
    let fit = small_digits (byte_size xs) (value xs) le bound in
    let three : value xs < 2 ^ 24 = omega (
      arith,
      bound,
      pow-le-pow_right {n = 2} (omega arith) {i = 8 * byte_size xs} {j = 24} (omega (arith, le)),
    ) in
    let low : leb (byte_size xs) 3 ≡ true = ground (arith, le) in
    let e = get_low64_lem xs w (omega (arith, three)) l in
    rw (digits_of, low)
      (ap (λ v. v * 2 ^ (8 * (3 - byte_size xs)) % 2 ^ 64 % 2 ^ 32) e ∙ omega (arith, fit))

pub digits_large :
    (xs : List ℕ)
    → AreWords xs
    → 2 ≤ length xs
    → 3 < byte_size xs
    → (digits_of xs ≡ value xs / 2 ^ (8 * (byte_size xs - 3))) × (digits_of xs < 2 ^ 24)
unfolding digits_of
digits_large xs w l gt =
    let shift = 8 * (byte_size xs - 3) in
    let bound = byte_bound xs w in
    let high : leb (byte_size xs) 3 ≡ false = ground (arith, gt) in
    let split : 2 ^ (8 * byte_size xs) ≡ 2 ^ 24 * 2 ^ shift =
      ap (λ e. 2 ^ e) (omega (arith, gt)) ∙ sym (two_word 24 shift) in
    let small : value xs / 2 ^ shift < 2 ^ 24 =
      (div-lt_iff_lt-mul (two_pos shift)).1 (omega (arith, bound, split)) in
    let r = shift_right-IsNumber shift xs w in
    let v = value-shift_right shift xs w in
    let e =
      get_low64_lem (shift_right shift xs) r.words (omega (arith, v, small))
        (omega (arith, r.width, l)) in
    let same : digits_of xs ≡ value xs / 2 ^ shift =
      rw (digits_of, high) (ap (λ n. n % 2 ^ 32) (e ∙ v) ∙ omega (arith, small)) in
    (same, omega (arith, same, small))

-- What a number is in its compact form: the parts of the word, and what they stand for.
pub compact_parts :
    (xs : List ℕ)
    → AreWords xs
    → 2 ≤ length xs
    → let s = compact_size (byte_size xs) (digits_of xs) in
      (digits_of xs < 2 ^ 24)
      × (decoded s (compact_word (digits_of xs)) ≡ value xs / 2 ^ (8 * (s - 3)) * 2 ^ (8 * (s - 3)))
compact_parts xs w l = elim (Bool-cases (leb (byte_size xs) 3)) [
  | inl low ↦
      let le = leb→le (byte_size xs) 3 low in
      let e = digits_small xs w l le in
      let bound = byte_bound xs w in
      (
        omega (arith, e, small_digits (byte_size xs) (value xs) le bound),
        rw e (small_decoded (byte_size xs) (value xs) le bound),
      )
  | inr high ↦
      let gt : 3 < byte_size xs = ground (arith, high) in
      let (e, small) = digits_large xs w l gt in
      (small, rw e (large_decoded (byte_size xs) (value xs) gt))
]
