-- ===== src/Base32/Masks.antt =====
-- The masks and shifts of src/crypto/base32.cpp as divisions and remainders.
use Prim.Native.Nat.{bit_and}
use mamio.Base.{ℕ, ◌+◌, ◌*◌, ◌/◌, ◌%◌, ◌<◌, ◌≡◌, refl, [], ◌∷◌, arith}
use mamio.Base.Bytes.{every_below, byte_eq, eq_below, bit_or-add}
use mamio.Base32.{Bytes5, encode_index, decode_index, alphabet, digit, symbol, digit_of}

-- A mask of a shifted byte, checked at every byte.
module _ (x : ℕ) (lt : x < 256) where
  and_8_1f : bit_and (x / 8) 0x1f ≡ x / 8
  unfolding every_below
  and_8_1f = byte_eq (λ x. bit_and (x / 8) 0x1f) (λ x. x / 8) x refl lt

  and_x4_1c : bit_and (x * 4) 0x1c ≡ x % 8 * 4
  unfolding every_below
  and_x4_1c = byte_eq (λ x. bit_and (x * 4) 0x1c) (λ x. x % 8 * 4) x refl lt

  and_64_03 : bit_and (x / 64) 0x03 ≡ x / 64
  unfolding every_below
  and_64_03 = byte_eq (λ x. bit_and (x / 64) 0x03) (λ x. x / 64) x refl lt

  and_2_1f : bit_and (x / 2) 0x1f ≡ x / 2 % 32
  unfolding every_below
  and_2_1f = byte_eq (λ x. bit_and (x / 2) 0x1f) (λ x. x / 2 % 32) x refl lt

  and_x16_10 : bit_and (x * 16) 0x10 ≡ x % 2 * 16
  unfolding every_below
  and_x16_10 = byte_eq (λ x. bit_and (x * 16) 0x10) (λ x. x % 2 * 16) x refl lt

  and_16_0f : bit_and (x / 16) 0x0f ≡ x / 16
  unfolding every_below
  and_16_0f = byte_eq (λ x. bit_and (x / 16) 0x0f) (λ x. x / 16) x refl lt

  and_x2_1e : bit_and (x * 2) 0x1e ≡ x % 16 * 2
  unfolding every_below
  and_x2_1e = byte_eq (λ x. bit_and (x * 2) 0x1e) (λ x. x % 16 * 2) x refl lt

  and_128_01 : bit_and (x / 128) 0x01 ≡ x / 128
  unfolding every_below
  and_128_01 = byte_eq (λ x. bit_and (x / 128) 0x01) (λ x. x / 128) x refl lt

  and_4_1f : bit_and (x / 4) 0x1f ≡ x / 4 % 32
  unfolding every_below
  and_4_1f = byte_eq (λ x. bit_and (x / 4) 0x1f) (λ x. x / 4 % 32) x refl lt

  and_x8_18 : bit_and (x * 8) 0x18 ≡ x % 4 * 8
  unfolding every_below
  and_x8_18 = byte_eq (λ x. bit_and (x * 8) 0x18) (λ x. x % 4 * 8) x refl lt

  and_32_07 : bit_and (x / 32) 0x07 ≡ x / 32
  unfolding every_below
  and_32_07 = byte_eq (λ x. bit_and (x / 32) 0x07) (λ x. x / 32) x refl lt

  and_1f : bit_and x 0x1f ≡ x % 32
  unfolding every_below
  and_1f = byte_eq (λ x. bit_and x 0x1f) (λ x. x % 32) x refl lt

  and_x8_f8 : bit_and (x * 8) 0xf8 ≡ x % 32 * 8
  unfolding every_below
  and_x8_f8 = byte_eq (λ x. bit_and (x * 8) 0xf8) (λ x. x % 32 * 8) x refl lt

  and_4_07 : bit_and (x / 4) 0x07 ≡ x / 4 % 8
  unfolding every_below
  and_4_07 = byte_eq (λ x. bit_and (x / 4) 0x07) (λ x. x / 4 % 8) x refl lt

  and_x64_c0 : bit_and (x * 64) 0xc0 ≡ x % 4 * 64
  unfolding every_below
  and_x64_c0 = byte_eq (λ x. bit_and (x * 64) 0xc0) (λ x. x % 4 * 64) x refl lt

  and_x2_3e : bit_and (x * 2) 0x3e ≡ x % 32 * 2
  unfolding every_below
  and_x2_3e = byte_eq (λ x. bit_and (x * 2) 0x3e) (λ x. x % 32 * 2) x refl lt

  and_16_01 : bit_and (x / 16) 0x01 ≡ x / 16 % 2
  unfolding every_below
  and_16_01 = byte_eq (λ x. bit_and (x / 16) 0x01) (λ x. x / 16 % 2) x refl lt

  and_x16_f0 : bit_and (x * 16) 0xf0 ≡ x % 16 * 16
  unfolding every_below
  and_x16_f0 = byte_eq (λ x. bit_and (x * 16) 0xf0) (λ x. x % 16 * 16) x refl lt

  and_2_0f : bit_and (x / 2) 0x0f ≡ x / 2 % 16
  unfolding every_below
  and_2_0f = byte_eq (λ x. bit_and (x / 2) 0x0f) (λ x. x / 2 % 16) x refl lt

  and_x128_80 : bit_and (x * 128) 0x80 ≡ x % 2 * 128
  unfolding every_below
  and_x128_80 = byte_eq (λ x. bit_and (x * 128) 0x80) (λ x. x % 2 * 128) x refl lt

  and_x4_7c : bit_and (x * 4) 0x7c ≡ x % 32 * 4
  unfolding every_below
  and_x4_7c = byte_eq (λ x. bit_and (x * 4) 0x7c) (λ x. x % 32 * 4) x refl lt

  and_8_03 : bit_and (x / 8) 0x03 ≡ x / 8 % 4
  unfolding every_below
  and_8_03 = byte_eq (λ x. bit_and (x / 8) 0x03) (λ x. x / 8 % 4) x refl lt

  and_x32_e0 : bit_and (x * 32) 0xe0 ≡ x % 8 * 32
  unfolding every_below
  and_x32_e0 = byte_eq (λ x. bit_and (x * 32) 0xe0) (λ x. x % 8 * 32) x refl lt

pub record IsBytes (m : Bytes5) : Type 0 where
  pub lt0 : m.b0 < 256
  pub lt1 : m.b1 < 256
  pub lt2 : m.b2 < 256
  pub lt3 : m.b3 < 256
  pub lt4 : m.b4 < 256

-- The indices, as the digits of the five bytes.
pub encode_index_lem :
    (m : Bytes5)
    → IsBytes m
    → encode_index m
      ≡ m.b0 / 8
        ∷ (m.b0 % 8 * 4 + m.b1 / 64)
        ∷ m.b1 / 2 % 32
        ∷ (m.b1 % 2 * 16 + m.b2 / 16)
        ∷ (m.b2 % 16 * 2 + m.b3 / 128)
        ∷ m.b3 / 4 % 32
        ∷ (m.b3 % 4 * 8 + m.b4 / 32)
        ∷ m.b4 % 32
        ∷ []
unfolding encode_index every_below
encode_index_lem m v =
    rw
      (
        and_8_1f m.b0 v.lt0,
        and_x4_1c m.b0 v.lt0,
        and_64_03 m.b1 v.lt1,
        and_2_1f m.b1 v.lt1,
        and_x16_10 m.b1 v.lt1,
        and_16_0f m.b2 v.lt2,
        and_x2_1e m.b2 v.lt2,
        and_128_01 m.b3 v.lt3,
        and_4_1f m.b3 v.lt3,
        and_x8_18 m.b3 v.lt3,
        and_32_07 m.b4 v.lt4,
        and_1f m.b4 v.lt4,
        bit_or-add 4 (m.b0 % 8) (m.b1 / 64) refl (omega (arith, v.lt1)) (omega (arith, v.lt1)),
        bit_or-add 16 (m.b1 % 2) (m.b2 / 16) refl (omega (arith, v.lt2)) (omega (arith, v.lt2)),
        bit_or-add 2 (m.b2 % 16) (m.b3 / 128) refl (omega (arith, v.lt3)) (omega (arith, v.lt3)),
        bit_or-add 8 (m.b3 % 4) (m.b4 / 32) refl (omega (arith, v.lt4)) (omega (arith, v.lt4)),
      )
      refl

-- The bytes, as the digits of the eight indices: only the low five bits of an index count.
pub decode_index_lem :
    (i0 i1 i2 i3 i4 i5 i6 i7 : ℕ)
    → i0 < 256
    → i1 < 256
    → i2 < 256
    → i3 < 256
    → i4 < 256
    → i5 < 256
    → i6 < 256
    → i7 < 256
    → decode_index i0 i1 i2 i3 i4 i5 i6 i7 ≡ record {
      b0 = i0 % 32 * 8 + i1 / 4 % 8;
      b1 = (i1 % 4 * 32 + i2 % 32) * 2 + i3 / 16 % 2;
      b2 = i3 % 16 * 16 + i4 / 2 % 16;
      b3 = (i4 % 2 * 32 + i5 % 32) * 4 + i6 / 8 % 4;
      b4 = i6 % 8 * 32 + i7 % 32;
    }
unfolding decode_index every_below
decode_index_lem i0 i1 i2 i3 i4 i5 i6 i7 l0 l1 l2 l3 l4 l5 l6 l7 =
    let join1 : i1 % 4 * 64 + i2 % 32 * 2 ≡ (i1 % 4 * 32 + i2 % 32) * 2 = omega arith in
    let join3 : i4 % 2 * 128 + i5 % 32 * 4 ≡ (i4 % 2 * 32 + i5 % 32) * 4 = omega arith in
    rw
      (
        and_x8_f8 i0 l0,
        and_4_07 i1 l1,
        and_x64_c0 i1 l1,
        and_x2_3e i2 l2,
        and_16_01 i3 l3,
        and_x16_f0 i3 l3,
        and_2_0f i4 l4,
        and_x128_80 i4 l4,
        and_x4_7c i5 l5,
        and_8_03 i6 l6,
        and_x32_e0 i6 l6,
        and_1f i7 l7,
        bit_or-add 8 (i0 % 32) (i1 / 4 % 8) refl (omega arith) (omega arith),
        bit_or-add 64 (i1 % 4) (i2 % 32 * 2) refl (omega arith) (omega arith),
        join1,
        bit_or-add 2 (i1 % 4 * 32 + i2 % 32) (i3 / 16 % 2) refl (omega arith) (omega arith),
        bit_or-add 16 (i3 % 16) (i4 / 2 % 16) refl (omega arith) (omega arith),
        bit_or-add 128 (i4 % 2) (i5 % 32 * 4) refl (omega arith) (omega arith),
        join3,
        bit_or-add 4 (i4 % 2 * 32 + i5 % 32) (i6 / 8 % 4) refl (omega arith) (omega arith),
        bit_or-add 32 (i6 % 8) (i7 % 32) refl (omega arith) (omega arith),
      )
      refl

pub digit_of-symbol : (k : ℕ) → k < 32 → digit_of (symbol k) ≡ k
unfolding every_below digit alphabet
digit_of-symbol k lt = eq_below 32 (λ k. digit_of (symbol k)) (λ k. k) k refl lt
