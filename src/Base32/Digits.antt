-- ===== src/Base32/Digits.antt =====
-- Base32Decode5Bytes collects its digits with `&=` from 0, so the test on the sum always passes: a
-- character that is no digit is read as the last one, 'z'.
use mathlib.Core.Option
use mamio.Base.{
  ℕ, zero, suc, ◌+◌, ◌*◌, ◌/◌, ◌%◌, ◌<◌, ◌≡◌, refl, sym, ap, ◌∙◌, List, [], ◌∷◌, ◌++◌, map, arith,
  length, if◌then◌else◌, ◌==◌,
}
use mamio.Base.Bytes.{every_below, eq_below}
use mamio.Base32.{decode_index, decode_loop, base32_decode, digit, digit_of}
use mamio.Base32.Masks.{decode_index_lem}
use mamio.Base32.Groups.{AllBytes, byte_list, digit_sum-zero}

-- The last digit in place of a character that is none.
abbrev pub as_digit : ℕ → ℕ
as_digit c = if digit_of c == 255 then b'z' else c

digit_low : (c : ℕ) → c < 256 → digit_of (as_digit c) % 32 ≡ digit_of c % 32
unfolding every_below digit
digit_low c lt = eq_below 256 (λ c. digit_of (as_digit c) % 32) (λ c. digit_of c % 32) c refl lt

digit_byte : (c : ℕ) → c < 256 → digit_of c / 256 ≡ 0
unfolding every_below digit
digit_byte c lt = eq_below 256 (λ c. digit_of c / 256) (λ c. 0) c refl lt

digit_as_byte : (c : ℕ) → c < 256 → digit_of (as_digit c) / 256 ≡ 0
unfolding every_below digit
digit_as_byte c lt = eq_below 256 (λ c. digit_of (as_digit c) / 256) (λ c. 0) c refl lt

-- Two digits that Base32Decode5Bytes cannot tell apart.
record Alike (i j : ℕ) : Type 0 where
  byte_left : i < 256
  byte_right : j < 256
  low : i % 32 ≡ j % 32

decode_index-eq :
    (i0 i1 i2 i3 i4 i5 i6 i7 j0 j1 j2 j3 j4 j5 j6 j7 : ℕ)
    → Alike i0 j0
    → Alike i1 j1
    → Alike i2 j2
    → Alike i3 j3
    → Alike i4 j4
    → Alike i5 j5
    → Alike i6 j6
    → Alike i7 j7
    → decode_index i0 i1 i2 i3 i4 i5 i6 i7 ≡ decode_index j0 j1 j2 j3 j4 j5 j6 j7
decode_index-eq i0 i1 i2 i3 i4 i5 i6 i7 j0 j1 j2 j3 j4 j5 j6 j7 a0 a1 a2 a3 a4 a5 a6 a7 =
    decode_index_lem i0 i1 i2 i3 i4 i5 i6 i7 a0.byte_left a1.byte_left a2.byte_left a3.byte_left
      a4.byte_left a5.byte_left a6.byte_left a7.byte_left
    ∙ (λ i. record { b0 = e0 i; b1 = e1 i; b2 = e2 i; b3 = e3 i; b4 = e4 i })
    ∙ sym (
        decode_index_lem j0 j1 j2 j3 j4 j5 j6 j7 a0.byte_right a1.byte_right a2.byte_right
          a3.byte_right a4.byte_right a5.byte_right a6.byte_right a7.byte_right)
  where
    e0 : i0 % 32 * 8 + i1 / 4 % 8 ≡ j0 % 32 * 8 + j1 / 4 % 8
    e0 = omega (arith, a0.low, a1.low)

    e1 : (i1 % 4 * 32 + i2 % 32) * 2 + i3 / 16 % 2 ≡ (j1 % 4 * 32 + j2 % 32) * 2 + j3 / 16 % 2
    e1 = omega (arith, a1.low, a2.low, a3.low)

    e2 : i3 % 16 * 16 + i4 / 2 % 16 ≡ j3 % 16 * 16 + j4 / 2 % 16
    e2 = omega (arith, a3.low, a4.low)

    e3 : (i4 % 2 * 32 + i5 % 32) * 4 + i6 / 8 % 4 ≡ (j4 % 2 * 32 + j5 % 32) * 4 + j6 / 8 % 4
    e3 = omega (arith, a4.low, a5.low, a6.low)

    e4 : i6 % 8 * 32 + i7 % 32 ≡ j6 % 8 * 32 + j7 % 32
    e4 = omega (arith, a6.low, a7.low)

as_digit-Alike : (c : ℕ) → c < 256 → Alike (digit_of (as_digit c)) (digit_of c)
as_digit-Alike c lt = record {
  byte_left = omega (arith, digit_as_byte c lt);
  byte_right = omega (arith, digit_byte c lt);
  low = digit_low c lt;
}

-- A group is always taken: the sum of its digits is 0.
decode_loop_step :
    (count c0 c1 c2 c3 c4 c5 c6 c7 : ℕ) (cs : List ℕ)
    → decode_loop (suc count) (c0 ∷ c1 ∷ c2 ∷ c3 ∷ c4 ∷ c5 ∷ c6 ∷ c7 ∷ cs)
      ≡ Option.map
          (λ bytes.
            byte_list (
              decode_index
                (digit_of c0)
                (digit_of c1)
                (digit_of c2)
                (digit_of c3)
                (digit_of c4)
                (digit_of c5)
                (digit_of c6)
                (digit_of c7))
            ++ bytes)
          (decode_loop count cs)
unfolding decode_loop
decode_loop_step count c0 c1 c2 c3 c4 c5 c6 c7 cs =
    rw (digit_sum-zero (c0 ∷ c1 ∷ c2 ∷ c3 ∷ c4 ∷ c5 ∷ c6 ∷ c7 ∷ [])) refl

decode_loop_digits :
    (count : ℕ) (cs : List ℕ)
    → AllBytes cs
    → decode_loop count (map as_digit cs) ≡ decode_loop count cs
unfolding decode_loop
decode_loop_digits (suc count) (c0 ∷ c1 ∷ c2 ∷ c3 ∷ c4 ∷ c5 ∷ c6 ∷ c7 ∷ cs) v =
    decode_loop_step count (as_digit c0) (as_digit c1) (as_digit c2) (as_digit c3) (as_digit c4)
      (as_digit c5) (as_digit c6) (as_digit c7) (map as_digit cs)
    ∙ rw
        (
          decode_loop_digits count cs v.1.1.1.1.1.1.1.1,
          decode_index-eq (digit_of (as_digit c0)) (digit_of (as_digit c1)) (digit_of (as_digit c2))
              (digit_of (as_digit c3)) (digit_of (as_digit c4)) (digit_of (as_digit c5))
              (digit_of (as_digit c6)) (digit_of (as_digit c7)) (digit_of c0) (digit_of c1)
              (digit_of c2) (digit_of c3) (digit_of c4) (digit_of c5) (digit_of c6) (digit_of c7)
              (as_digit-Alike c0 v.0) (as_digit-Alike c1 v.1.0) (as_digit-Alike c2 v.1.1.0)
              (as_digit-Alike c3 v.1.1.1.0) (as_digit-Alike c4 v.1.1.1.1.0)
              (as_digit-Alike c5 v.1.1.1.1.1.0) (as_digit-Alike c6 v.1.1.1.1.1.1.0)
              (as_digit-Alike c7 v.1.1.1.1.1.1.1.0),
        )
        refl
    ∙ sym (decode_loop_step count c0 c1 c2 c3 c4 c5 c6 c7 cs)
decode_loop_digits zero cs v = refl
decode_loop_digits (suc count) cs v = refl

length-map : (cs : List ℕ) → length (map as_digit cs) ≡ length cs
length-map [] = refl
length-map (c ∷ cs) = ap suc (length-map cs)

abbrev pub AllAscii : List ℕ → Type 0
AllAscii [] = Unit {0}
AllAscii (c ∷ cs) = (c < 128) × AllAscii cs

AllAscii-bytes : (cs : List ℕ) → AllAscii cs → AllBytes cs
AllAscii-bytes [] v = tt
AllAscii-bytes (c ∷ cs) v = (omega (arith, v.0), AllAscii-bytes cs v.1)

-- For a text of characters below 128: Base32Decode does not reject a character that the digit table
-- has no digit for, but gives what the text gives with 'z' in the place of each such character.
pub base32_decode_digits :
    (text : List ℕ) → AllAscii text → base32_decode (map as_digit text) ≡ base32_decode text
unfolding base32_decode
base32_decode_digits text v =
    rw (length-map text, decode_loop_digits 7 text (AllAscii-bytes text v)) refl
