-- ===== src/Base32/Groups.antt =====
-- The groups of Base32Encode and Base32Decode: eight characters for five bytes.
use Prim.Native.Nat.{bit_and, bit_and-bitwise}
use mathlib.Core.List.{append-nil, append_assoc}
use mamio.Base.{
  ℕ, zero, suc, ◌+◌, ◌*◌, ◌/◌, ◌%◌, ◌<◌, ◌≡◌, refl, ◌∙◌, List, [], ◌∷◌, ◌++◌, some, arith, length,
}
use mamio.Base32.{
  Bytes5, encode5, encode_loop, decode_index, decode_loop, digit_sum, digit_of, promote,
}
use mamio.Base32.Masks.{IsBytes, encode_index_lem, decode_index_lem, digit_of-symbol}

abbrev pub AllBytes : List ℕ → Type 0
AllBytes [] = Unit {0}
AllBytes (b ∷ bs) = (b < 256) × AllBytes bs

zero-bit_and : (b : ℕ) → bit_and 0 b ≡ 0
zero-bit_and b = bit_and-bitwise 0 b

-- The sum starts at 0, and `&=` keeps it there.
pub digit_sum-zero : (cs : List ℕ) → digit_sum 0 cs ≡ 0
unfolding digit_sum
digit_sum-zero [] = refl
digit_sum-zero (c ∷ cs) = rw (zero-bit_and (promote (digit_of c))) (digit_sum-zero cs)

abbrev pub byte_list : Bytes5 → List ℕ
byte_list m = m.b0 ∷ m.b1 ∷ m.b2 ∷ m.b3 ∷ m.b4 ∷ []

-- A group of eight characters is always taken, whatever they are.
pub decode_loop-group :
    (count c0 c1 c2 c3 c4 c5 c6 c7 : ℕ) (cs bytes : List ℕ)
    → decode_loop count cs ≡ some bytes
    → decode_loop (suc count) (c0 ∷ c1 ∷ c2 ∷ c3 ∷ c4 ∷ c5 ∷ c6 ∷ c7 ∷ cs)
      ≡ some (
          byte_list (
            decode_index
              (digit_of c0)
              (digit_of c1)
              (digit_of c2)
              (digit_of c3)
              (digit_of c4)
              (digit_of c5)
              (digit_of c6)
              (digit_of c7))
          ++ bytes)
unfolding decode_loop
decode_loop-group count c0 c1 c2 c3 c4 c5 c6 c7 cs bytes e =
    rw (digit_sum-zero (c0 ∷ c1 ∷ c2 ∷ c3 ∷ c4 ∷ c5 ∷ c6 ∷ c7 ∷ []), e) refl

-- The indices of five bytes are decoded to these.
decode_index-encode_index :
    (m : Bytes5)
    → IsBytes m
    → decode_index
        (m.b0 / 8)
        (m.b0 % 8 * 4 + m.b1 / 64)
        (m.b1 / 2 % 32)
        (m.b1 % 2 * 16 + m.b2 / 16)
        (m.b2 % 16 * 2 + m.b3 / 128)
        (m.b3 / 4 % 32)
        (m.b3 % 4 * 8 + m.b4 / 32)
        (m.b4 % 32)
      ≡ m
decode_index-encode_index m v =
    decode_index_lem _ _ _ _ _ _ _ _ (omega arith) (omega arith) (omega arith) (omega arith)
      (omega arith) (omega arith) (omega arith) (omega arith)
    ∙ (λ i. record { b0 = e0 i; b1 = e1 i; b2 = e2 i; b3 = e3 i; b4 = e4 i })
  where
    e0 : m.b0 / 8 % 32 * 8 + (m.b0 % 8 * 4 + m.b1 / 64) / 4 % 8 ≡ m.b0
    e0 = omega (arith, v.lt0, v.lt1)

    e1 :
        ((m.b0 % 8 * 4 + m.b1 / 64) % 4 * 32 + m.b1 / 2 % 32 % 32) * 2
          + (m.b1 % 2 * 16 + m.b2 / 16) / 16 % 2
        ≡ m.b1
    e1 = omega (arith, v.lt1, v.lt2)

    e2 : (m.b1 % 2 * 16 + m.b2 / 16) % 16 * 16 + (m.b2 % 16 * 2 + m.b3 / 128) / 2 % 16 ≡ m.b2
    e2 = omega (arith, v.lt2, v.lt3)

    e3 :
        ((m.b2 % 16 * 2 + m.b3 / 128) % 2 * 32 + m.b3 / 4 % 32 % 32) * 4
          + (m.b3 % 4 * 8 + m.b4 / 32) / 8 % 4
        ≡ m.b3
    e3 = omega (arith, v.lt3, v.lt4)

    e4 : (m.b3 % 4 * 8 + m.b4 / 32) % 8 * 32 + m.b4 % 32 % 32 ≡ m.b4
    e4 = omega (arith, v.lt4)

-- Eight characters that encode five bytes are decoded to these, in front of the rest.
decode_loop-encode5 :
    (count : ℕ) (m : Bytes5) (cs bytes : List ℕ)
    → IsBytes m
    → decode_loop count cs ≡ some bytes
    → decode_loop (suc count) (encode5 m ++ cs) ≡ some (byte_list m ++ bytes)
unfolding encode5
decode_loop-encode5 count m cs bytes v e = rw (encode_index_lem m v) (
    decode_loop-group count _ _ _ _ _ _ _ _ cs bytes e
    ∙ rw
        (
          digit_of-symbol (m.b0 / 8) (omega arith),
          digit_of-symbol (m.b0 % 8 * 4 + m.b1 / 64) (omega arith),
          digit_of-symbol (m.b1 / 2 % 32) (omega arith),
          digit_of-symbol (m.b1 % 2 * 16 + m.b2 / 16) (omega arith),
          digit_of-symbol (m.b2 % 16 * 2 + m.b3 / 128) (omega arith),
          digit_of-symbol (m.b3 / 4 % 32) (omega arith),
          digit_of-symbol (m.b3 % 4 * 8 + m.b4 / 32) (omega arith),
          digit_of-symbol (m.b4 % 32) (omega arith),
          decode_index-encode_index m v,
        )
        refl)

-- The loop over `count` groups, with two bytes of the message left for the tail.
pub decode_loop-encode_loop :
    (count : ℕ) (front : List ℕ) (rest : List ℕ) (tail : Bytes5)
    → length front ≡ count * 5
    → AllBytes front
    → IsBytes tail
    → decode_loop (suc count) (encode_loop count (front ++ rest) ++ encode5 tail)
      ≡ some (front ++ byte_list tail)
unfolding encode_loop decode_loop
decode_loop-encode_loop zero [] rest tail n v t =
    rw (append-nil (encode5 tail)) at (decode_loop-encode5 0 tail [] [] t refl)
decode_loop-encode_loop zero (b ∷ front) rest tail n v t = absurd (omega arith)
decode_loop-encode_loop (suc count) (b0 ∷ b1 ∷ b2 ∷ b3 ∷ b4 ∷ front) rest tail n v t =
    let m : Bytes5 = record { b0 = b0; b1 = b1; b2 = b2; b3 = b3; b4 = b4 } in
    let bytes : IsBytes m = omega arith in
    rw (append_assoc (encode5 m) (encode_loop count (front ++ rest)) (encode5 tail)) (
      decode_loop-encode5 (suc count) m _ (front ++ byte_list tail) bytes
        (decode_loop-encode_loop count front rest tail (omega arith) v.1.1.1.1.1 t))
decode_loop-encode_loop (suc count) _ rest tail n v t = absurd (omega arith)
