-- ===== src/Base32.antt =====
-- src/crypto/base32.cpp: 32 bytes and their checksum as 56 characters of base 32. A string is the
-- list of its bytes. The entry -1 of the digit table is kept as its byte 255: the masks read the low
-- eight bits only. A character above 127 is looked up as an unsigned byte.
pub mod Masks
pub mod Groups
pub mod RoundTrip
pub mod Digits
use Prim.Native.Nat.{bit_and, bit_or}
use mamio.Base.{
  ℕ, zero, suc, ◌*◌, ◌/◌, ◌%◌, ◌^◌, List, [], ◌∷◌, ◌++◌, map, Option, none, some, ◌==◌,
  if◌then◌else◌, get_or, length, take,
}
use mathlib.Core.Option
use mamio.Crc24q.{crc24q}

unfoldable pub alphabet : List ℕ
alphabet =
    b'0' ∷ b'1' ∷ b'2' ∷ b'3' ∷ b'4' ∷ b'5' ∷ b'6' ∷ b'7' ∷ b'8' ∷ b'9' ∷ b'a' ∷ b'b' ∷ b'c' ∷ b'd'
    ∷ b'e' ∷ b'f' ∷ b'g' ∷ b'h' ∷ b'j' ∷ b'k' ∷ b'm' ∷ b'n' ∷ b'p' ∷ b'q' ∷ b'r' ∷ b's' ∷ b't'
    ∷ b'v' ∷ b'w' ∷ b'x' ∷ b'y' ∷ b'z' ∷ []

unfoldable pub digit : List ℕ
digit =
    255 ∷ 255 ∷ 255 ∷ 255 ∷ 255 ∷ 255 ∷ 255 ∷ 255 ∷ 255 ∷ 255 ∷ 255 ∷ 255 ∷ 255 ∷ 255 ∷ 255 ∷ 255
    ∷ 255 ∷ 255 ∷ 255 ∷ 255 ∷ 255 ∷ 255 ∷ 255 ∷ 255 ∷ 255 ∷ 255 ∷ 255 ∷ 255 ∷ 255 ∷ 255 ∷ 255 ∷ 255
    ∷ 255 ∷ 255 ∷ 255 ∷ 255 ∷ 255 ∷ 255 ∷ 255 ∷ 255 ∷ 255 ∷ 255 ∷ 255 ∷ 255 ∷ 255 ∷ 255 ∷ 255 ∷ 255
    ∷ 0 ∷ 1 ∷ 2 ∷ 3 ∷ 4 ∷ 5 ∷ 6 ∷ 7 ∷ 8 ∷ 9 ∷ 255 ∷ 255 ∷ 255 ∷ 255 ∷ 255 ∷ 255 ∷ 255 ∷ 10 ∷ 11 ∷ 12
    ∷ 13 ∷ 14 ∷ 15 ∷ 16 ∷ 17 ∷ 255 ∷ 18 ∷ 19 ∷ 255 ∷ 20 ∷ 21 ∷ 255 ∷ 22 ∷ 23 ∷ 24 ∷ 25 ∷ 26 ∷ 255
    ∷ 27 ∷ 28 ∷ 29 ∷ 30 ∷ 31 ∷ 255 ∷ 255 ∷ 255 ∷ 255 ∷ 255 ∷ 255 ∷ 10 ∷ 11 ∷ 12 ∷ 13 ∷ 14 ∷ 15 ∷ 16
    ∷ 17 ∷ 255 ∷ 18 ∷ 19 ∷ 255 ∷ 20 ∷ 21 ∷ 255 ∷ 22 ∷ 23 ∷ 24 ∷ 25 ∷ 26 ∷ 255 ∷ 27 ∷ 28 ∷ 29 ∷ 30
    ∷ 31 ∷ 255 ∷ 255 ∷ 255 ∷ 255 ∷ 255 ∷ 255 ∷ 255 ∷ 255 ∷ 255 ∷ 255 ∷ 255 ∷ 255 ∷ 255 ∷ 255 ∷ 255
    ∷ 255 ∷ 255 ∷ 255 ∷ 255 ∷ 255 ∷ 255 ∷ 255 ∷ 255 ∷ 255 ∷ 255 ∷ 255 ∷ 255 ∷ 255 ∷ 255 ∷ 255 ∷ 255
    ∷ 255 ∷ 255 ∷ 255 ∷ 255 ∷ 255 ∷ 255 ∷ 255 ∷ 255 ∷ 255 ∷ 255 ∷ 255 ∷ 255 ∷ 255 ∷ 255 ∷ 255 ∷ 255
    ∷ 255 ∷ 255 ∷ 255 ∷ 255 ∷ 255 ∷ 255 ∷ 255 ∷ 255 ∷ 255 ∷ 255 ∷ 255 ∷ 255 ∷ 255 ∷ 255 ∷ 255 ∷ 255
    ∷ 255 ∷ 255 ∷ 255 ∷ 255 ∷ 255 ∷ 255 ∷ 255 ∷ 255 ∷ 255 ∷ 255 ∷ 255 ∷ 255 ∷ 255 ∷ 255 ∷ 255 ∷ 255
    ∷ 255 ∷ 255 ∷ 255 ∷ 255 ∷ 255 ∷ 255 ∷ 255 ∷ 255 ∷ 255 ∷ 255 ∷ 255 ∷ 255 ∷ 255 ∷ 255 ∷ 255 ∷ 255
    ∷ 255 ∷ 255 ∷ 255 ∷ 255 ∷ 255 ∷ 255 ∷ 255 ∷ 255 ∷ 255 ∷ 255 ∷ 255 ∷ 255 ∷ 255 ∷ 255 ∷ 255 ∷ 255
    ∷ 255 ∷ 255 ∷ 255 ∷ 255 ∷ 255 ∷ 255 ∷ 255 ∷ 255 ∷ 255 ∷ 255 ∷ 255 ∷ 255 ∷ 255 ∷ 255 ∷ 255 ∷ 255
    ∷ 255 ∷ 255 ∷ 255 ∷ 255 ∷ 255 ∷ 255 ∷ []

pub record Bytes5 : Type 0 where
  pub b0 : ℕ
  pub b1 : ℕ
  pub b2 : ℕ
  pub b3 : ℕ
  pub b4 : ℕ

abbrev pub symbol : ℕ → ℕ
symbol k = get_or alphabet k 0

-- The indices into the alphabet of Base32Encode5Bytes.
unfoldable pub encode_index : Bytes5 → List ℕ
encode_index m =
    bit_and (m.b0 / 8) 0x1f
    ∷ bit_or (bit_and (m.b0 * 4) 0x1c) (bit_and (m.b1 / 64) 0x03)
    ∷ bit_and (m.b1 / 2) 0x1f
    ∷ bit_or (bit_and (m.b1 * 16) 0x10) (bit_and (m.b2 / 16) 0x0f)
    ∷ bit_or (bit_and (m.b2 * 2) 0x1e) (bit_and (m.b3 / 128) 0x01)
    ∷ bit_and (m.b3 / 4) 0x1f
    ∷ bit_or (bit_and (m.b3 * 8) 0x18) (bit_and (m.b4 / 32) 0x07)
    ∷ bit_and m.b4 0x1f
    ∷ []

unfoldable pub encode5 : Bytes5 → List ℕ
encode5 m = map symbol (encode_index m)

-- `count` rounds of the loop over five bytes each.
unfoldable pub encode_loop : ℕ → List ℕ → List ℕ
encode_loop (suc count) (b0 ∷ b1 ∷ b2 ∷ b3 ∷ b4 ∷ md) =
    encode5 (record { b0 = b0; b1 = b1; b2 = b2; b3 = b3; b4 = b4 }) ++ encode_loop count md
encode_loop _ _ = []

unfoldable pub tail5 : List ℕ → ℕ → Bytes5
tail5 md crc = record {
  b0 = get_or md 30 0;
  b1 = get_or md 31 0;
  b2 = crc / 2 ^ 16 % 256;
  b3 = crc / 2 ^ 8 % 256;
  b4 = crc % 256;
}

unfoldable pub base32_encode : List ℕ → List ℕ
base32_encode md = encode_loop 6 md ++ encode5 (tail5 md (crc24q md))

-- The five bytes that Base32Decode5Bytes makes of eight indices.
unfoldable pub decode_index : ℕ → ℕ → ℕ → ℕ → ℕ → ℕ → ℕ → ℕ → Bytes5
decode_index i0 i1 i2 i3 i4 i5 i6 i7 = record {
  b0 = bit_or (bit_and (i0 * 8) 0xf8) (bit_and (i1 / 4) 0x07);
  b1 = bit_or (bit_or (bit_and (i1 * 64) 0xc0) (bit_and (i2 * 2) 0x3e)) (bit_and (i3 / 16) 0x01);
  b2 = bit_or (bit_and (i3 * 16) 0xf0) (bit_and (i4 / 2) 0x0f);
  b3 = bit_or (bit_or (bit_and (i4 * 128) 0x80) (bit_and (i5 * 4) 0x7c)) (bit_and (i6 / 8) 0x03);
  b4 = bit_or (bit_and (i6 * 32) 0xe0) (bit_and i7 0x1f);
}

abbrev pub digit_of : ℕ → ℕ
digit_of c = get_or digit c 0

-- The int that a char of the digit table is promoted to: -1 has all 32 bits set.
abbrev pub promote : ℕ → ℕ
promote d = if d == 255 then 0xffff_ffff else d

-- `sum &= digit` for each character, from 0.
unfoldable pub digit_sum : ℕ → List ℕ → ℕ
digit_sum sum [] = sum
digit_sum sum (c ∷ cs) = digit_sum (bit_and sum (promote (digit_of c))) cs

-- `count` groups of eight characters; `none` is the first group whose test fails. A string that is
-- too short is never read: the caller has tested the size.
unfoldable pub decode_loop : ℕ → List ℕ → Option (List ℕ)
decode_loop (suc count) (c0 ∷ c1 ∷ c2 ∷ c3 ∷ c4 ∷ c5 ∷ c6 ∷ c7 ∷ cs) =
    let rest = decode_loop count cs in
    let m =
      decode_index (digit_of c0) (digit_of c1) (digit_of c2) (digit_of c3) (digit_of c4)
        (digit_of c5) (digit_of c6) (digit_of c7) in
    if digit_sum 0 (c0 ∷ c1 ∷ c2 ∷ c3 ∷ c4 ∷ c5 ∷ c6 ∷ c7 ∷ []) / 128 == 0
    then Option.map (λ bytes. m.b0 ∷ m.b1 ∷ m.b2 ∷ m.b3 ∷ m.b4 ∷ bytes) rest
    else none
decode_loop zero cs = some []
decode_loop (suc count) cs = none

abbrev pub check_crc : List ℕ → Option (List ℕ)
check_crc bytes = if crc24q bytes == 0 then some (take 32 bytes) else none

unfoldable pub base32_decode : List ℕ → Option (List ℕ)
base32_decode text =
    if length text == 56
    then elim (decode_loop 7 text) [ none ↦ none | some bytes ↦ check_crc bytes ]
    else none
