-- ===== src/Base32/RoundTrip.antt =====
-- Base32Decode takes back what Base32Encode wrote.
use mathlib.Core.List.{append_assoc}
use mamio.Base.{
  ℕ, zero, suc, ◌+◌, ◌*◌, ◌/◌, ◌%◌, ◌^◌, ◌≡◌, refl, sym, ap, subst, ◌∙◌, List, [], ◌∷◌, ◌++◌, some,
  arith, get_or, length, take, length-append,
}
use mamio.Crc24q.{crc24q}
use mamio.Crc24q.Append.{crc_bytes, crc24q-append}
use mamio.Base32.{
  Bytes5, encode_index, encode5, encode_loop, tail5, base32_encode, decode_loop, base32_decode,
}
use mamio.Base32.Groups.{AllBytes, decode_loop-encode_loop}

length-encode_loop :
    (count : ℕ) (front rest : List ℕ)
    → length front ≡ count * 5
    → length (encode_loop count (front ++ rest)) ≡ count * 8
unfolding encode_loop encode5 encode_index
length-encode_loop zero [] rest n = omega arith
length-encode_loop zero (b ∷ front) rest n = absurd (omega arith)
length-encode_loop (suc count) (b0 ∷ b1 ∷ b2 ∷ b3 ∷ b4 ∷ front) rest n =
    omega (arith, length-encode_loop count front rest (omega arith))
length-encode_loop (suc count) _ rest n = absurd (omega arith)

length-encode5 : (m : Bytes5) → length (encode5 m) ≡ 8
unfolding encode5 encode_index
length-encode5 m = refl

take-append : (n : ℕ) (xs ys : List ℕ) → length xs ≡ n → take n (xs ++ ys) ≡ xs
take-append zero [] ys h = refl
take-append zero (x ∷ xs) ys h = absurd (omega arith)
take-append (suc n) [] ys h = absurd (omega arith)
take-append (suc n) (x ∷ xs) ys h = rw (take-append n xs ys (omega arith))

get_or-append :
    (n : ℕ) (front : List ℕ) (a d : ℕ) (rest : List ℕ)
    → length front ≡ n
    → get_or (front ++ a ∷ rest) n d ≡ a
get_or-append zero [] a d rest h = refl
get_or-append zero (x ∷ front) a d rest h = absurd (omega arith)
get_or-append (suc n) [] a d rest h = absurd (omega arith)
get_or-append (suc n) (x ∷ front) a d rest h = get_or-append n front a d rest (omega arith)

get_or_next :
    (n : ℕ) (front : List ℕ) (a b d : ℕ)
    → length front ≡ n
    → get_or (front ++ a ∷ b ∷ []) (suc n) d ≡ b
get_or_next zero [] a b d h = refl
get_or_next zero (x ∷ front) a b d h = absurd (omega arith)
get_or_next (suc n) [] a b d h = absurd (omega arith)
get_or_next (suc n) (x ∷ front) a b d h = get_or_next n front a b d (omega arith)

AllBytes-append : (front rest : List ℕ) → AllBytes (front ++ rest) → AllBytes front × AllBytes rest
AllBytes-append [] rest v = (tt, v)
AllBytes-append (x ∷ front) rest v = let (f, r) = AllBytes-append front rest v.1 in ((v.0, f), r)

split_end :
    (n : ℕ) (md : List ℕ)
    → length md ≡ n + 2
    → (front : List ℕ) × (a : ℕ) × (b : ℕ) × (md ≡ front ++ a ∷ b ∷ []) × (length front ≡ n)
split_end n [] h = absurd (omega arith)
split_end n (a ∷ []) h = absurd (omega arith)
split_end zero (a ∷ b ∷ []) h = ([], a, b, refl, refl)
split_end zero (a ∷ b ∷ c ∷ md) h = absurd (omega arith)
split_end (suc n) (x ∷ y ∷ md) h =
    let (front, a, b, e, l) = split_end n (y ∷ md) (omega arith) in
    (x ∷ front, a, b, ap (◌∷◌ x) e, omega arith)

module _ (front : List ℕ) (a b : ℕ) (n : length front ≡ 30) where
  abbrev message : List ℕ
  message = front ++ a ∷ b ∷ []

  tail_of : ℕ → Bytes5
  tail_of crc = record {
    b0 = a;
    b1 = b;
    b2 = crc / 2 ^ 16 % 256;
    b3 = crc / 2 ^ 8 % 256;
    b4 = crc % 256;
  }

  tail5_lem : (crc : ℕ) → tail5 message crc ≡ tail_of crc
  unfolding tail5 tail_of
  tail5_lem crc =
      rw (get_or-append 30 front a 0 (b ∷ []) n) (rw (get_or_next 30 front a b 0 n) refl)

  text_size : (crc : ℕ) → length (encode_loop 6 message ++ encode5 (tail_of crc)) ≡ 56
  text_size crc = omega (
    arith,
    length-append (encode_loop 6 message) (encode5 (tail_of crc)),
    length-encode_loop 6 front (a ∷ b ∷ []) n,
    length-encode5 (tail_of crc),
  )

  decoded :
      AllBytes message
      → (crc : ℕ)
      → decode_loop 7 (encode_loop 6 message ++ encode5 (tail_of crc))
        ≡ some (message ++ crc_bytes crc)
  unfolding tail_of
  decoded v crc =
      let (f, r) = AllBytes-append front (a ∷ b ∷ []) v in
      decode_loop-encode_loop 6 front (a ∷ b ∷ []) (tail_of crc) n f (omega arith)
      ∙ ap some (sym (append_assoc front (a ∷ b ∷ []) (crc_bytes crc)))

  size : length message ≡ 32
  size = omega (arith, length-append front (a ∷ b ∷ []))

  base32_decode-message : AllBytes message → base32_decode (base32_encode message) ≡ some message
  unfolding base32_decode base32_encode
  base32_decode-message v =
      let crc : ℕ = crc24q message in
      rw (tail5_lem crc, text_size crc, decoded v crc, crc24q-append message)
        (ap some (take-append 32 message (crc_bytes crc) size))

-- A message of 32 bytes comes back from its base 32 text, with its checksum tested.
pub base32_decode-base32_encode :
    (md : List ℕ) → length md ≡ 32 → AllBytes md → base32_decode (base32_encode md) ≡ some md
base32_decode-base32_encode md n v =
    let (front, a, b, e, l) = split_end 30 md n in
    subst (λ m. AllBytes m → base32_decode (base32_encode m) ≡ some m) (sym e)
      (base32_decode-message front a b l) v
