-- ===== src/Http/Percent.antt =====
-- What PercentDecode makes of what PercentEncode wrote.
use Prim.Native.Nat.{bit_or}
use mamio.Base.{
  ℕ, ◌/◌, ◌%◌, ◌<◌, ◌≡◌, refl, ap, sym, ◌∙◌, Bool, true, false, ◌||◌, List, [], ◌∷◌, ◌++◌, Option,
  none, some, leb, ◌==◌, if◌then◌else◌, get_or, arith, map, Bool-cases, inl, inr, ==_iff,
}
use mamio.Base.Bytes.{every_below, byte_eq}
use mamio.Base32.Groups.{AllBytes}
use mamio.Http.{
  hex_digits, is_plain, encode_char, percent_encode, from_hex, hex_pair, put_char, percent_decode,
}

abbrev or_256 : Option ℕ → ℕ
or_256 none = 256
or_256 (some v) = v

some_of_or_256 : (o : Option ℕ) (v : ℕ) → v < 256 → or_256 o ≡ v → o ≡ some v
some_of_or_256 none v h e = absurd (omega arith)
some_of_or_256 (some w) v h e = ap some e

-- What the escape of a byte reads as: one that ends in a decimal digit sets two bits more.
abbrev pub escape_reads : ℕ → ℕ
escape_reads c = if leb 10 (c % 16) then c else bit_or c 0x30

escape_table :
    every_below 256 (λ c.
      or_256 (hex_pair (get_or hex_digits (c / 16) 0) (get_or hex_digits (c % 16) 0))
      == escape_reads c)
    ≡ true
unfolding every_below hex_pair from_hex
escape_table = refl

small_table : every_below 256 (λ c. escape_reads c / 256 == 0) ≡ true
unfolding every_below
small_table = refl

escape_small : (c : ℕ) → c < 256 → escape_reads c < 256
escape_small c h =
    let e : escape_reads c / 256 ≡ 0 =
      byte_eq (λ c. escape_reads c / 256) (λ _. 0) c small_table h in
    omega (arith, e)

hex_pair_lem :
    (c : ℕ)
    → c < 256
    → hex_pair (get_or hex_digits (c / 16) 0) (get_or hex_digits (c % 16) 0) ≡ some (escape_reads c)
hex_pair_lem c h = some_of_or_256 _ (escape_reads c) (escape_small c h) (
    byte_eq (λ c. or_256 (hex_pair (get_or hex_digits (c / 16) 0) (get_or hex_digits (c % 16) 0)))
      escape_reads c escape_table h)

plain_step :
    (c : ℕ) (s : List ℕ)
    → c == b'%' ≡ false
    → percent_decode (c ∷ s) ≡ put_char (some (if c == b'+' then b' ' else c)) (percent_decode s)
unfolding percent_decode
plain_step c [] h = ground arith
plain_step c (x ∷ []) h = ground arith
plain_step c (x ∷ y ∷ s) h = ground arith

escape_step :
    (x y : ℕ) (s : List ℕ)
    → percent_decode (b'%' ∷ x ∷ y ∷ s) ≡ put_char (hex_pair x y) (percent_decode s)
unfolding percent_decode
escape_step x y s = refl

-- A character that passes a test is not one that fails it.
passes_ne : (test : ℕ → Bool) (c d : ℕ) → test d ≡ false → test c ≡ true → c == d ≡ false
passes_ne test c d h k = elim (Bool-cases (c == d)) [
  | inl e ↦ cc (ap test ((==_iff c d).0 e))
  | inr e ↦ e
]

module _ (is_alnum : ℕ → Bool) (ext : List ℕ) where
  -- What PercentDecode reads for a character that PercentEncode wrote.
  abbrev pub comes_back : ℕ → ℕ
  comes_back c = if is_plain is_alnum ext c || c == b' ' then c else escape_reads c

  decode-encode_char :
      (c : ℕ) (s : List ℕ)
      → is_plain is_alnum ext b'%' ≡ false
      → is_plain is_alnum ext b'+' ≡ false
      → c < 256
      → percent_decode (encode_char is_alnum ext c ++ s)
        ≡ put_char (some (comes_back c)) (percent_decode s)
  unfolding encode_char
  decode-encode_char c s p q h = elim (Bool-cases (is_plain is_alnum ext c)) [
    | inl plain ↦
        let percent = passes_ne (is_plain is_alnum ext) c b'%' p plain in
        let plus = passes_ne (is_plain is_alnum ext) c b'+' q plain in
        rw (plain, encode_char) (plain_step c s percent ∙ rw plus refl)
    | inr coded ↦ elim (Bool-cases (c == b' ')) [
      | inl blank ↦
          rw (coded, encode_char)
            (rw (blank, encode_char)
              (plain_step b'+' s refl
                ∙ ap (λ d. put_char (some d) (percent_decode s)) (sym ((==_iff c b' ').0 blank))))
      | inr other ↦
          rw (coded, encode_char)
            (rw (other, encode_char)
              (escape_step _ _ s ∙ ap (λ o. put_char o (percent_decode s)) (hex_pair_lem c h)))
    ]
  ]

  -- PercentDecode of what PercentEncode wrote succeeds, and gives the bytes of the text, but for the
  -- characters that were escaped with a last hexadecimal digit below 10: those come back with the
  -- bits 0x30 set. The text is one of bytes, and neither '%' nor '+' is written as itself.
  pub percent_decode-percent_encode :
      (s : List ℕ)
      → is_plain is_alnum ext b'%' ≡ false
      → is_plain is_alnum ext b'+' ≡ false
      → AllBytes s
      → percent_decode (percent_encode is_alnum ext s) ≡ some (map comes_back s)
  unfolding percent_encode percent_decode
  percent_decode-percent_encode [] p q v = refl
  percent_decode-percent_encode (c ∷ s) p q v =
      decode-encode_char c (percent_encode is_alnum ext s) p q v.0
      ∙ ap (put_char (some (comes_back c))) (percent_decode-percent_encode s p q v.1)
