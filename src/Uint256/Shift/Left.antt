-- ===== src/Uint256/Shift/Left.antt =====
-- operator<<= multiplies by a power of two.
use Prim.Native.Nat.{bit_or}
use mamio.Base.{
  ℕ, zero, suc, length, ◌+◌, ◌-◌, ◌*◌, ◌/◌, ◌%◌, ◌^◌, ◌≤◌, ◌<◌, ◌≡◌, refl, ap, sym, ◌∙◌, true,
  false, not, ◌&&◌, List, [], ◌∷◌, ltb, ◌==◌, arith, Bool-cases, inl, inr, ==_iff,
}
use native.Mathlib.Nat.{mul_assoc, mul_comm, pow-suc, pow-le-pow_right, mod-eq_of_lt}
use mamio.Base.Bits.{bit_or_over, zero-bit_or}
use mamio.Uint256.{base, fill_zero}
use mamio.Uint256.Value.{value, modulus, AreWords}
use mamio.Uint256.Shift.{or_at, left_round, left_loop, shift_left}
use mamio.Uint256.Shift.Words.{
  two_pos, word_parts, mod_parts, words_sum, one_word, base_pos, modulus-power, two_power,
}

-- A word in front of all positions that a round writes to stays.
left_round_behind :
    (i k j l shift width a x : ℕ) (pn : List ℕ)
    → i + k ≡ suc (j + l)
    → left_round k shift (suc width) i a (x ∷ pn) ≡ x ∷ left_round l shift width j a pn
unfolding left_round or_at
left_round_behind i k j l shift width a x pn h =
    let e : i + k + 1 ≡ suc (j + l + 1) = omega (arith, h) in
    let here : ltb (suc (j + l)) (suc width) ≡ ltb (j + l) width = ground arith in
    let next : ltb (suc (j + l + 1)) (suc width) ≡ ltb (j + l + 1) width = ground arith in
    rw (left_round, e, h, here, next)
      (elim (Bool-cases (ltb (j + l + 1) width && not (shift == 0))) [
        | inl fits ↦ elim (Bool-cases (ltb (j + l) width)) [
          | inl fits_too ↦ rw (fits, fits_too) refl
          | inr out ↦ rw (fits, out) refl
        ]
        | inr out ↦ elim (Bool-cases (ltb (j + l) width)) [
          | inl fits ↦ rw (out, fits) refl
          | inr out_too ↦ rw (out, out_too) refl
        ]
      ])

left_loop_behind :
    (i k j l shift width x : ℕ) (words pn : List ℕ)
    → i + k ≡ suc (j + l)
    → left_loop k shift (suc width) i words (x ∷ pn) ≡ x ∷ left_loop l shift width j words pn
unfolding left_loop
left_loop_behind i k j l shift width x [] pn h = refl
left_loop_behind i k j l shift width x (a ∷ words) pn h =
    ap (left_loop k shift (suc width) (i + 1) words)
      (left_round_behind i k j l shift width a x pn h)
    ∙ left_loop_behind (i + 1) k (j + 1) l shift width x words _ (omega (arith, h))

left_loop_nil : (i k shift : ℕ) (words : List ℕ) → left_loop k shift 0 i words [] ≡ []
unfolding left_loop left_round
left_loop_nil i k shift [] = refl
left_loop_nil i k shift (a ∷ words) =
    let out : ltb (i + k) 0 ≡ false = ground arith in
    let out_too : ltb (i + k + 1) 0 ≡ false = ground arith in
    rw (out, out_too) (left_loop_nil (i + 1) k shift words)

abbrev pub zeros : ℕ → List ℕ
zeros zero = []
zeros (suc n) = 0 ∷ zeros n

-- What the first round leaves behind the first word.
abbrev next_words : ℕ → ℕ → ℕ → List ℕ
next_words s a zero = []
next_words s a (suc n) = a / 2 ^ (32 - s) ∷ zeros n

left_first :
    (s a c n : ℕ)
    → s < 32
    → a < base
    → c < 2 ^ s
    → left_round 0 s (suc n) 0 a (c ∷ zeros n) ≡ (c + a % 2 ^ (32 - s) * 2 ^ s) ∷ next_words s a n
unfolding left_round or_at
left_first s a c zero h w carry =
    let (e, _, _, _) = word_parts s a c (omega arith) w carry in
    ap (λ v. v ∷ []) (ap (bit_or c) e ∙ bit_or_over s c (a % 2 ^ (32 - s)) carry)
left_first s a c (suc n) h w carry =
    let (e, _, _, _) = word_parts s a c (omega arith) w carry in
    let low = ap (bit_or c) e ∙ bit_or_over s c (a % 2 ^ (32 - s)) carry in
    let fits : ltb 1 (suc (suc n)) ≡ true = ground arith in
    let first : ltb 0 (suc (suc n)) ≡ true = ground arith in
    elim (Bool-cases (s == 0)) [
      | inl none_left ↦
          let z : s ≡ 0 = (==_iff s 0).0 none_left in
          let nothing : a / 2 ^ (32 - s) ≡ 0 = ap (λ n. a / 2 ^ (32 - n)) z ∙ omega arith in
          rw (left_round, fits, first, none_left, nothing) (ap (λ v. v ∷ 0 ∷ zeros n) low)
      | inr some_left ↦
          rw (left_round, fits, first, some_left)
            (ap (λ v. v ∷ bit_or 0 (a / 2 ^ (32 - s)) ∷ zeros n) low
              ∙ ap (λ v. (c + a % 2 ^ (32 - s) * 2 ^ s) ∷ v ∷ zeros n)
                  (zero-bit_or (a / 2 ^ (32 - s))))
    ]

pub value-zeros : (n : ℕ) → value (zeros n) ≡ 0
unfolding value
value-zeros zero = refl
value-zeros (suc n) = omega (arith, value-zeros n)

-- The loop on a number whose first word is what the word before left over.
value-left_loop :
    (s n c : ℕ) (words : List ℕ)
    → s < 32
    → c < 2 ^ s
    → AreWords words
    → value (left_loop 0 s (suc n) 0 words (c ∷ zeros n)) ≡ (c + value words * 2 ^ s) % base ^ suc n
unfolding value left_loop
value-left_loop s n c [] h carry ws =
    let small : 2 ^ s ≤ 2 ^ 32 =
      pow-le-pow_right {n = 2} (omega arith) {i = s} {j = 32} (omega arith) in
    let fits : c < base ^ suc n = omega (arith, base_pos n, pow-suc base n, small) in
    omega (arith, value-zeros n)
    ∙ sym (mod-eq_of_lt fits)
    ∙ ap (λ v. v % base ^ suc n) (omega arith)
value-left_loop s zero c (a ∷ words) h carry ws =
    let (_, sum, small, _) = word_parts s a c (omega arith) ws.0 carry in
    let low = c + a % 2 ^ (32 - s) * 2 ^ s in
    let hi = a / 2 ^ (32 - s) in
    let step =
      ap (left_loop 0 s 1 1 words) (left_first s a c zero h ws.0 carry)
      ∙ left_loop_behind 1 0 0 0 s 0 low words [] refl
      ∙ ap (λ t. low ∷ t) (left_loop_nil 0 0 s words) in
    let all = words_sum a c (value words) (2 ^ s) low hi sum in
    ap value step ∙ one_word low (hi + value words * 2 ^ s) small ∙ ap (λ v. v % base) (sym all)
value-left_loop s (suc n) c (a ∷ words) h carry ws =
    let (_, sum, small, next) = word_parts s a c (omega arith) ws.0 carry in
    let low = c + a % 2 ^ (32 - s) * 2 ^ s in
    let hi = a / 2 ^ (32 - s) in
    let step =
      ap (left_loop 0 s (suc (suc n)) 1 words) (left_first s a c (suc n) h ws.0 carry)
      ∙ left_loop_behind 1 0 0 0 s (suc n) low words (hi ∷ zeros n) refl in
    let rest = value-left_loop s n hi words h next ws.1 in
    let all = words_sum a c (value words) (2 ^ s) low hi sum in
    let y = hi + value words * 2 ^ s in
    ap value step
    ∙ ap (λ v. low + base * v) rest
    ∙ mod_parts low y (base ^ suc n) small (base_pos (suc n))
    ∙ ap (λ m. (low + base * y) % m) (sym (pow-suc base (suc n)))
    ∙ ap (λ v. v % base ^ suc (suc n)) (sym all)

-- The loop with an offset of k words.
value-left_offset :
    (s k n : ℕ) (words : List ℕ)
    → s < 32
    → AreWords words
    → value (left_loop k s n 0 words (zeros n)) ≡ value words * 2 ^ s * base ^ k % base ^ n
unfolding value
value-left_offset s k zero words h ws = ap value (left_loop_nil 0 k s words) ∙ omega arith
value-left_offset s zero (suc n) words h ws =
    value-left_loop s n 0 words h (two_pos s) ws ∙ ap (λ v. v % base ^ suc n) (omega arith)
value-left_offset s (suc k) (suc n) words h ws =
    let y = value words * 2 ^ s * base ^ k in
    let e : base * y ≡ value words * 2 ^ s * base ^ suc k =
      mul_comm base y
      ∙ mul_assoc (value words * 2 ^ s) (base ^ k) base
      ∙ ap (λ m. value words * 2 ^ s * m) (sym (pow-suc base k)) in
    ap value (left_loop_behind 0 (suc k) 0 k s n 0 words (zeros n) (omega arith))
    ∙ ap (λ v. 0 + base * v) (value-left_offset s k n words h ws)
    ∙ mod_parts 0 y (base ^ n) (omega arith) (base_pos n)
    ∙ ap (λ m. (0 + base * y) % m) (sym (pow-suc base n))
    ∙ ap (λ v. v % base ^ suc n) (omega (arith, e))

pub fill_zero-zeros : (xs : List ℕ) → fill_zero xs ≡ zeros (length xs)
unfolding fill_zero
fill_zero-zeros [] = refl
fill_zero-zeros (x ∷ xs) = ap (λ t. 0 ∷ t) (fill_zero-zeros xs)

-- operator<<= multiplies by 2 ^ shift modulo 2 ^ BITS.
pub value-shift_left :
    (shift : ℕ) (xs : List ℕ)
    → AreWords xs
    → value (shift_left shift xs) ≡ value xs * 2 ^ shift % modulus xs
unfolding shift_left
value-shift_left shift xs ws =
    let s = shift % 32 in
    let k = shift / 32 in
    let power : value xs * 2 ^ s * base ^ k ≡ value xs * 2 ^ shift =
      mul_assoc (value xs) (2 ^ s) (base ^ k)
      ∙ ap (λ v. value xs * v) (two_power s k ∙ ap (λ e. 2 ^ e) (omega arith)) in
    ap (λ pn. value (left_loop k s (length xs) 0 xs pn)) (fill_zero-zeros xs)
    ∙ value-left_offset s k (length xs) xs (omega arith) ws
    ∙ ap (λ v. v % base ^ length xs) power
    ∙ ap (λ m. value xs * 2 ^ shift % m) (sym (modulus-power xs))
