-- ===== src/Uint256/Shift/Right.antt =====
-- operator>>= divides by a power of two.
use Prim.Native.Nat.{bit_or}
use native.Mathlib.Nat.{
  div-div-eq-div-mul, add-mul-div_right, zero-div, mul_comm, mul_assoc, pow-suc,
}
use mamio.Base.{
  ℕ, zero, suc, length, ◌+◌, ◌-◌, ◌*◌, ◌/◌, ◌%◌, ◌^◌, ◌≤◌, ◌<◌, ◌≡◌, refl, ap, sym, ◌∙◌, true,
  false, List, [], ◌∷◌, leb, ◌==◌, arith, Bool-cases, inl, inr, ==_iff,
}
use mamio.Base.Bits.{bit_or_over, zero-bit_or}
use mamio.Uint256.{base}
use mamio.Uint256.Value.{value, AreWords}
use mamio.Uint256.Shift.{or_at, right_round, right_loop, shift_right}
use mamio.Uint256.Shift.Words.{two_pos, word_parts, words_sum, two_word, two_power}
use mamio.Uint256.Shift.Left.{zeros, value-zeros, fill_zero-zeros}

-- A word in front of all positions that a round writes to stays.
right_round_behind :
    (shift i a x : ℕ) (pn : List ℕ)
    → 1 ≤ i
    → right_round 0 shift (suc i) a (x ∷ pn) ≡ x ∷ right_round 0 shift i a pn
unfolding right_round or_at
right_round_behind shift i a x pn h =
    let here : leb 0 (suc i) ≡ true = ground arith in
    let here_too : leb 0 i ≡ true = ground arith in
    let low : leb 1 (suc i) ≡ true = ground arith in
    let low_too : leb 1 i ≡ true = ground arith in
    let p : suc i - 0 - 1 ≡ suc (i - 0 - 1) = omega arith in
    let q : suc i - 0 ≡ suc (i - 0) = omega arith in
    elim (Bool-cases (shift == 0)) [
      | inl none_left ↦ rw (right_round, here, here_too, low, low_too, p, q, none_left) refl
      | inr some_left ↦ rw (right_round, here, here_too, low, low_too, p, q, some_left) refl
    ]

right_loop_behind :
    (shift i x : ℕ) (words pn : List ℕ)
    → 1 ≤ i
    → right_loop 0 shift (suc i) words (x ∷ pn) ≡ x ∷ right_loop 0 shift i words pn
unfolding right_loop
right_loop_behind shift i x [] pn h = refl
right_loop_behind shift i x (a ∷ words) pn h =
    ap (right_loop 0 shift (suc i + 1) words) (right_round_behind shift i a x pn h)
    ∙ ap (λ j. right_loop 0 shift j words (x ∷ right_round 0 shift i a pn)) (omega arith)
    ∙ right_loop_behind shift (i + 1) x words _ (omega arith)

-- The second round of the loop: the low digits of its word go into the first word.
right_second :
    (s b x m : ℕ)
    → s < 32
    → b < base
    → x < 2 ^ (32 - s)
    → right_round 0 s 1 b (x ∷ zeros (suc m)) ≡ (x + b % 2 ^ s * 2 ^ (32 - s)) ∷ b / 2 ^ s ∷ zeros m
unfolding right_round or_at
right_second s b x m h w carry =
    let back : 32 - (32 - s) ≡ s = omega arith in
    let (e, _, _, _) = rw back at (word_parts (32 - s) b x (omega arith) w carry) in
    let low = ap (bit_or x) e ∙ bit_or_over (32 - s) x (b % 2 ^ s) carry in
    elim (Bool-cases (s == 0)) [
      | inl none_left ↦
          let z : s ≡ 0 = (==_iff s 0).0 none_left in
          let nothing : b % 2 ^ s * 2 ^ (32 - s) ≡ 0 =
            ap (λ n. b % 2 ^ n * 2 ^ (32 - n)) z ∙ omega arith in
          rw (right_round, none_left, nothing)
            (ap (λ v. v ∷ bit_or 0 (b / 2 ^ s) ∷ zeros m) (omega arith)
              ∙ ap (λ v. (x + 0) ∷ v ∷ zeros m) (zero-bit_or (b / 2 ^ s)))
      | inr some_left ↦
          rw (right_round, some_left)
            (ap (λ v. v ∷ bit_or 0 (b / 2 ^ s) ∷ zeros m) low
              ∙ ap (λ v. (x + b % 2 ^ s * 2 ^ (32 - s)) ∷ v ∷ zeros m) (zero-bit_or (b / 2 ^ s)))
    ]

-- The loop from its second round on.
value-right_rest :
    (s m x : ℕ) (words : List ℕ)
    → s < 32
    → x < 2 ^ (32 - s)
    → AreWords words
    → length words ≤ m
    → value (right_loop 0 s 1 words (x ∷ zeros m)) ≡ x + value words * 2 ^ (32 - s)
unfolding value right_loop
value-right_rest s m x [] h carry ws few = omega (arith, value-zeros m)
value-right_rest s zero x (b ∷ words) h carry ws few = absurd (omega arith)
value-right_rest s (suc m) x (b ∷ words) h carry ws few =
    let back : 32 - (32 - s) ≡ s = omega arith in
    let (_, sum, _, next) = rw back at (word_parts (32 - s) b x (omega arith) ws.0 carry) in
    let low = x + b % 2 ^ s * 2 ^ (32 - s) in
    let hi = b / 2 ^ s in
    let step =
      ap (right_loop 0 s 2 words) (right_second s b x m h ws.0 carry)
      ∙ right_loop_behind s 1 low words (hi ∷ zeros m) (omega arith) in
    ap value step
    ∙ ap (λ v. low + base * v) (value-right_rest s m hi words h next ws.1 (omega arith))
    ∙ sym (words_sum b x (value words) (2 ^ (32 - s)) low hi sum)

shifted_sum : (a v q r : ℕ) → 0 < r → q * r ≡ base → a / r + v * q ≡ (a + base * v) / r
shifted_sum a v q r pos whole =
    sym (add-mul-div_right a (v * q) pos)
    ∙ ap (λ n. (a + n) / r) (mul_assoc v q r ∙ ap (λ n. v * n) whole ∙ mul_comm v base)

value-right_whole :
    (s n : ℕ) (words : List ℕ)
    → s < 32
    → AreWords words
    → length words ≤ n
    → value (right_loop 0 s 0 words (zeros n)) ≡ value words / 2 ^ s
unfolding value right_loop right_round or_at
value-right_whole s n [] h ws few = value-zeros n ∙ sym (zero-div (2 ^ s))
value-right_whole s zero (a ∷ words) h ws few = absurd (omega arith)
value-right_whole s (suc m) (a ∷ words) h ws few =
    let back : 32 - (32 - s) ≡ s = omega arith in
    let (_, _, _, next) =
      rw back at (word_parts (32 - s) a 0 (omega arith) ws.0 (two_pos (32 - s))) in
    let whole : 2 ^ (32 - s) * 2 ^ s ≡ base =
      two_word (32 - s) s ∙ ap (λ e. 2 ^ e) {x = 32 - s + s} {y = 32} (omega arith) in
    ap (λ v. value (right_loop 0 s 1 words (v ∷ zeros m))) (zero-bit_or (a / 2 ^ s))
    ∙ value-right_rest s m (a / 2 ^ s) words h next ws.1 (omega arith)
    ∙ shifted_sum a (value words) (2 ^ (32 - s)) (2 ^ s) (two_pos s) whole

-- A round for a word and an offset that are both one further.
right_round_further :
    (k s i a : ℕ) (pn : List ℕ) → right_round (suc k) s (suc i) a pn ≡ right_round k s i a pn
unfolding right_round
right_round_further k s i a pn =
    let low : leb (suc k + 1) (suc i) ≡ leb (k + 1) i = ground arith in
    let here : leb (suc k) (suc i) ≡ leb k i = ground arith in
    let p : suc i - suc k - 1 ≡ i - k - 1 = omega arith in
    let q : suc i - suc k ≡ i - k = omega arith in rw (right_round, low, here, p, q) refl

right_loop_further :
    (k s i : ℕ) (words pn : List ℕ)
    → right_loop (suc k) s (suc i) words pn ≡ right_loop k s i words pn
unfolding right_loop
right_loop_further k s i [] pn = refl
right_loop_further k s i (a ∷ words) pn =
    ap (right_loop (suc k) s (suc i + 1) words) (right_round_further k s i a pn)
    ∙ ap (λ j. right_loop (suc k) s j words (right_round k s i a pn)) (omega arith)
    ∙ right_loop_further k s (i + 1) words _

right_round_before : (k s a : ℕ) (pn : List ℕ) → right_round (suc k) s 0 a pn ≡ pn
unfolding right_round
right_round_before k s a pn =
    let low : leb (suc k + 1) 0 ≡ false = ground arith in
    let here : leb (suc k) 0 ≡ false = ground arith in rw (right_round, low, here) refl

value-right_offset :
    (s k n : ℕ) (words : List ℕ)
    → s < 32
    → AreWords words
    → length words ≤ n
    → value (right_loop k s 0 words (zeros n)) ≡ value words / base ^ k / 2 ^ s
unfolding value right_loop right_round
value-right_offset s zero n words h ws few =
    value-right_whole s n words h ws few ∙ ap (λ v. v / 2 ^ s) (omega arith)
value-right_offset s (suc k) n [] h ws few =
    value-zeros n ∙ sym (zero-div (2 ^ s)) ∙ ap (λ v. v / 2 ^ s) (sym (zero-div (base ^ suc k)))
value-right_offset s (suc k) n (a ∷ words) h ws few =
    let v = value words in
    let first : (a + base * v) / base ≡ v = omega (arith, ws.0) in
    let rest : v / base ^ k ≡ (a + base * v) / base ^ suc k =
      ap (λ x. x / base ^ k) (sym first)
      ∙ div-div-eq-div-mul (a + base * v) base (base ^ k)
      ∙ ap (λ x. (a + base * v) / x) (mul_comm base (base ^ k) ∙ sym (pow-suc base k)) in
    ap (λ pn. value (right_loop (suc k) s 1 words pn)) (right_round_before k s a (zeros n))
    ∙ ap value (right_loop_further k s 0 words (zeros n))
    ∙ value-right_offset s k n words h ws.1 (omega arith)
    ∙ ap (λ x. x / 2 ^ s) rest

-- operator>>= divides by 2 ^ shift.
pub value-shift_right :
    (shift : ℕ) (xs : List ℕ) → AreWords xs → value (shift_right shift xs) ≡ value xs / 2 ^ shift
unfolding shift_right
value-shift_right shift xs ws =
    let s = shift % 32 in
    let k = shift / 32 in
    ap (λ pn. value (right_loop k s 0 xs pn)) (fill_zero-zeros xs)
    ∙ value-right_offset s k (length xs) xs (omega arith) ws (omega arith)
    ∙ div-div-eq-div-mul (value xs) (base ^ k) (2 ^ s)
    ∙ ap (λ x. value xs / x)
        (mul_comm (base ^ k) (2 ^ s) ∙ two_power s k ∙ ap (λ e. 2 ^ e) (omega arith))
