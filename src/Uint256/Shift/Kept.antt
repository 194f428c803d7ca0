-- ===== src/Uint256/Shift/Kept.antt =====
-- operator<<= and operator>>= keep the width, and leave 32-bit words.
use native.Mathlib.Nat.{div-le_self}
use mamio.Base.{
  ℕ, zero, suc, length, ◌+◌, ◌-◌, ◌*◌, ◌/◌, ◌%◌, ◌^◌, ◌<◌, ◌≡◌, refl, ◌∙◌, Bool, not, ◌&&◌, List,
  [], ◌∷◌, ltb, leb, ◌==◌, arith, if_cases, if◌then◌else◌,
}
use mamio.Base.Bits.{bit_or_lt}
use mamio.Uint256.{base, fill_zero}
use mamio.Uint256.Value.{AreWords}
use mamio.Uint256.Shift.{
  or_at, left_round, left_loop, shift_left, right_round, right_loop, shift_right,
}

-- Words of a given number.
pub record IsNumber (n : ℕ) (xs : List ℕ) : Type 0 where
  pub words : AreWords xs
  pub width : length xs ≡ n

AreWords-or_at : (i v : ℕ) (xs : List ℕ) → v < base → AreWords xs → AreWords (or_at i v xs)
unfolding or_at
AreWords-or_at i v [] h w = tt
AreWords-or_at zero v (x ∷ xs) h w = (bit_or_lt 32 x v w.0 h, w.1)
AreWords-or_at (suc i) v (x ∷ xs) h w = (w.0, AreWords-or_at i v xs h w.1)

length-or_at : (i v : ℕ) (xs : List ℕ) → length (or_at i v xs) ≡ length xs
unfolding or_at
length-or_at i v [] = refl
length-or_at zero v (x ∷ xs) = refl
length-or_at (suc i) v (x ∷ xs) = omega (arith, length-or_at i v xs)

pub or_at-IsNumber :
    (n i v : ℕ) (xs : List ℕ) → v < base → IsNumber n xs → IsNumber n (or_at i v xs)
or_at-IsNumber n i v xs h k = record {
  words = AreWords-or_at i v xs h k.words;
  width = length-or_at i v xs ∙ k.width;
}

-- A test before a word is written.
written :
    (n i v : ℕ) (b : Bool) (xs : List ℕ)
    → v < base
    → IsNumber n xs
    → IsNumber n (if b then or_at i v xs else xs)
written n i v b xs h k = if_cases (IsNumber n) b (λ t. or_at-IsNumber n i v xs h k) (λ t. k)

quotient_lt : (a d : ℕ) → a < base → a / d < base
quotient_lt a d h = omega (arith, h, div-le_self a d)

left_loop-IsNumber :
    (n k s width i : ℕ) (words pn : List ℕ)
    → AreWords words
    → IsNumber n pn
    → IsNumber n (left_loop k s width i words pn)
unfolding left_loop left_round
left_loop-IsNumber n k s width i [] pn w p = p
left_loop-IsNumber n k s width i (a ∷ words) pn w p =
    left_loop-IsNumber n k s width (i + 1) words (left_round k s width i a pn) w.1 (
      written n (i + k) (a * 2 ^ s % base) (ltb (i + k) width) _ (omega arith) (
        written n (i + k + 1) (a / 2 ^ (32 - s)) (ltb (i + k + 1) width && not (s == 0)) pn
          (quotient_lt a (2 ^ (32 - s)) w.0) p))

right_loop-IsNumber :
    (n k s i : ℕ) (words pn : List ℕ)
    → AreWords words
    → IsNumber n pn
    → IsNumber n (right_loop k s i words pn)
unfolding right_loop right_round
right_loop-IsNumber n k s i [] pn w p = p
right_loop-IsNumber n k s i (a ∷ words) pn w p =
    right_loop-IsNumber n k s (i + 1) words (right_round k s i a pn) w.1 (
      written n (i - k) (a / 2 ^ s) (leb k i) _ (quotient_lt a (2 ^ s) w.0) (
        written n (i - k - 1) (a * 2 ^ (32 - s) % base) (leb (k + 1) i && not (s == 0)) pn
          (omega arith) p))

pub fill_zero-IsNumber : (xs : List ℕ) → IsNumber (length xs) (fill_zero xs)
unfolding fill_zero
fill_zero-IsNumber [] = record { words = tt; width = refl }
fill_zero-IsNumber (x ∷ xs) =
    let r = fill_zero-IsNumber xs in
    record { words = (omega arith, r.words); width = omega (arith, r.width) }

pub shift_left-IsNumber :
    (shift : ℕ) (xs : List ℕ) → AreWords xs → IsNumber (length xs) (shift_left shift xs)
unfolding shift_left
shift_left-IsNumber shift xs w =
    left_loop-IsNumber (length xs) (shift / 32) (shift % 32) (length xs) 0 xs (fill_zero xs) w
      (fill_zero-IsNumber xs)

pub shift_right-IsNumber :
    (shift : ℕ) (xs : List ℕ) → AreWords xs → IsNumber (length xs) (shift_right shift xs)
unfolding shift_right
shift_right-IsNumber shift xs w =
    right_loop-IsNumber (length xs) (shift / 32) (shift % 32) 0 xs (fill_zero xs) w
      (fill_zero-IsNumber xs)
