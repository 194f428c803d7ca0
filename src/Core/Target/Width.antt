-- ===== src/Core/Target/Width.antt =====
-- src/minemon/core.cpp, CCoreProtocol::GetProofOfWorkTarget: numbers keep their eight words.
use mamio.Base.{
  ℕ, zero, suc, ◌-◌, ◌*◌, ◌/◌, ◌%◌, ◌^◌, ◌<◌, refl, ◌∙◌, inl, inr, ◌||◌, List, [], ◌∷◌, ltb, leb,
  ◌==◌, if_cases, arith, Bool-cases,
}
use native.Mathlib.Nat.{pow-le-pow_right}
use mamio.Uint256.{base, set_uint64, fill_zero, subtract, greater_equal, bits, multiply_uint32}
use mamio.Uint256.Value.{AreWords-multiply_loop, length-multiply_loop}
use mamio.Uint256.Shift.{or_at, shift_left, shift_right}
use mamio.Uint256.Shift.Kept.{IsNumber, or_at-IsNumber, fill_zero-IsNumber, shift_left-IsNumber}
use mamio.Uint256.Divide.{divide_loop, divide}
use mamio.Uint256.Divide.Rounds.{subtract-IsNumber, shifted-IsNumber}
use mamio.Uint256.Compact.{size_of, word_of, set_compact}
use mamio.Core.Target.{zero_words, uint256, scaled}

divide_loop-IsNumber :
    (n rounds : ℕ) (num div pn : List ℕ)
    → IsNumber n num
    → IsNumber n div
    → IsNumber n pn
    → IsNumber n (divide_loop rounds num div pn)
unfolding divide_loop
divide_loop-IsNumber n zero num div pn h k p = p
divide_loop-IsNumber n (suc s) num div pn h k p =
    let small : 2 ^ (s % 32) < base =
      omega (arith, pow-le-pow_right {n = 2} (omega arith) {i = s % 32} {j = 31} (omega arith)) in
    elim (Bool-cases (greater_equal num div)) [
      | inl fits ↦
          rw (fits, divide_loop)
            (divide_loop-IsNumber n s (subtract num div) (shift_right 1 div)
              (or_at (s / 32) (2 ^ (s % 32)) pn) (subtract-IsNumber n num div h k)
              (shifted-IsNumber n div k) (or_at-IsNumber n (s / 32) (2 ^ (s % 32)) pn small p))
      | inr more ↦
          rw (more, divide_loop)
            (divide_loop-IsNumber n s num (shift_right 1 div) pn h (shifted-IsNumber n div k) p)
    ]

pub divide-IsNumber :
    (n : ℕ) (xs ys : List ℕ) → IsNumber n xs → IsNumber n ys → IsNumber n (divide xs ys)
unfolding divide
divide-IsNumber n xs ys h k =
    let cleared = fill_zero-IsNumber xs in
    let zeros : IsNumber n (fill_zero xs) = record {
      words = cleared.words;
      width = cleared.width ∙ h.width;
    } in
    let shift = bits xs - bits ys in
    let left = shift_left-IsNumber shift ys k.words in
    let aligned : IsNumber n (shift_left shift ys) = record {
      words = left.words;
      width = left.width ∙ k.width;
    } in
    if_cases (IsNumber n) (bits ys == 0 || ltb (bits xs) (bits ys)) (λ t. zeros)
      (λ t.
        divide_loop-IsNumber n (suc shift) xs (shift_left shift ys) (fill_zero xs) h aligned zeros)

multiply-IsNumber : (n b : ℕ) (xs : List ℕ) → IsNumber n xs → IsNumber n (multiply_uint32 xs b)
unfolding multiply_uint32
multiply-IsNumber n b xs h = record {
  words = AreWords-multiply_loop 0 b xs;
  width = length-multiply_loop 0 b xs ∙ h.width;
}

set_uint64-IsNumber : (n b : ℕ) (xs : List ℕ) → IsNumber n xs → IsNumber n (set_uint64 b xs)
unfolding set_uint64
set_uint64-IsNumber n b [] h = h
set_uint64-IsNumber n b (x ∷ []) h = h
set_uint64-IsNumber n b (x ∷ y ∷ xs) h =
    let r = fill_zero-IsNumber xs in
    record {
      words = (omega arith, (omega arith, r.words));
      width = omega (arith, r.width, h.width);
    }

pub zero_words-IsNumber : IsNumber 8 zero_words
unfolding fill_zero
zero_words-IsNumber = record {
  words = (fill_zero-IsNumber (0 ∷ 0 ∷ 0 ∷ 0 ∷ 0 ∷ 0 ∷ 0 ∷ 0 ∷ [])).words;
  width = refl;
}

uint256-IsNumber : (n : ℕ) → IsNumber 8 (uint256 n)
uint256-IsNumber n = set_uint64-IsNumber 8 n zero_words zero_words-IsNumber

pub set_compact-IsNumber :
    (n compact : ℕ) (xs : List ℕ) → IsNumber n xs → IsNumber n (set_compact compact xs)
unfolding set_compact
set_compact-IsNumber n compact xs h =
    let small = set_uint64-IsNumber n (word_of compact) xs h in
    let left =
      shift_left-IsNumber (8 * (size_of compact - 3)) (set_uint64 (word_of compact) xs)
        small.words in
    if_cases (IsNumber n) (leb (size_of compact) 3) (λ t. small)
      (λ t. record { words = left.words; width = left.width ∙ small.width })

pub scaled-IsNumber :
    (target : List ℕ) (actual timespan : ℕ)
    → IsNumber 8 target
    → IsNumber 8 (scaled target actual timespan)
unfolding scaled
scaled-IsNumber target actual timespan h =
    let span = uint256-IsNumber timespan in
    let by = actual % 2 ^ 32 in
    if_cases (IsNumber 8) (greater_equal target (uint256 timespan))
      (λ t.
        multiply-IsNumber 8 by (divide target (uint256 timespan))
          (divide-IsNumber 8 target (uint256 timespan) h span))
      (λ t.
        divide-IsNumber 8 (multiply_uint32 target by) (uint256 timespan)
          (multiply-IsNumber 8 by target h) span)
