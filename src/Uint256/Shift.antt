-- ===== src/Uint256/Shift.antt =====
-- operator<<= and operator>>= of base_uint.
pub mod Words
pub mod Left
pub mod Right
pub mod Kept
use Prim.Native.Nat.{bit_or}
use mamio.Base.{
  ℕ, zero, suc, length, ◌+◌, ◌-◌, ◌*◌, ◌/◌, ◌%◌, ◌^◌, not, ◌&&◌, List, [], ◌∷◌, ltb, leb, ◌==◌,
  if◌then◌else◌,
}
use mamio.Uint256.{base, fill_zero}

-- pn[i] |= v
unfoldable pub or_at : ℕ → ℕ → List ℕ → List ℕ
or_at i v [] = []
or_at zero v (x ∷ xs) = bit_or x v ∷ xs
or_at (suc i) v (x ∷ xs) = x ∷ or_at i v xs

-- A round of the loop of operator<<=, for the word a at i.
unfoldable pub left_round : ℕ → ℕ → ℕ → ℕ → ℕ → List ℕ → List ℕ
left_round k shift width i a pn =
    let high =
      if ltb (i + k + 1) width && not (shift == 0)
      then or_at (i + k + 1) (a / 2 ^ (32 - shift)) pn
      else pn in
    if ltb (i + k) width then or_at (i + k) (a * 2 ^ shift % base) high else high

unfoldable pub left_loop : ℕ → ℕ → ℕ → ℕ → List ℕ → List ℕ → List ℕ
left_loop k shift width i [] pn = pn
left_loop k shift width i (a ∷ words) pn =
    left_loop k shift width (i + 1) words (left_round k shift width i a pn)

unfoldable pub shift_left : ℕ → List ℕ → List ℕ
shift_left shift xs = left_loop (shift / 32) (shift % 32) (length xs) 0 xs (fill_zero xs)

-- A round of the loop of operator>>=.
unfoldable pub right_round : ℕ → ℕ → ℕ → ℕ → List ℕ → List ℕ
right_round k shift i a pn =
    let low =
      if leb (k + 1) i && not (shift == 0)
      then or_at (i - k - 1) (a * 2 ^ (32 - shift) % base) pn
      else pn in
    if leb k i then or_at (i - k) (a / 2 ^ shift) low else low

unfoldable pub right_loop : ℕ → ℕ → ℕ → List ℕ → List ℕ → List ℕ
right_loop k shift i [] pn = pn
right_loop k shift i (a ∷ words) pn = right_loop k shift (i + 1) words (right_round k shift i a pn)

unfoldable pub shift_right : ℕ → List ℕ → List ℕ
shift_right shift xs = right_loop (shift / 32) (shift % 32) 0 xs (fill_zero xs)
