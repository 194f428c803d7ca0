-- ===== src/Uint256/Divide/SetBit.antt =====
-- operator/=: a bit of the quotient is set.
use Prim.Native.Nat.{bit_or}
use native.Mathlib.Nat.{
  mul_assoc, mul_comm, add-mul-mod_self_left, mul-mod_left, div-add-mod', pow-suc,
}
use mamio.Base.{
  ℕ, zero, suc, length, ◌+◌, ◌-◌, ◌*◌, ◌/◌, ◌%◌, ◌^◌, ◌<◌, ◌≡◌, ap, sym, ◌∙◌, List, [], ◌∷◌, arith,
}
use mamio.Base.Bits.{bit_or_field}
use mamio.Uint256.{base}
use mamio.Uint256.Value.{value, AreWords}
use mamio.Uint256.Shift.{or_at}
use mamio.Uint256.Shift.Words.{two_pos, two_word, two_power}

-- A word whose lowest bits are zero, with one of them set.
multiple : (x v p q a : ℕ) → 0 < p → p * q ≡ base → x + base * v ≡ a * p → x ≡ x / p * p
multiple x v p q a pos whole e =
    let r : (x + p * (q * v)) % p ≡ x % p = add-mul-mod_self_left x p (q * v) in
    let s : x + p * (q * v) ≡ a * p =
      ap (λ n. x + n) (sym (mul_assoc p q v) ∙ ap (λ n. n * v) whole) ∙ e in
    let z : x % p ≡ 0 = sym r ∙ ap (λ n. n % p) s ∙ mul-mod_left a p in
    omega (arith, div-add-mod' x p, z)

set_bit : (k x v a : ℕ) → k < 32 → x + base * v ≡ a * 2 ^ suc k → bit_or x (2 ^ k) ≡ x + 2 ^ k
set_bit k x v a h e =
    let whole : 2 ^ suc k * 2 ^ (31 - k) ≡ base =
      two_word (suc k) (31 - k) ∙ ap (λ n. 2 ^ n) {x = suc k + (31 - k)} {y = 32} (omega arith) in
    let m = multiple x v (2 ^ suc k) (2 ^ (31 - k)) a (two_pos (suc k)) whole e in
    let below : 2 ^ k < 2 ^ suc k = omega (arith, two_pos k) in
    ap (λ n. bit_or n (2 ^ k)) m
    ∙ bit_or_field (suc k) (x / 2 ^ suc k) (2 ^ k) below
    ∙ ap (λ n. n + 2 ^ k) (sym m)

-- A bit of the quotient above which all others stand.
value-or_at :
    (i k a : ℕ) (pn : List ℕ)
    → k < 32
    → i < length pn
    → AreWords pn
    → value pn ≡ a * 2 ^ suc k * base ^ i
    → value (or_at i (2 ^ k) pn) ≡ value pn + 2 ^ k * base ^ i
unfolding value or_at
value-or_at i k a [] h lt w e = absurd (omega arith)
value-or_at zero k a (x ∷ xs) h lt w e =
    omega (arith, set_bit k x (value xs) a h (omega (arith, e)))
value-or_at (suc i) k a (x ∷ xs) h lt w e =
    let whole : a * 2 ^ suc k * base ^ suc i ≡ base * (a * 2 ^ suc k * base ^ i) =
      ap (λ n. a * 2 ^ suc k * n) (pow-suc base i)
      ∙ sym (mul_assoc (a * 2 ^ suc k) (base ^ i) base)
      ∙ mul_comm (a * 2 ^ suc k * base ^ i) base in
    let v : value xs ≡ a * 2 ^ suc k * base ^ i = omega (arith, e, whole, w.0) in
    let step : 2 ^ k * base ^ suc i ≡ base * (2 ^ k * base ^ i) =
      ap (λ n. 2 ^ k * n) (pow-suc base i)
      ∙ sym (mul_assoc (2 ^ k) (base ^ i) base)
      ∙ mul_comm (2 ^ k * base ^ i) base in
    omega (arith, value-or_at i k a xs h (omega (arith, lt)) w.1 v, step)

-- The same with the bit's number.
pub value-set_bit :
    (s a : ℕ) (pn : List ℕ)
    → s < 32 * length pn
    → AreWords pn
    → value pn ≡ a * 2 ^ suc s
    → value (or_at (s / 32) (2 ^ (s % 32)) pn) ≡ value pn + 2 ^ s
value-set_bit s a pn h w e =
    let i = s / 32 in
    let k = s % 32 in
    let power : 2 ^ k * base ^ i ≡ 2 ^ s = two_power k i ∙ ap (λ n. 2 ^ n) (omega arith) in
    let double : 2 ^ suc k * base ^ i ≡ 2 ^ suc s =
      two_power (suc k) i ∙ ap (λ n. 2 ^ n) (omega arith) in
    let split : value pn ≡ a * 2 ^ suc k * base ^ i =
      e ∙ ap (λ n. a * n) (sym double) ∙ sym (mul_assoc a (2 ^ suc k) (base ^ i)) in
    value-or_at i k a pn (omega arith) (omega (arith, h)) w split ∙ ap (λ n. value pn + n) power
