-- ===== src/Base/Bits.antt =====
-- `bit_or` of numbers of any size: its lowest digit, and fields that do not overlap.
use Prim.Native.Nat.{
  ℕ, zero, suc, ◌+◌, ◌*◌, ◌/◌, ◌%◌, ◌^◌, ◌≤◌, ◌<◌, max, bit_or, digits, bit_or-bitwise,
}
use mathlib.Core.Path.{◌≡◌, refl, ◌∙◌, ap, sym}
use native.Mathlib.Omega.{arith}

abbrev or_digits : ℕ → ℕ → ℕ → ℕ
or_digits n a b = digits (λ b. b) max n a b

-- More fuel than the first number changes nothing.
or_digits_enough : (n m a b : ℕ) → a ≤ n → a ≤ m → or_digits n a b ≡ or_digits m a b
or_digits_enough zero zero a b p q = refl
or_digits_enough zero (suc m) zero b p q = refl
or_digits_enough zero (suc m) (suc a) b p q = absurd (omega arith)
or_digits_enough (suc n) zero zero b p q = refl
or_digits_enough (suc n) zero (suc a) b p q = absurd (omega arith)
or_digits_enough (suc n) (suc m) zero b p q = refl
or_digits_enough (suc n) (suc m) (suc a) b p q =
    omega (arith, or_digits_enough n m (suc a / 2) (b / 2) (omega arith) (omega arith))

pub zero-bit_or : (b : ℕ) → bit_or 0 b ≡ b
zero-bit_or b = bit_or-bitwise 0 b

bit_or_lowest : (a b : ℕ) → bit_or a b ≡ bit_or (a / 2) (b / 2) * 2 + max (a % 2) (b % 2)
bit_or_lowest zero b = omega (arith, zero-bit_or b, zero-bit_or (b / 2))
bit_or_lowest (suc a) b = omega (
  arith,
  bit_or-bitwise (suc a) b,
  bit_or-bitwise (suc a / 2) (b / 2),
  or_digits_enough a (suc a / 2) (suc a / 2) (b / 2) (omega arith) (omega arith),
)

bit_or-zero_below : (n a : ℕ) → a ≤ n → bit_or a 0 ≡ a
bit_or-zero_below n zero h = refl
bit_or-zero_below zero (suc a) h = absurd (omega arith)
bit_or-zero_below (suc n) (suc a) h =
    omega (arith, bit_or_lowest (suc a) 0, bit_or-zero_below n (suc a / 2) (omega arith))

-- A number below 2 ^ s under a multiple of 2 ^ s: `|` adds them.
pub bit_or_field : (s a c : ℕ) → c < 2 ^ s → bit_or (a * 2 ^ s) c ≡ a * 2 ^ s + c
bit_or_field zero a c h =
    let n : c ≡ 0 = omega arith in
    ap (bit_or (a * 1)) n ∙ bit_or-zero_below (a * 1) (a * 1) (omega arith) ∙ omega (arith, n)
bit_or_field (suc s) a c h =
    let v = a * 2 ^ s in
    let e : 2 ^ suc s ≡ 2 ^ s * 2 = omega arith in
    let p : a * 2 ^ suc s ≡ v * 2 = ap (λ n. a * n) e ∙ omega arith in
    let half : v * 2 / 2 ≡ v = omega arith in
    let low = ap (λ n. bit_or n (c / 2)) half ∙ bit_or_field s a (c / 2) (omega arith) in
    ap (λ n. bit_or n c) p ∙ bit_or_lowest (v * 2) c ∙ omega (arith, low, p)

bit_or_comm_below : (n a b : ℕ) → a ≤ n → bit_or a b ≡ bit_or b a
bit_or_comm_below n zero b h = zero-bit_or b ∙ sym (bit_or-zero_below b b (omega arith))
bit_or_comm_below zero (suc a) b h = absurd (omega arith)
bit_or_comm_below (suc n) (suc a) b h = omega (
  arith,
  bit_or_lowest (suc a) b,
  bit_or_lowest b (suc a),
  bit_or_comm_below n (suc a / 2) (b / 2) (omega arith),
)

pub bit_or_over : (s c a : ℕ) → c < 2 ^ s → bit_or c (a * 2 ^ s) ≡ c + a * 2 ^ s
bit_or_over s c a h =
    bit_or_comm_below c c (a * 2 ^ s) (omega arith) ∙ bit_or_field s a c h ∙ omega arith

-- `|` of numbers of n bits has n bits.
pub bit_or_lt : (n a b : ℕ) → a < 2 ^ n → b < 2 ^ n → bit_or a b < 2 ^ n
bit_or_lt zero a b h k =
    let z : a ≡ 0 = omega arith in let y : b ≡ 0 = omega arith in rw (z, y) (omega arith)
bit_or_lt (suc n) a b h k =
    let e : 2 ^ suc n ≡ 2 ^ n * 2 = omega arith in
    let low = bit_or_lt n (a / 2) (b / 2) (omega arith) (omega arith) in
    ground (arith, bit_or_lowest a b, low, e)

pub bit_or-zero : (a : ℕ) → bit_or a 0 ≡ a
bit_or-zero a = bit_or-zero_below a a (omega arith)
