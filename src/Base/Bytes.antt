-- ===== src/Base/Bytes.antt =====
-- Facts about bytes that hold by evaluation at every value, and two laws of `bit_xor`.
use Prim.Native.Nat.{
  ℕ, zero, suc, ◌+◌, ◌*◌, ◌/◌, ◌%◌, ◌≤◌, ◌<◌, bit_or, bit_xor, bit_xor-bitwise, digits, differ,
}
use mathlib.Core.Path.{◌≡◌, refl, ◌∙◌}
use mathlib.Core.Bool.{Bool, true, ◌&&◌}
use native.Mathlib.Omega.{arith}
use mamio.Base.Tests.{◌==◌, ==_iff}

-- Whether a test holds of every number below `n`.
unfoldable pub every_below : ℕ → (ℕ → Bool) → Bool
every_below zero test = true
every_below (suc n) test = test n && every_below n test

every_below_at :
    (n : ℕ) (test : ℕ → Bool) (x : ℕ) → every_below n test ≡ true → x < n → test x ≡ true
unfolding every_below
every_below_at zero test x h lt = absurd (omega arith)
every_below_at (suc n) test x h lt = ground (arith, every_below_at n test x)

-- Two functions that agree at every number below `n`.
pub eq_below :
    (n : ℕ) (f g : ℕ → ℕ) (x : ℕ) → every_below n (λ x. f x == g x) ≡ true → x < n → f x ≡ g x
eq_below n f g x h lt = (==_iff (f x) (g x)).0 (every_below_at n (λ x. f x == g x) x h lt)

pub byte_eq : (f g : ℕ → ℕ) (x : ℕ) → every_below 256 (λ x. f x == g x) ≡ true → x < 256 → f x ≡ g x
byte_eq = eq_below 256

-- Fields of a byte that do not overlap: `|` adds them.
pub bit_or-add :
    (m a b : ℕ)
    → every_below 256 (λ v. bit_or (v / m * m) (v % m) == v) ≡ true
    → b < m
    → a * m + b < 256
    → bit_or (a * m) b ≡ a * m + b
bit_or-add m a b h lt fits =
    let v : ℕ = a * m + b in
    let q : v / m ≡ a = grind arith in
    let r : v % m ≡ b = grind arith in
    let e : bit_or (v / m * m) (v % m) ≡ v =
      (==_iff _ v).0 (every_below_at 256 (λ v. bit_or (v / m * m) (v % m) == v) v h fits) in
    rw (q, r) at e

pub bit_xor_self : (x : ℕ) → x < 256 → bit_xor x x ≡ 0
unfolding every_below
bit_xor_self x lt = byte_eq (λ x. bit_xor x x) (λ x. 0) x table lt
  where
    table : every_below 256 (λ x. bit_xor x x == 0) ≡ true
    table = refl

differ-zero : (x b : ℕ) → b ≡ 0 → differ x b ≡ x
differ-zero zero b h = h
differ-zero (suc x) zero h = refl
differ-zero (suc x) (suc b) h = absurd (omega arith)

xor_digits-zero : (n a b : ℕ) → a ≤ n → b ≡ 0 → digits (λ b. b) differ n a b ≡ a
xor_digits-zero zero zero b h e = e
xor_digits-zero zero (suc a) b h e = absurd (omega arith)
xor_digits-zero (suc n) zero b h e = e
xor_digits-zero (suc n) (suc a) b h e = omega (
  arith,
  xor_digits-zero n (suc a / 2) (b / 2) (omega arith) (omega arith),
  differ-zero (suc a % 2) (b % 2) (omega arith),
)

pub bit_xor-zero : (a : ℕ) → bit_xor a 0 ≡ a
bit_xor-zero a = bit_xor-bitwise a 0 ∙ xor_digits-zero a a 0 (omega arith) refl
