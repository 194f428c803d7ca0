-- ===== src/Uint256/Shift/Words.antt =====
-- The arithmetic of shifted words: the parts of a word, and remainders by powers of the base.
use mamio.Base.{
  ℕ, zero, suc, length, ◌+◌, ◌-◌, ◌*◌, ◌/◌, ◌%◌, ◌^◌, ◌≤◌, ◌<◌, ◌≡◌, refl, ap, sym, ◌∙◌, List, [],
  ◌∷◌, arith,
}
use native.Mathlib.Nat.{
  div-add-mod', add-mul, mul_assoc, mul_comm, pow-suc, mul-le-mul_right, mod-lt, div-lt_iff_lt-mul,
}
use mamio.Base.Bytes.{every_below, eq_below}
use mamio.Uint256.{base}
use mamio.Uint256.Value.{modulus, mod_of}

pub two_pos : (n : ℕ) → 0 < 2 ^ n
two_pos zero = omega arith
two_pos (suc n) = omega (arith, two_pos n)

pub parts_sum : (a d m q r : ℕ) → q * r ≡ base → a ≡ d * q + m → a * r ≡ base * d + m * r
parts_sum a d m q r whole e =
    ap (λ n. n * r) e
    ∙ add-mul (d * q) m r
    ∙ ap (λ n. n + m * r) (mul_assoc d q r ∙ ap (λ n. d * n) whole ∙ mul_comm d base)

pub parts_small : (m q r c : ℕ) → q * r ≡ base → m < q → c < r → c + m * r < base
parts_small m q r c whole lt carry =
    omega (arith, mul-le-mul_right {m = suc m} {n = q} r lt, add-mul m 1 r, whole)

-- The parts of a shifted word: what stays in it, and what goes into the next one.
pub word_parts :
    (s a c : ℕ)
    → s ≤ 32
    → a < base
    → c < 2 ^ s
    → (a * 2 ^ s % base ≡ a % 2 ^ (32 - s) * 2 ^ s)
      × (c + a % 2 ^ (32 - s) * 2 ^ s + base * (a / 2 ^ (32 - s)) ≡ c + a * 2 ^ s)
      × (c + a % 2 ^ (32 - s) * 2 ^ s < base)
      × (a / 2 ^ (32 - s) < 2 ^ s)
unfolding every_below
word_parts s a c h w carry =
    let q = 2 ^ (32 - s) in
    let r = 2 ^ s in
    let whole : q * r ≡ base =
      eq_below 33 (λ s. 2 ^ (32 - s) * 2 ^ s) (λ s. base) s refl (omega arith) in
    let pos : 0 < q = two_pos (32 - s) in
    let split = parts_sum a (a / q) (a % q) q r whole (sym (div-add-mod' a q)) in
    let small = parts_small (a % q) q r c whole (mod-lt a pos) carry in
    (
      grind (arith, split, small),
      omega (arith, split),
      small,
      (div-lt_iff_lt-mul pos).1 (omega (arith, w, mul_comm q r, whole)),
    )

pub mod_parts :
    (low y m : ℕ) → low < base → 0 < m → low + base * (y % m) ≡ (low + base * y) % (m * base)
mod_parts low y m lt pos =
    mod_of (low + base * (y % m)) (y / m) (m * base) (low + base * y)
      (omega (arith, div-add-mod' y m, sym (mul_assoc (y / m) m base)))
      (omega (arith, mod-lt y pos))

pub base_pos : (n : ℕ) → 0 < base ^ n
base_pos zero = omega arith
base_pos (suc n) = omega (arith, base_pos n, pow-suc base n)

pub words_sum :
    (a c v r low hi : ℕ)
    → low + base * hi ≡ c + a * r
    → c + (a + base * v) * r ≡ low + base * (hi + v * r)
words_sum a c v r low hi sum = omega (arith, sum, add-mul a (base * v) r, mul_assoc base v r)

pub one_word : (low y : ℕ) → low < base → low + 0 ≡ (low + base * y) % base
one_word low y small = omega arith

pub modulus-power : (xs : List ℕ) → modulus xs ≡ base ^ length xs
unfolding modulus
modulus-power [] = refl
modulus-power (x ∷ xs) =
    ap (λ m. base * m) (modulus-power xs) ∙ mul_comm base _ ∙ sym (pow-suc base (length xs))

pub two_word : (x n : ℕ) → 2 ^ x * 2 ^ n ≡ 2 ^ (x + n)
two_word x zero =
    let same : 2 ^ x * 2 ^ 0 ≡ 2 ^ x = omega arith in same ∙ ap (λ e. 2 ^ e) (omega arith)
two_word x (suc n) =
    ap (λ v. 2 ^ x * v) (pow-suc 2 n)
    ∙ sym (mul_assoc (2 ^ x) (2 ^ n) 2)
    ∙ ap (λ v. v * 2) (two_word x n)
    ∙ sym (pow-suc 2 (x + n))
    ∙ ap (λ e. 2 ^ e) (omega arith)

pub two_power : (s k : ℕ) → 2 ^ s * base ^ k ≡ 2 ^ (s + 32 * k)
two_power s zero =
    let same : 2 ^ s * base ^ 0 ≡ 2 ^ s = omega arith in same ∙ ap (λ e. 2 ^ e) (omega arith)
two_power s (suc k) =
    ap (λ v. 2 ^ s * v) (pow-suc base k)
    ∙ sym (mul_assoc (2 ^ s) (base ^ k) base)
    ∙ ap (λ v. v * base) (two_power s k)
    ∙ two_word (s + 32 * k) 32
    ∙ ap (λ e. 2 ^ e) (omega arith)
