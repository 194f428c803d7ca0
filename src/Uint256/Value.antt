-- ===== src/Uint256/Value.antt =====
-- The arithmetic of base_uint is arithmetic modulo 2 ^ BITS.
use mamio.Base.{
  ℕ, ◌+◌, ◌-◌, ◌*◌, ◌/◌, ◌%◌, ◌<◌, ◌≡◌, refl, inl, inr, List, [], ◌∷◌, arith, length, ◌==◌,
  Bool-cases,
}
use mamio.Uint256.{
  base, complement, increment, negate, add_loop, add, subtract, multiply_loop, multiply_uint32,
}

-- The number that the words stand for.
unfoldable pub value : List ℕ → ℕ
value [] = 0
value (x ∷ xs) = x + base * value xs

-- 2 ^ BITS
unfoldable pub modulus : List ℕ → ℕ
modulus [] = 1
modulus (x ∷ xs) = base * modulus xs

abbrev pub AreWords : List ℕ → Type 0
AreWords [] = Unit {0}
AreWords (x ∷ xs) = (x < base) × AreWords xs

pub value-lt-modulus : (xs : List ℕ) → AreWords xs → value xs < modulus xs
unfolding value modulus
value-lt-modulus [] w = omega arith
value-lt-modulus (x ∷ xs) w = omega (arith, value-lt-modulus xs w.1)

-- The carry out of the loop of operator+=.
carry_out : ℕ → List ℕ → List ℕ → ℕ
carry_out carry (x ∷ xs) (y ∷ ys) = carry_out ((carry + x + y) / base) xs ys
carry_out carry _ _ = carry

value-add_loop :
    (carry : ℕ) (xs ys : List ℕ)
    → length xs ≡ length ys
    → value (add_loop carry xs ys) + carry_out carry xs ys * modulus xs
      ≡ carry + value xs + value ys
unfolding value modulus add_loop carry_out
value-add_loop carry [] [] h = omega arith
value-add_loop carry [] (y ∷ ys) h = absurd (omega arith)
value-add_loop carry (x ∷ xs) [] h = absurd (omega arith)
value-add_loop carry (x ∷ xs) (y ∷ ys) h =
    omega (arith, value-add_loop ((carry + x + y) / base) xs ys (omega arith))

pub AreWords-add_loop : (carry : ℕ) (xs ys : List ℕ) → AreWords (add_loop carry xs ys)
unfolding add_loop
AreWords-add_loop carry [] ys = tt
AreWords-add_loop carry (x ∷ xs) [] = tt
AreWords-add_loop carry (x ∷ xs) (y ∷ ys) =
    (omega arith, AreWords-add_loop ((carry + x + y) / base) xs ys)

modulus-add_loop :
    (carry : ℕ) (xs ys : List ℕ)
    → length xs ≡ length ys
    → modulus (add_loop carry xs ys) ≡ modulus xs
unfolding modulus add_loop
modulus-add_loop carry [] ys h = refl
modulus-add_loop carry (x ∷ xs) [] h = absurd (omega arith)
modulus-add_loop carry (x ∷ xs) (y ∷ ys) h =
    omega (arith, modulus-add_loop ((carry + x + y) / base) xs ys (omega arith))

-- A remainder is known from its range and a multiple.
pub mod_of : (r c m s : ℕ) → r + c * m ≡ s → r < m → r ≡ s % m
mod_of r c m s e lt = grind arith

-- For numbers of one width, operator+= adds modulo 2 ^ BITS.
pub value-add :
    (xs ys : List ℕ)
    → length xs ≡ length ys
    → value (add xs ys) ≡ (value xs + value ys) % modulus xs
unfolding add
value-add xs ys h =
    mod_of (value (add_loop 0 xs ys)) (carry_out 0 xs ys) (modulus xs) (value xs + value ys)
      (omega (arith, value-add_loop 0 xs ys h))
      (omega (
        arith,
        value-lt-modulus (add_loop 0 xs ys) (AreWords-add_loop 0 xs ys),
        modulus-add_loop 0 xs ys h,
      ))

-- operator~, as a number.
pub value-complement :
    (xs : List ℕ) → AreWords xs → value (complement xs) + value xs + 1 ≡ modulus xs
unfolding value modulus complement
value-complement [] w = omega arith
value-complement (x ∷ xs) w = omega (arith, value-complement xs w.1)

pub length-complement : (xs : List ℕ) → length (complement xs) ≡ length xs
unfolding complement
length-complement [] = refl
length-complement (x ∷ xs) = omega (arith, length-complement xs)

pub AreWords-complement : (xs : List ℕ) → AreWords (complement xs)
unfolding complement
AreWords-complement [] = tt
AreWords-complement (x ∷ xs) = (omega arith, AreWords-complement xs)

-- operator++ with the carry that it loses.
increment_carry :
    (xs : List ℕ) → AreWords xs → (c : ℕ) × (value (increment xs) + c * modulus xs ≡ value xs + 1)
unfolding value modulus increment
increment_carry [] w = (1, omega arith)
increment_carry (x ∷ xs) w = elim (Bool-cases ((x + 1) % base == 0)) [
  | inl h ↦ let (c, e) = increment_carry xs w.1 in (c, ground arith)
  | inr h ↦ (0, ground arith)
]

AreWords-increment : (xs : List ℕ) → AreWords xs → AreWords (increment xs)
unfolding increment
AreWords-increment [] w = tt
AreWords-increment (x ∷ xs) w = ground (arith, AreWords-increment xs w.1)

length-increment : (xs : List ℕ) → length (increment xs) ≡ length xs
unfolding increment
length-increment [] = refl
length-increment (x ∷ xs) = ground (arith, length-increment xs)

pub modulus-length : (xs ys : List ℕ) → length xs ≡ length ys → modulus xs ≡ modulus ys
unfolding modulus
modulus-length [] [] h = refl
modulus-length [] (y ∷ ys) h = absurd (omega arith)
modulus-length (x ∷ xs) [] h = absurd (omega arith)
modulus-length (x ∷ xs) (y ∷ ys) h = omega (arith, modulus-length xs ys (omega arith))

-- For a number of 32-bit words, operator++ adds 1 modulo 2 ^ BITS.
pub value-increment :
    (xs : List ℕ) → AreWords xs → value (increment xs) ≡ (value xs + 1) % modulus xs
value-increment xs w =
    let (c, e) = increment_carry xs w in
    mod_of (value (increment xs)) c (modulus xs) (value xs + 1) e (
      omega (
        arith,
        value-lt-modulus (increment xs) (AreWords-increment xs w),
        modulus-length (increment xs) xs (length-increment xs),
      ))

negate_carry :
    (xs : List ℕ)
    → AreWords xs
    → (c : ℕ) × (value (negate xs) + c * modulus xs + value xs ≡ modulus xs)
unfolding negate
negate_carry xs w =
    let (c, e) = increment_carry (complement xs) (AreWords-complement xs) in
    let m : modulus (complement xs) ≡ modulus xs =
      modulus-length (complement xs) xs (length-complement xs) in
    (c, omega (arith, rw m at e, value-complement xs w))

pub length-negate : (xs : List ℕ) → length (negate xs) ≡ length xs
unfolding negate
length-negate xs = omega (arith, length-increment (complement xs), length-complement xs)

-- For numbers of one width, the second of 32-bit words, operator-= subtracts modulo 2 ^ BITS.
pub value-subtract :
    (xs ys : List ℕ)
    → length xs ≡ length ys
    → AreWords ys
    → value (subtract xs ys) ≡ (value xs + (modulus xs - value ys)) % modulus xs
unfolding subtract add
value-subtract xs ys h w =
    let n = negate ys in
    let (d, e) = negate_carry ys w in
    let c : ℕ = carry_out 0 xs n in
    let l : length xs ≡ length n = omega (arith, length-negate ys) in
    let m : modulus ys ≡ modulus xs = modulus-length ys xs (omega arith) in
    mod_of (value (add_loop 0 xs n)) (c + d) (modulus xs) (value xs + (modulus xs - value ys))
      (omega (arith, value-add_loop 0 xs n l, rw m at e))
      (omega (
        arith,
        value-lt-modulus (add_loop 0 xs n) (AreWords-add_loop 0 xs n),
        modulus-add_loop 0 xs n l,
      ))

multiply_carry : ℕ → ℕ → List ℕ → ℕ
multiply_carry carry b [] = carry
multiply_carry carry b (x ∷ xs) = multiply_carry ((carry + b * x) / base) b xs

value-multiply_loop :
    (carry b : ℕ) (xs : List ℕ)
    → value (multiply_loop carry b xs) + multiply_carry carry b xs * modulus xs
      ≡ carry + b * value xs
unfolding value modulus multiply_loop multiply_carry
value-multiply_loop carry b [] = omega arith
value-multiply_loop carry b (x ∷ xs) =
    omega (arith, value-multiply_loop ((carry + b * x) / base) b xs)

pub AreWords-multiply_loop : (carry b : ℕ) (xs : List ℕ) → AreWords (multiply_loop carry b xs)
unfolding multiply_loop
AreWords-multiply_loop carry b [] = tt
AreWords-multiply_loop carry b (x ∷ xs) =
    (omega arith, AreWords-multiply_loop ((carry + b * x) / base) b xs)

pub length-multiply_loop :
    (carry b : ℕ) (xs : List ℕ) → length (multiply_loop carry b xs) ≡ length xs
unfolding multiply_loop
length-multiply_loop carry b [] = refl
length-multiply_loop carry b (x ∷ xs) =
    omega (arith, length-multiply_loop ((carry + b * x) / base) b xs)

-- operator*=(uint32_t) multiplies modulo 2 ^ BITS.
pub value-multiply_uint32 :
    (xs : List ℕ) (b : ℕ) → value (multiply_uint32 xs b) ≡ (b * value xs) % modulus xs
unfolding multiply_uint32
value-multiply_uint32 xs b =
    let r = multiply_loop 0 b xs in
    mod_of (value r) (multiply_carry 0 b xs) (modulus xs) (b * value xs)
      (omega (arith, value-multiply_loop 0 b xs))
      (omega (
        arith,
        value-lt-modulus r (AreWords-multiply_loop 0 b xs),
        modulus-length r xs (length-multiply_loop 0 b xs),
      ))
