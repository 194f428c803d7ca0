-- ===== src/Uint256/Order.antt =====
-- The comparisons of base_uint are those of the numbers.
use mathlib.Core.List.{reverse, reverse-cons}
use mamio.Base.{
  ℕ, ◌+◌, ◌*◌, ◌≤◌, ◌<◌, ◌≡◌, refl, Bool, true, false, List, [], ◌∷◌, ◌++◌, arith, length, ltb, leb,
  if◌then◌else◌, ap, sym, subst, ◌∙◌, length-append,
}
use mamio.Uint256.{base, less_loop, greater_loop, less, less_equal, greater, greater_equal, equal}
use mamio.Uint256.Value.{value, modulus, AreWords, modulus-length}

-- The number whose highest word is the first.
unfoldable pub high_value : List ℕ → ℕ
high_value [] = 0
high_value (x ∷ xs) = x * modulus xs + high_value xs

pub high_value-lt : (xs : List ℕ) → AreWords xs → high_value xs < modulus xs
unfolding high_value modulus
high_value-lt [] w = omega arith
high_value-lt (x ∷ xs) w =
    let below : (x + 1) * modulus xs ≤ base * modulus xs = grind arith in
    omega (arith, below, high_value-lt xs w.1)

high_word : (x y m v w : ℕ) → x < y → v < m → x * m + v < y * m + w
high_word x y m v w h lt = let below : (x + 1) * m ≤ y * m = grind arith in omega (arith, below)

less_loop_lem :
    (equal : Bool) (xs ys : List ℕ)
    → length xs ≡ length ys
    → AreWords xs
    → AreWords ys
    → less_loop equal xs ys
      ≡ (if equal then leb (high_value xs) (high_value ys) else ltb (high_value xs) (high_value ys))
unfolding less_loop high_value
less_loop_lem equal [] [] h v w = ground arith
less_loop_lem equal [] (y ∷ ys) h v w = absurd (omega arith)
less_loop_lem equal (x ∷ xs) [] h v w = absurd (omega arith)
less_loop_lem equal (x ∷ xs) (y ∷ ys) h v w =
    let m : modulus xs ≡ modulus ys = modulus-length xs ys (omega arith) in
    ground (
      arith,
      m,
      less_loop_lem equal xs ys (omega arith) v.1 w.1,
      high_word x y (modulus xs) (high_value xs) (high_value ys),
      high_word y x (modulus xs) (high_value ys) (high_value xs),
      high_value-lt xs v.1,
      high_value-lt ys w.1,
    )

-- operator> scans as operator< does, with the numbers exchanged.
greater_loop_lem :
    (equal : Bool) (xs ys : List ℕ)
    → length xs ≡ length ys
    → greater_loop equal xs ys ≡ less_loop equal ys xs
unfolding greater_loop less_loop
greater_loop_lem equal [] [] h = refl
greater_loop_lem equal [] (y ∷ ys) h = absurd (omega arith)
greater_loop_lem equal (x ∷ xs) [] h = absurd (omega arith)
greater_loop_lem equal (x ∷ xs) (y ∷ ys) h =
    ground (arith, greater_loop_lem equal xs ys (omega arith))

modulus-append : (x : ℕ) (xs : List ℕ) → modulus (xs ++ x ∷ []) ≡ base * modulus xs
unfolding modulus
modulus-append x [] = refl
modulus-append x (y ∷ ys) = omega (arith, modulus-append x ys)

high_value-append : (x : ℕ) (xs : List ℕ) → high_value (xs ++ x ∷ []) ≡ base * high_value xs + x
unfolding high_value modulus
high_value-append x [] = omega arith
high_value-append x (y ∷ ys) =
    let p : y * modulus (ys ++ x ∷ []) ≡ y * (base * modulus ys) =
      ap (λ m. y * m) (modulus-append x ys) in
    omega (arith, p, high_value-append x ys)

AreWords-append : (x : ℕ) (xs : List ℕ) → x < base → AreWords xs → AreWords (xs ++ x ∷ [])
AreWords-append x [] h w = (h, tt)
AreWords-append x (y ∷ ys) h w = (w.0, AreWords-append x ys h w.1)

pub high_value-reverse : (xs : List ℕ) → high_value (reverse xs) ≡ value xs
unfolding value high_value
high_value-reverse [] = refl
high_value-reverse (x ∷ xs) =
    ap high_value (reverse-cons x xs)
    ∙ omega (arith, high_value-append x (reverse xs), high_value-reverse xs)

pub length-reverse : (xs : List ℕ) → length (reverse xs) ≡ length xs
length-reverse [] = refl
length-reverse (x ∷ xs) =
    ap length (reverse-cons x xs)
    ∙ omega (arith, length-append (reverse xs) (x ∷ []), length-reverse xs)

pub AreWords-reverse : (xs : List ℕ) → AreWords xs → AreWords (reverse xs)
AreWords-reverse [] w = tt
AreWords-reverse (x ∷ xs) w =
    subst AreWords (sym (reverse-cons x xs))
      (AreWords-append x (reverse xs) w.0 (AreWords-reverse xs w.1))

-- The scan of two numbers of the same width from their highest words.
scan_lem :
    (equal : Bool) (xs ys : List ℕ)
    → length xs ≡ length ys
    → AreWords xs
    → AreWords ys
    → less_loop equal (reverse xs) (reverse ys)
      ≡ (if equal then leb (value xs) (value ys) else ltb (value xs) (value ys))
scan_lem equal xs ys h v w =
    less_loop_lem equal (reverse xs) (reverse ys)
      (omega (arith, length-reverse xs, length-reverse ys)) (AreWords-reverse xs v)
      (AreWords-reverse ys w)
    ∙ ap (λ a. if equal then leb a (high_value (reverse ys)) else ltb a (high_value (reverse ys)))
        (high_value-reverse xs)
    ∙ ap (λ b. if equal then leb (value xs) b else ltb (value xs) b) (high_value-reverse ys)

-- For numbers of 32-bit words and of one width, operator<, operator<=, operator> and operator>=
-- compare the numbers that the words stand for.
pub comparisons :
    (xs ys : List ℕ)
    → length xs ≡ length ys
    → AreWords xs
    → AreWords ys
    → (less xs ys ≡ ltb (value xs) (value ys))
      × (less_equal xs ys ≡ leb (value xs) (value ys))
      × (greater xs ys ≡ ltb (value ys) (value xs))
      × (greater_equal xs ys ≡ leb (value ys) (value xs))
unfolding less less_equal greater greater_equal
comparisons xs ys h v w =
    let l : length (reverse xs) ≡ length (reverse ys) =
      omega (arith, length-reverse xs, length-reverse ys) in
    (
      scan_lem false xs ys h v w,
      scan_lem true xs ys h v w,
      greater_loop_lem false (reverse xs) (reverse ys) l ∙ scan_lem false ys xs (sym h) w v,
      greater_loop_lem true (reverse xs) (reverse ys) l ∙ scan_lem true ys xs (sym h) w v,
    )
