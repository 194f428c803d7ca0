-- ===== src/Uint256.antt =====
-- src/crypto/uint256.h, class base_uint: numbers of WIDTH 32-bit words, the lowest word first. The
-- array `pn` is the list of its words.
pub mod Value
pub mod Order
pub mod Product
pub mod Bits
pub mod Shift
pub mod Divide
pub mod Compact
use Prim.Native.Nat.{bit_and, bit_or, bit_xor}
use mathlib.Core.List.{reverse}
use mamio.Base.{
  ℕ, zero, suc, length, ◌+◌, ◌-◌, ◌*◌, ◌/◌, ◌%◌, ◌^◌, Bool, true, false, not, ◌&&◌, List, [], ◌∷◌,
  ltb, ◌==◌, if◌then◌else◌,
}

abbrev pub base : ℕ
base = 2 ^ 32

-- operator!
unfoldable pub is_zero : List ℕ → Bool
is_zero [] = true
is_zero (x ∷ xs) = if not (x == 0) then false else is_zero xs

unfoldable pub complement : List ℕ → List ℕ
complement [] = []
complement (x ∷ xs) = (base - 1 - x) ∷ complement xs

-- operator++: the loop goes on while a word has wrapped to 0.
unfoldable pub increment : List ℕ → List ℕ
increment [] = []
increment (x ∷ xs) =
    if (x + 1) % base == 0 then (x + 1) % base ∷ increment xs else (x + 1) % base ∷ xs

-- operator--: the loop goes on while a word has wrapped to 0xffffffff.
unfoldable pub decrement : List ℕ → List ℕ
decrement [] = []
decrement (x ∷ xs) =
    if (x + base - 1) % base == base - 1
    then (x + base - 1) % base ∷ decrement xs
    else (x + base - 1) % base ∷ xs

unfoldable pub negate : List ℕ → List ℕ
negate xs = increment (complement xs)

-- The loop of operator+= from a carry, in 64-bit arithmetic.
unfoldable pub add_loop : ℕ → List ℕ → List ℕ → List ℕ
add_loop carry (x ∷ xs) (y ∷ ys) = (carry + x + y) % base ∷ add_loop ((carry + x + y) / base) xs ys
add_loop carry _ _ = []

unfoldable pub add : List ℕ → List ℕ → List ℕ
add = add_loop 0

unfoldable pub subtract : List ℕ → List ℕ → List ℕ
subtract xs ys = add xs (negate ys)

unfoldable pub fill_zero : List ℕ → List ℕ
fill_zero [] = []
fill_zero (x ∷ xs) = 0 ∷ fill_zero xs

-- operator=(uint64), over the words that are there.
unfoldable pub set_uint64 : ℕ → List ℕ → List ℕ
set_uint64 b (x ∷ y ∷ xs) = b % base ∷ b / base % base ∷ fill_zero xs
set_uint64 b xs = xs

unfoldable pub add_uint64 : List ℕ → ℕ → List ℕ
add_uint64 xs b = add xs (set_uint64 b xs)

unfoldable pub subtract_uint64 : List ℕ → ℕ → List ℕ
subtract_uint64 xs b = add xs (negate (set_uint64 b xs))

-- The loop of operator*=(uint32_t) from a carry.
unfoldable pub multiply_loop : ℕ → ℕ → List ℕ → List ℕ
multiply_loop carry b [] = []
multiply_loop carry b (x ∷ xs) =
    (carry + b * x) % base ∷ multiply_loop ((carry + b * x) / base) b xs

unfoldable pub multiply_uint32 : List ℕ → ℕ → List ℕ
multiply_uint32 xs b = multiply_loop 0 b xs

-- The inner loop of operator*=(const base_uint&): the words of `a` from j on, and b from its lowest.
unfoldable pub multiply_row : ℕ → ℕ → List ℕ → List ℕ → List ℕ
multiply_row carry x (a ∷ ws) (b ∷ bs) =
    (carry + a + x * b) % base ∷ multiply_row ((carry + a + x * b) / base) x ws bs
multiply_row carry x ws _ = ws

-- The outer loop: after round j the word of `a` at j is done.
unfoldable pub multiply_rows : List ℕ → List ℕ → List ℕ → List ℕ
multiply_rows [] bs ws = ws
multiply_rows (x ∷ xs) bs ws = elim (multiply_row 0 x ws bs) [
  | [] ↦ []
  | d ∷ ds ↦ d ∷ multiply_rows xs bs ds
]

-- `start` is what the words of the local `a` hold when it is declared: base_uint has no constructor.
unfoldable pub multiply : List ℕ → List ℕ → List ℕ → List ℕ
multiply start xs ys = multiply_rows xs ys start

-- operator^=, operator&= and operator|=
unfoldable pub zip_words : (ℕ → ℕ → ℕ) → List ℕ → List ℕ → List ℕ
zip_words f (x ∷ xs) (y ∷ ys) = f x y ∷ zip_words f xs ys
zip_words f _ _ = []

unfoldable pub xor_words : List ℕ → List ℕ → List ℕ
xor_words = zip_words bit_xor

unfoldable pub and_words : List ℕ → List ℕ → List ℕ
and_words = zip_words bit_and

unfoldable pub or_words : List ℕ → List ℕ → List ℕ
or_words = zip_words bit_or

-- The comparisons run from the highest word down; these take the highest word first.
unfoldable pub less_loop : Bool → List ℕ → List ℕ → Bool
less_loop equal (x ∷ xs) (y ∷ ys) =
    if ltb x y then true else if ltb y x then false else less_loop equal xs ys
less_loop equal _ _ = equal

unfoldable pub greater_loop : Bool → List ℕ → List ℕ → Bool
greater_loop equal (x ∷ xs) (y ∷ ys) =
    if ltb y x then true else if ltb x y then false else greater_loop equal xs ys
greater_loop equal _ _ = equal

unfoldable pub less : List ℕ → List ℕ → Bool
less xs ys = less_loop false (reverse xs) (reverse ys)

unfoldable pub less_equal : List ℕ → List ℕ → Bool
less_equal xs ys = less_loop true (reverse xs) (reverse ys)

unfoldable pub greater : List ℕ → List ℕ → Bool
greater xs ys = greater_loop false (reverse xs) (reverse ys)

unfoldable pub greater_equal : List ℕ → List ℕ → Bool
greater_equal xs ys = greater_loop true (reverse xs) (reverse ys)

unfoldable pub equal : List ℕ → List ℕ → Bool
equal (x ∷ xs) (y ∷ ys) = if not (x == y) then false else equal xs ys
equal _ _ = true

-- operator==(uint64)
unfoldable pub equal_uint64 : List ℕ → ℕ → Bool
equal_uint64 (x ∷ y ∷ xs) b =
    if not (x == b % base) then false else if not (y == b / base % base) then false else is_zero xs
equal_uint64 xs b = true

-- The scan of Bits() through a word, from bit n down; bit 0 is not tested.
unfoldable pub top_bit : ℕ → ℕ → ℕ
top_bit zero w = 1
top_bit (suc n) w = if w / 2 ^ suc n % 2 == 1 then suc n + 1 else top_bit n w

-- Bits(), from the highest word down.
unfoldable pub bits_loop : List ℕ → ℕ
bits_loop [] = 0
bits_loop (x ∷ xs) = if not (x == 0) then 32 * length xs + top_bit 31 x else bits_loop xs

unfoldable pub bits : List ℕ → ℕ
bits xs = bits_loop (reverse xs)
