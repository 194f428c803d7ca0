-- ===== src/Uint256/Product.antt =====
-- operator*= of two wide numbers multiplies, on top of what its local held.
use mamio.Base.{ℕ, ◌+◌, ◌*◌, ◌/◌, ◌%◌, ◌≤◌, ◌<◌, ◌≡◌, refl, ap, List, [], ◌∷◌, arith, length}
use mamio.Uint256.{base, multiply_row, multiply_rows, multiply}
use mamio.Uint256.Value.{value, modulus, AreWords, value-lt-modulus, modulus-length, mod_of}

value-multiply_row :
    (carry x : ℕ) (ws bs : List ℕ)
    → length ws ≤ length bs
    → (c : ℕ) × (value (multiply_row carry x ws bs) + c * modulus ws
        ≡ carry + value ws + x * value bs)
unfolding value modulus multiply_row
value-multiply_row carry x [] [] h = (carry, omega arith)
value-multiply_row carry x [] (b ∷ bs) h = (carry + x * value (b ∷ bs), omega arith)
value-multiply_row carry x (a ∷ ws) [] h = absurd (omega arith)
value-multiply_row carry x (a ∷ ws) (b ∷ bs) h =
    let (c, e) = value-multiply_row ((carry + a + x * b) / base) x ws bs (omega arith) in
    (c, omega (arith, e))

length-multiply_row :
    (carry x : ℕ) (ws bs : List ℕ) → length (multiply_row carry x ws bs) ≡ length ws
unfolding multiply_row
length-multiply_row carry x [] [] = refl
length-multiply_row carry x [] (b ∷ bs) = refl
length-multiply_row carry x (a ∷ ws) [] = refl
length-multiply_row carry x (a ∷ ws) (b ∷ bs) =
    omega (arith, length-multiply_row ((carry + a + x * b) / base) x ws bs)

AreWords-multiply_row :
    (carry x : ℕ) (ws bs : List ℕ) → length ws ≤ length bs → AreWords (multiply_row carry x ws bs)
unfolding multiply_row
AreWords-multiply_row carry x [] [] h = tt
AreWords-multiply_row carry x [] (b ∷ bs) h = tt
AreWords-multiply_row carry x (a ∷ ws) [] h = absurd (omega arith)
AreWords-multiply_row carry x (a ∷ ws) (b ∷ bs) h =
    (omega arith, AreWords-multiply_row ((carry + a + x * b) / base) x ws bs (omega arith))

-- What a round leaves: a word, and the words above it.
record Round (x : ℕ) (ws bs : List ℕ) : Type 0 where
  low : ℕ
  high : List ℕ
  split : multiply_row 0 x ws bs ≡ low ∷ high
  size : length high + 1 ≡ length ws
  word : low < base
  carry : ℕ
  total : low + base * value high + carry * modulus ws ≡ value ws + x * value bs

split-Round :
    (x : ℕ) (ws bs r : List ℕ) (c : ℕ)
    → multiply_row 0 x ws bs ≡ r
    → 0 < length ws
    → length r ≡ length ws
    → AreWords r
    → value r + c * modulus ws ≡ 0 + value ws + x * value bs
    → Round x ws bs
unfolding value
split-Round x ws bs [] c e h l w t = absurd (omega arith)
split-Round x ws bs (d ∷ ds) c e h l w t = record {
  low = d;
  high = ds;
  split = e;
  size = omega (arith, l);
  word = w.0;
  carry = c;
  total = omega (arith, t);
}

multiply_row-Round :
    (x : ℕ) (ws bs : List ℕ) → 0 < length ws → length ws ≤ length bs → Round x ws bs
multiply_row-Round x ws bs h l =
    let (c, e) = value-multiply_row 0 x ws bs l in
    split-Round x ws bs (multiply_row 0 x ws bs) c refl h (length-multiply_row 0 x ws bs)
      (AreWords-multiply_row 0 x ws bs l) e

record Rounds (xs bs ws r : List ℕ) : Type 0 where
  size : length r ≡ length ws
  words : AreWords r
  carry : ℕ
  total : value r + carry * modulus ws ≡ value ws + value xs * value bs

multiply_rows-Rounds :
    (xs bs ws : List ℕ)
    → length xs ≡ length ws
    → length ws ≤ length bs
    → Rounds xs bs ws (multiply_rows xs bs ws)
unfolding multiply_rows value modulus
multiply_rows-Rounds [] bs [] h l = record {
  size = refl;
  words = tt;
  carry = 0;
  total = omega arith;
}
multiply_rows-Rounds [] bs (a ∷ ws) h l = absurd (omega arith)
multiply_rows-Rounds (x ∷ xs) bs ws h l =
    let r = multiply_row-Round x ws bs (omega arith) l in
    let rest =
      multiply_rows-Rounds xs bs r.high (omega (arith, r.size, h)) (omega (arith, r.size, l)) in
    let m : modulus ws ≡ base * modulus r.high =
      modulus-length ws (0 ∷ r.high) (omega (arith, r.size)) in
    let p : rest.carry * modulus ws ≡ rest.carry * (base * modulus r.high) =
      ap (λ n. rest.carry * n) m in
    rw (r.split, multiply_rows)
      (record {
        size = omega (arith, rest.size, r.size);
        words = (r.word, rest.words);
        carry = r.carry + rest.carry;
        total = omega (arith, r.total, rest.total, p);
      })

-- operator*= of numbers of one width is the product modulo 2 ^ BITS, with what the words of its
-- local variable held at first added to it.
pub value-multiply :
    (start xs ys : List ℕ)
    → length start ≡ length xs
    → length xs ≡ length ys
    → value (multiply start xs ys) ≡ (value start + value xs * value ys) % modulus xs
unfolding multiply
value-multiply start xs ys h l =
    let r = multiply_rows-Rounds xs ys start (omega (arith, h)) (omega (arith, h, l)) in
    let m : modulus start ≡ modulus xs = modulus-length start xs h in
    mod_of (value (multiply_rows xs ys start)) r.carry (modulus xs)
      (value start + value xs * value ys) (rw m at r.total)
      (omega (
        arith,
        value-lt-modulus (multiply_rows xs ys start) r.words,
        modulus-length (multiply_rows xs ys start) xs (omega (arith, r.size, h)),
      ))
