-- ===== src/Core/Target/Trust.antt =====
-- src/minemon/core.cpp, CCoreProtocol::GetBlockTrust: the trust as a quotient.
use mamio.Base.{
  ℕ, length, ◌+◌, ◌-◌, ◌/◌, ◌%◌, ◌^◌, ◌<◌, ◌≡◌, refl, sym, ◌∙◌, true, false, List, [], ◌∷◌, some,
  ◌==◌, arith,
}
use native.Mathlib.Nat.{div-eq-sub-div, div-lt_self}
use mamio.Uint256.{complement, set_uint64, add, add_uint64}
use mamio.Uint256.Value.{
  value, modulus, modulus-length, AreWords-add_loop, AreWords-complement, value-add,
  value-complement, length-complement,
}
use mamio.Uint256.Shift.Kept.{IsNumber, fill_zero-IsNumber}
use mamio.Uint256.Divide.{divide}
use mamio.Uint256.Divide.Quotient.{value-divide}
use mamio.Uint256.Compact.{set_compact}
use mamio.Uint256.Compact.Parts.{value-set_uint64}
use mamio.Uint256.Divide.Rounds.{length-add_loop}
use mamio.Core.Target.{zero_words, get_block_trust}
use mamio.Core.Target.Width.{zero_words-IsNumber, set_compact-IsNumber, divide-IsNumber}

modulus_words : (xs : List ℕ) → length xs ≡ 8 → modulus xs ≡ 2 ^ 256
unfolding modulus
modulus_words xs h = modulus-length xs zero_words h ∙ refl

length-set_uint64 : (b : ℕ) (xs : List ℕ) → length (set_uint64 b xs) ≡ length xs
unfolding set_uint64
length-set_uint64 b [] = refl
length-set_uint64 b (x ∷ []) = refl
length-set_uint64 b (x ∷ y ∷ xs) = omega (arith, (fill_zero-IsNumber xs).width)

value-add_uint64 :
    (xs : List ℕ) (b : ℕ)
    → length xs ≡ 8
    → b < 2 ^ 64
    → (value (add_uint64 xs b) ≡ (value xs + b) % 2 ^ 256) × IsNumber 8 (add_uint64 xs b)
unfolding add_uint64 add
value-add_uint64 xs b h lt =
    let same = length-set_uint64 b xs in
    let e = value-set_uint64 b xs lt (omega (arith, h)) in
    let v : value (add xs (set_uint64 b xs)) ≡ (value xs + b) % 2 ^ 256 =
      rw (modulus_words xs h, e) at (value-add xs (set_uint64 b xs) (sym same)) in
    (
      v,
      record {
        words = AreWords-add_loop 0 xs (set_uint64 b xs);
        width = length-add_loop 0 xs (set_uint64 b xs) (sym same) ∙ h;
      },
    )

-- For a target between 0 and 2 ^ 256 - 1, GetBlockTrust of a primary block with proof of work is the
-- quotient of 2 ^ 256 by the target and one.
pub get_block_trust-quotient :
    (bits : ℕ)
    → 0 < value (set_compact bits zero_words)
    → value (set_compact bits zero_words) + 1 < 2 ^ 256
    → (trust : List ℕ) × (get_block_trust true true bits ≡ some trust)
      × (value trust ≡ 2 ^ 256 / (value (set_compact bits zero_words) + 1))
unfolding get_block_trust
get_block_trust-quotient bits pos lt =
    let xs = set_compact bits zero_words in
    let h = set_compact-IsNumber 8 bits zero_words zero_words-IsNumber in
    let t = value xs in
    let (e, next) = value-add_uint64 xs 1 h.width (omega arith) in
    let d : value (add_uint64 xs 1) ≡ t + 1 = omega (arith, e, lt) in
    let c : value (complement xs) ≡ 2 ^ 256 - (t + 1) =
      omega (arith, value-complement xs h.words, modulus_words xs h.width) in
    let number : IsNumber 8 (complement xs) = record {
      words = AreWords-complement xs;
      width = length-complement xs ∙ h.width;
    } in
    let q = divide (complement xs) (add_uint64 xs 1) in
    let some_divisor : (value (add_uint64 xs 1) == 0) ≡ false = ground (arith, d) in
    let quotient : value q ≡ (2 ^ 256 - (t + 1)) / (t + 1) =
      rw (some_divisor, c, d) at
        (value-divide (complement xs) (add_uint64 xs 1) (number.width ∙ sym next.width) number.words
          next.words) in
    let (f, _) =
      value-add_uint64 q 1 (divide-IsNumber 8 (complement xs) (add_uint64 xs 1) number next).width
        (omega arith) in
    let s : 2 ^ 256 / (t + 1) ≡ (2 ^ 256 - (t + 1)) / (t + 1) + 1 =
      div-eq-sub-div {m = t + 1} {n = 2 ^ 256} (omega arith) (omega (arith, lt)) in
    let bound : 2 ^ 256 / (t + 1) < 2 ^ 256 = div-lt_self (omega arith) (omega (arith, pos)) in
    (add_uint64 q 1, refl, omega (arith, f, quotient, s, bound))
