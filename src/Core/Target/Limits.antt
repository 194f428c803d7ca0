-- ===== src/Core/Target/Limits.antt =====
-- src/minemon/core.cpp, CCoreProtocol::GetProofOfWorkTarget: the limits of the target.
use mamio.Base.{
  ℕ, ◌+◌, ◌-◌, ◌*◌, ◌/◌, ◌%◌, ◌^◌, ◌≤◌, ◌≡◌, sym, ◌∙◌, inl, inr, false, not, List, ◌∷◌, Option,
  none, some, ltb, ◌==◌, if◌then◌else◌, if_cases, arith, Bool-cases, Option-cases,
}
use native.Mathlib.Nat.{div-mul-le_self}
use mamio.Uint256.{less, greater, bits}
use mamio.Uint256.Value.{value}
use mamio.Uint256.Order.{comparisons}
use mamio.Uint256.Shift.Kept.{IsNumber}
use mamio.Uint256.Compact.{set_compact, get_compact}
use mamio.Uint256.Compact.Digits.{value-set_compact-get_compact}
use mamio.Uint256.Compact.Monotone.{kept-le}
use mamio.Core.Target.Width.{zero_words-IsNumber, set_compact-IsNumber, scaled-IsNumber}
use mamio.Core.Target.Configured.{AreLimits, new_difficulty-AreLimits}
use mamio.Core.Target.{
  BlockIndex, Difficulty, zero_words, step_back, target_timespan, limited_timespan, scaled, limited,
  adjusted, get_proof_of_work_target, new_difficulty,
}

-- A number between the limits.
record IsWithin (d : Difficulty) (target : List ℕ) : Type 0 where
  number : IsNumber 8 target
  low : value d.upper_limit ≤ value target
  high : value target ≤ value d.lower_limit

limited-IsWithin :
    (d : Difficulty) (target : List ℕ)
    → IsNumber 8 d.lower_limit
    → IsNumber 8 d.upper_limit
    → value d.upper_limit ≤ value d.lower_limit
    → IsNumber 8 target
    → IsWithin d (limited d target)
unfolding limited
limited-IsWithin d target lower upper le h =
    let raised = if less target d.upper_limit then d.upper_limit else target in
    let (small, _, _, _) =
      comparisons target d.upper_limit (h.width ∙ sym upper.width) h.words upper.words in
    let number : IsNumber 8 raised =
      if_cases (IsNumber 8) (less target d.upper_limit) (λ t. upper) (λ t. h) in
    let above : value d.upper_limit ≤ value raised =
      if_cases (λ xs. value d.upper_limit ≤ value xs) (less target d.upper_limit) (λ t. omega arith)
        (λ t. ground (arith, small, t)) in
    let (_, _, large, _) =
      comparisons raised d.lower_limit (number.width ∙ sym lower.width) number.words lower.words in
    if_cases (IsWithin d) (greater raised d.lower_limit)
      (λ t. record { number = lower; low = le; high = omega arith })
      (λ t. record { number = number; low = above; high = ground (arith, large, t) })

-- What SetCompact reads of a compact form is between the limits.
abbrev pub IsTarget : Difficulty → ℕ → Type 0
IsTarget d compact =
    (value d.upper_limit ≤ value (set_compact compact zero_words))
    × (value (set_compact compact zero_words) ≤ value d.lower_limit)

IsWithin-IsTarget :
    (d : Difficulty) (target : List ℕ)
    → AreLimits d
    → IsWithin d target
    → IsTarget d (get_compact false target)
IsWithin-IsTarget d target l h =
    let p = 2 ^ (8 * (bits target / 8 - 2)) in
    let e =
      value-set_compact-get_compact target zero_words h.number.words zero_words-IsNumber.words
        h.number.width (omega (arith, h.number.width)) in
    let le = kept-le d.upper_limit target l.upper.words h.number.words h.low in
    (omega (arith, e, le, l.whole), omega (arith, e, div-mul-le_self (value target) p, h.high))

abbrev IfTarget : Difficulty → Option ℕ → Type 0
IfTarget d none = Unit {0}
IfTarget d (some compact) = IsTarget d compact

adjusted-IfTarget :
    (d : Difficulty) (last first : BlockIndex) → AreLimits d → IfTarget d (adjusted d last first)
unfolding adjusted
adjusted-IfTarget d last first l =
    let start = set_compact last.proof_bits zero_words in
    let span = limited_timespan (last.time - first.time) (target_timespan d) in
    let target = scaled start span (target_timespan d) in
    let number =
      scaled-IsNumber start span (target_timespan d)
        (set_compact-IsNumber 8 last.proof_bits zero_words zero_words-IsNumber) in
    if_cases (IfTarget d) (ltb last.time first.time) (λ t. tt)
      (λ t.
        IsWithin-IsTarget d (limited d target) l
          (limited-IsWithin d target l.lower l.upper l.order number))

-- With the limits that the constructor sets, the lower one of at most 200 bits: when
-- GetProofOfWorkTarget succeeds at the end of an interval, the number that SetCompact reads of nBits
-- is at least nProofOfWorkUpperLimit and at most nProofOfWorkLowerLimit.
pub get_proof_of_work_target-IsTarget :
    (lower_bits init_bits interval : ℕ) (last : BlockIndex) (bs : List BlockIndex) (compact : ℕ)
    → lower_bits ≤ 200
    → ¬ (last.height ≡ 0)
    → (last.height + 1) % interval ≡ 0
    → get_proof_of_work_target (new_difficulty lower_bits init_bits interval) (last ∷ bs)
      ≡ some compact
    → IsTarget (new_difficulty lower_bits init_bits interval) compact
unfolding get_proof_of_work_target new_difficulty
get_proof_of_work_target-IsTarget lower_bits init_bits interval last bs compact few pos at_end run =
    let d = new_difficulty lower_bits init_bits interval in
    let later : (last.height == 0) ≡ false = ground (arith, pos) in
    let ends : not ((last.height + 1) % interval == 0) ≡ false = ground (arith, at_end) in
    elim (Option-cases (step_back (interval - 1) (last ∷ bs))) [
      | inl gone ↦ absurd (ground (arith, rw (get_proof_of_work_target, later, ends, gone) at run))
      | inr (first, there) ↦ elim (Bool-cases (first.height + (interval - 1) == last.height)) [
        | inr wrong ↦
            absurd (ground (arith, rw (get_proof_of_work_target, later, ends, there, wrong) at run))
        | inl right ↦ elim (Bool-cases (interval - 1 == 0)) [
          | inl one ↦
              absurd (
                ground
                  (arith, rw (get_proof_of_work_target, later, ends, there, right, one) at run))
          | inr more ↦
              let e : adjusted d last first ≡ some compact =
                rw (get_proof_of_work_target, later, ends, there, right, more) at run in
              rw e at (
                adjusted-IfTarget d last first
                  (new_difficulty-AreLimits lower_bits init_bits interval few))
        ]
      ]
    ]
