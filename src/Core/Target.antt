-- ===== src/Core/Target.antt =====
-- src/minemon/core.cpp, CCoreProtocol: the target of the proof of work, from the time that the
-- blocks of an interval took, and the trust in a block. Numbers are uint256, eight words; heights
-- and times do not wrap. The blocks before a new one are the list of them, the last one first.
pub mod Width
pub mod Configured
pub mod Limits
pub mod Trust
use mamio.Base.{
  ℕ, zero, suc, ◌+◌, ◌-◌, ◌*◌, ◌/◌, ◌%◌, ◌^◌, Bool, true, false, not, ◌&&◌, ◌||◌, List, [], ◌∷◌,
  Option, none, some, ltb, leb, ◌==◌, if◌then◌else◌,
}
use mamio.Uint256.{
  complement, set_uint64, add_uint64, less, greater, greater_equal, multiply_uint32,
}
use mamio.Uint256.Shift.{shift_right}
use mamio.Uint256.Divide.{divide}
use mamio.Uint256.Compact.{set_compact, get_compact}

-- What a target reads of a CBlockIndex.
pub record BlockIndex : Type 0 where
  pub height : ℕ
  pub time : ℕ
  pub proof_bits : ℕ

pub record Difficulty : Type 0 where
  pub lower_limit : List ℕ
  pub upper_limit : List ℕ
  pub init : List ℕ
  pub interval : ℕ

abbrev pub zero_words : List ℕ
zero_words = 0 ∷ 0 ∷ 0 ∷ 0 ∷ 0 ∷ 0 ∷ 0 ∷ 0 ∷ []

abbrev pub uint256 : ℕ → List ℕ
uint256 n = set_uint64 n zero_words

-- BLOCK_TARGET_SPACING
abbrev pub block_target_spacing : ℕ
block_target_spacing = 60

-- A limit of so many zero bits, as its compact form keeps it.
unfoldable pub limit_of : ℕ → List ℕ
limit_of n =
    let limit = shift_right n (complement zero_words) in set_compact (get_compact false limit) limit

-- The constructor; the two configured numbers of bits and the interval are arguments.
unfoldable pub new_difficulty : ℕ → ℕ → ℕ → Difficulty
new_difficulty lower_bits init_bits interval = record {
  lower_limit = limit_of lower_bits;
  upper_limit = limit_of 200;
  init = shift_right init_bits (complement zero_words);
  interval = interval;
}

-- pIndexFirst, after so many steps back.
unfoldable pub step_back : ℕ → List BlockIndex → Option BlockIndex
step_back n [] = none
step_back zero (b ∷ bs) = some b
step_back (suc n) (b ∷ bs) = step_back n bs

abbrev pub target_timespan : Difficulty → ℕ
target_timespan d = d.interval * block_target_spacing

-- nActualTimespan, at most four times too short or too long.
unfoldable pub limited_timespan : ℕ → ℕ → ℕ
limited_timespan actual target =
    let long_enough = if ltb actual (target / 4) then target / 4 else actual in
    if ltb (target * 4) long_enough then target * 4 else long_enough

-- The product takes the lowest 32 bits of the time.
unfoldable pub scaled : List ℕ → ℕ → ℕ → List ℕ
scaled target actual timespan =
    if greater_equal target (uint256 timespan)
    then multiply_uint32 (divide target (uint256 timespan)) (actual % 2 ^ 32)
    else divide (multiply_uint32 target (actual % 2 ^ 32)) (uint256 timespan)

unfoldable pub limited : Difficulty → List ℕ → List ℕ
limited d target =
    let high = if less target d.upper_limit then d.upper_limit else target in
    if greater high d.lower_limit then d.lower_limit else high

-- The target of a new interval, from its first block and the last one.
unfoldable pub adjusted : Difficulty → BlockIndex → BlockIndex → Option ℕ
adjusted d last first =
    if ltb last.time first.time
    then none
    else some (
        get_compact false (
          limited d (
            scaled (set_compact last.proof_bits zero_words)
              (limited_timespan (last.time - first.time) (target_timespan d)) (target_timespan d))))

-- GetProofOfWorkTarget: nBits, or none for false.
unfoldable pub get_proof_of_work_target : Difficulty → List BlockIndex → Option ℕ
get_proof_of_work_target d [] = none
get_proof_of_work_target d (last ∷ bs) =
    if last.height == 0
    then some (get_compact false d.init)
    else if not ((last.height + 1) % d.interval == 0)
    then some last.proof_bits
    else elim (step_back (d.interval - 1) (last ∷ bs)) [
      | none ↦ none
      | some first ↦
          if not (first.height + (d.interval - 1) == last.height)
          then none
          else if d.interval - 1 == 0
          then none
          else adjusted d last first
    ]

-- GetBlockTrust: 2 ^ 256 / (target + 1), for a primary block with proof of work.
unfoldable pub get_block_trust : Bool → Bool → ℕ → Option (List ℕ)
get_block_trust is_primary is_proof_of_work proof_bits =
    let target = set_compact proof_bits zero_words in
    if not is_primary
    then none
    else if not is_proof_of_work
    then none
    else some (add_uint64 (divide (complement target) (add_uint64 target 1)) 1)
