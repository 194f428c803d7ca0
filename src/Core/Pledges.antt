-- ===== src/Core/Pledges.antt =====
-- The limits of a pledge.
use mamio.Schedule.Peer.{block_height_by_hash}
use mamio.Base.{
  ℕ, zero, suc, ◌+◌, ◌-◌, ◌*◌, ◌/◌, ◌≤◌, ◌<◌, ◌≡◌, refl, Option, none, some, ltb, ◌==◌, arith,
  Bool-cases, inl, inr,
}
use mamio.Base.Int.{ℤ, pos, negsuc}
use mamio.Core.{
  PledgeValue, pledge_of, stake_loop, get_block_pledge_min_max_value, get_pledge_min_max_value,
  min_pledge_coin, init_block_reward_token, reward_halve_height,
}

stake_loop_ends :
    (fuel sect height total : ℕ)
    → height < fuel
    → (r : ℕ) × (stake_loop fuel sect height total ≡ some r) × (r ≤ total + 2 * sect)
unfolding stake_loop
stake_loop_ends zero sect height total h = absurd (omega arith)
stake_loop_ends (suc fuel) sect zero total h = (total, refl, omega arith)
stake_loop_ends (suc fuel) sect (suc height) total h =
    let (r, ends, bound) =
      stake_loop_ends fuel (sect / 2) (suc height - reward_halve_height) (total + sect)
        (omega arith) in
    (r, ground (arith, ends), omega (arith, bound))

-- What a pledge may be: at least BPX_MIN_PLEDGE_COIN, a range of a hundred times its least value, and
-- a least stake of at most two first rewards.
abbrev pub Bounded : PledgeValue → Type 0
Bounded v =
    (min_pledge_coin ≤ v.pow_min)
    × (v.pow_min * 100 ≤ v.max)
    × (v.stake_min ≤ 2 * init_block_reward_token)

pledge_of-Bounded :
    (supply stake : ℕ) → stake ≤ 2 * init_block_reward_token → Bounded (pledge_of supply stake)
pledge_of-Bounded supply stake h = elim (Bool-cases (ltb (supply / 10000) min_pledge_coin)) [
  | inl small ↦ rw small (omega arith, omega arith, h)
  | inr large ↦ rw large (ground arith, omega arith, h)
]

block_pledge-Bounded :
    (genesis prev supply : ℕ)
    → (v : PledgeValue) × (get_block_pledge_min_max_value genesis prev supply ≡ some v) × Bounded v
unfolding get_block_pledge_min_max_value
block_pledge-Bounded genesis prev supply = elim (Bool-cases (prev == genesis)) [
  | inl first ↦
      rw (first, get_block_pledge_min_max_value) (_, refl, (omega arith, omega arith, omega arith))
  | inr later ↦
      let height = block_height_by_hash prev + 1 in
      let (r, ends, bound) =
        stake_loop_ends (height + 1) init_block_reward_token height 0 (omega arith) in
      rw (later, get_block_pledge_min_max_value, ends)
        (pledge_of supply r, refl, pledge_of-Bounded supply r (omega (arith, bound)))
]

-- The answer that fits a money supply.
abbrev pub Answer : ℤ → Option PledgeValue → Type 0
Answer (negsuc n) r = r ≡ none
Answer (pos n) r = (v : PledgeValue) × (r ≡ some v) × Bounded v

-- GetPledgeMinMaxValue fails when the chain gives a negative supply, and otherwise ends with limits
-- that leave room: the least pledge is at least BPX_MIN_PLEDGE_COIN, the greatest is a hundred times
-- the least or more, and the least stake is at most two first rewards.
pub get_pledge_min_max_value-Answer :
    (genesis : ℕ) (money_supply_of : ℕ → ℤ) (prev : ℕ)
    → Answer (money_supply_of prev) (get_pledge_min_max_value genesis money_supply_of prev)
unfolding get_pledge_min_max_value
get_pledge_min_max_value-Answer genesis money_supply_of prev = go (money_supply_of prev)
  where
    go :
        (z : ℤ)
        → Answer z (elim z [
          | pos supply ↦ get_block_pledge_min_max_value genesis prev supply
          | negsuc n ↦ none
        ])
    go (negsuc n) = refl
    go (pos n) = block_pledge-Bounded genesis prev n
