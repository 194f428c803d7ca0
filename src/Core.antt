-- ===== src/Core.antt =====
-- src/minemon/core.cpp, class CCoreProtocol, and src/common/param.h: the rewards of a block and the
-- limits of a pledge. Amounts are in the smallest unit. Heights are natural numbers below 2 ^ 31;
-- pow(2, n) is exact, and (int64) of it is, for the heights below 63 * BPX_REWARD_HALVE_HEIGHT.
pub mod Target
pub mod Rewards
pub mod Pledges
use mathlib.Core.Option
use mamio.Schedule.Peer.{block_height_by_hash}
use mamio.Base.{
  ℕ, zero, suc, ◌+◌, ◌-◌, ◌*◌, ◌/◌, ◌^◌, Bool, Option, none, some, leb, ltb, ◌==◌, if◌then◌else◌,
  Key,
}
use mamio.Base.Int.{ℤ, pos, negsuc}

abbrev pub coin : ℕ
coin = 1000000

abbrev pub init_block_reward_token : ℕ
init_block_reward_token = 100 * coin

abbrev pub reward_halve_height : ℕ
reward_halve_height = 60 * 24 * 365 * 2

abbrev pub pow_reward_rate : ℕ
pow_reward_rate = 382

abbrev pub total_reward_rate : ℕ
total_reward_rate = 1000

abbrev pub min_pledge_coin : ℕ
min_pledge_coin = 100 * coin

unfoldable pub get_mint_work_reward : ℕ → ℕ
get_mint_work_reward height =
    if ltb height 1 then 0 else init_block_reward_token / 2 ^ ((height - 1) / reward_halve_height)

unfoldable pub get_block_pow_reward : ℕ → ℕ
get_block_pow_reward height = get_mint_work_reward height * pow_reward_rate / total_reward_rate

unfoldable pub get_block_pledge_reward : ℕ → ℕ
get_block_pledge_reward height =
    get_mint_work_reward height * (total_reward_rate - pow_reward_rate) / total_reward_rate

-- The loop of GetMintTotalReward: each round takes something off the height, which is the fuel.
unfoldable pub total_loop : ℕ → ℕ → ℕ → ℕ → Option ℕ
total_loop zero sect height total = none
total_loop (suc fuel) sect height total =
    let rest =
      total_loop fuel (sect / 2) (height - reward_halve_height)
        (total + sect * reward_halve_height) in
    if height == 0
    then some total
    else if ltb height reward_halve_height
    then some (total + sect * height)
    else rest

unfoldable pub get_mint_total_reward : ℕ → Option ℕ
get_mint_total_reward height = total_loop (height + 1) init_block_reward_token height 0

-- nPowMinPledge, nStakeMinPledge and nMaxPledge.
pub record PledgeValue : Type 0 where
  pub pow_min : ℕ
  pub stake_min : ℕ
  pub max : ℕ

-- The loop of GetBlockPledgeMinMaxValue.
unfoldable pub stake_loop : ℕ → ℕ → ℕ → ℕ → Option ℕ
stake_loop zero sect height total = none
stake_loop (suc fuel) sect height total =
    let rest = stake_loop fuel (sect / 2) (height - reward_halve_height) (total + sect) in
    if height == 0 then some total else rest

-- The pledges by the money supply, and the least one of a stake.
abbrev pub pledge_of : ℕ → ℕ → PledgeValue
pledge_of money_supply stake =
    let least = money_supply / 10000 in
    if ltb least min_pledge_coin
    then record { pow_min = min_pledge_coin; stake_min = stake; max = min_pledge_coin * 100 }
    else record { pow_min = least; stake_min = stake; max = money_supply / 100 }

module _ (genesis : ℕ) where
  unfoldable pub get_block_pledge_min_max_value : ℕ → ℕ → Option PledgeValue
  get_block_pledge_min_max_value prev money_supply =
      let height = block_height_by_hash prev + 1 in
      if prev == genesis
      then some (record {
        pow_min = min_pledge_coin;
        stake_min = init_block_reward_token;
        max = min_pledge_coin * 100;
      })
      else Option.map (pledge_of money_supply)
          (stake_loop (height + 1) init_block_reward_token height 0)

  -- The supply is negative when the chain does not know the block; `none` is then a refusal.
  unfoldable pub get_pledge_min_max_value : (ℕ → ℤ) → ℕ → Option PledgeValue
  get_pledge_min_max_value money_supply_of prev = elim (money_supply_of prev) [
    | pos supply ↦ get_block_pledge_min_max_value prev supply
    | negsuc n ↦ none
  ]
