-- ===== src/Core/Rewards.antt =====
-- The total reward, and the shares of a reward.
use mamio.Base.{
  ℕ, zero, suc, ◌+◌, ◌-◌, ◌*◌, ◌/◌, ◌^◌, ◌≤◌, ◌<◌, ◌≡◌, refl, ap, sym, ◌∙◌, false, some, ltb, arith,
  Bool-cases, inl, inr,
}
use native.Mathlib.Nat.{div-div-eq-div-mul, mul-le-mul_left}
use mamio.Core.{
  get_mint_work_reward, get_block_pow_reward, get_block_pledge_reward, total_loop,
  get_mint_total_reward, init_block_reward_token, reward_halve_height,
}

-- The rewards of the blocks at the heights from + 1 to from + count.
unfoldable pub sum_rewards : ℕ → ℕ → ℕ
sum_rewards from zero = 0
sum_rewards from (suc count) = sum_rewards from count + get_mint_work_reward (from + suc count)

sum_rewards-add :
    (from a b : ℕ) → sum_rewards from (a + b) ≡ sum_rewards from a + sum_rewards (from + a) b
unfolding sum_rewards
sum_rewards-add from a zero = omega (arith, ap (sum_rewards from) {x = a + 0} {y = a} (omega arith))
sum_rewards-add from a (suc b) =
    let e : from + suc (a + b) ≡ from + a + suc b = omega arith in
    let w = ap get_mint_work_reward e in
    let n : a + suc b ≡ suc (a + b) = omega arith in
    ap (sum_rewards from) n ∙ omega (arith, w, sum_rewards-add from a b)

-- The reward of a block in the period k.
work_period :
    (k i : ℕ)
    → i < reward_halve_height
    → get_mint_work_reward (k * reward_halve_height + suc i) ≡ init_block_reward_token / 2 ^ k
unfolding get_mint_work_reward
work_period k i h =
    let first : ltb (k * reward_halve_height + suc i) 1 ≡ false = ground arith in
    let period : (k * reward_halve_height + suc i - 1) / reward_halve_height ≡ k = omega arith in
    rw (first, period) refl

-- Within one period each block has the same reward.
sum_rewards_period :
    (k count : ℕ)
    → count ≤ reward_halve_height
    → sum_rewards (k * reward_halve_height) count ≡ init_block_reward_token / 2 ^ k * count
unfolding sum_rewards
sum_rewards_period k zero h = omega arith
sum_rewards_period k (suc count) h =
    let q = init_block_reward_token / 2 ^ k in
    let one_more : q * suc count ≡ q * count + q = omega arith in
    sym (one_more ∙ omega (arith, sum_rewards_period k count (omega arith), work_period k count h))

halve : (k : ℕ) → init_block_reward_token / 2 ^ k / 2 ≡ init_block_reward_token / 2 ^ suc k
halve k =
    let e : 2 ^ k * 2 ≡ 2 ^ suc k = omega arith in
    div-div-eq-div-mul init_block_reward_token (2 ^ k) 2 ∙ ap (λ n. init_block_reward_token / n) e

total_loop_last :
    (fuel sect height total : ℕ)
    → height < reward_halve_height
    → total_loop (suc fuel) sect height total ≡ some (total + sect * height)
unfolding total_loop
total_loop_last fuel sect zero total h = ap some (omega arith)
total_loop_last fuel sect (suc height) total h = ground arith

total_loop_more :
    (fuel sect height total : ℕ)
    → reward_halve_height ≤ height
    → total_loop (suc fuel) sect height total
      ≡ total_loop fuel
          (sect / 2)
          (height - reward_halve_height)
          (total + sect * reward_halve_height)
unfolding total_loop
total_loop_more fuel sect height total h = ground arith

total_loop_sum :
    (fuel k height total : ℕ)
    → height < fuel
    → total_loop fuel (init_block_reward_token / 2 ^ k) height total
      ≡ some (total + sum_rewards (k * reward_halve_height) height)
total_loop_sum zero k height total h = absurd (omega arith)
total_loop_sum (suc fuel) k height total h =
    let q = init_block_reward_token / 2 ^ k in
    elim (Bool-cases (ltb height reward_halve_height)) [
      | inl last ↦
          total_loop_last fuel q height total (ground arith)
          ∙ ap some (ap (λ n. total + n) (sym (sum_rewards_period k height (ground arith))))
      | inr more ↦
          let H = reward_halve_height in
          let whole : height ≡ H + (height - H) = ground arith in
          let parts = ap (sum_rewards (k * H)) whole ∙ sum_rewards-add (k * H) H (height - H) in
          let next : k * H + H ≡ suc k * H = omega arith in
          let rest = ap (λ n. sum_rewards n (height - H)) next in
          total_loop_more fuel q height total (ground arith)
          ∙ ap (λ n. total_loop fuel n (height - H) (total + q * H)) (halve k)
          ∙ total_loop_sum fuel (suc k) (height - H) (total + q * H) (ground arith)
          ∙ ap some (omega (arith, parts, sum_rewards_period k H (omega arith), rest))
    ]

total_loop_bound :
    (fuel sect height total r : ℕ)
    → total_loop fuel sect height total ≡ some r
    → r ≤ total + 2 * sect * reward_halve_height
unfolding total_loop
total_loop_bound zero sect height total r h = cc
total_loop_bound (suc fuel) sect height total r h =
    elim (Bool-cases (ltb height reward_halve_height)) [
      | inl last ↦
          let size : height < reward_halve_height = ground arith in
          let p : some (total + sect * height) ≡ some r =
            sym (total_loop_last fuel sect height total size) ∙ h in
          let v : total + sect * height ≡ r = cc in
          let w : sect * height ≤ sect * reward_halve_height = mul-le-mul_left sect (omega arith) in
          omega (arith, v, w)
      | inr more ↦
          let p = sym (total_loop_more fuel sect height total (ground arith)) ∙ h in
          let v =
            total_loop_bound fuel (sect / 2) (height - reward_halve_height)
              (total + sect * reward_halve_height) r p in
          omega (arith, v)
    ]

-- GetMintTotalReward is the sum of what GetMintWorkReward gives for each height from 1 on, and is
-- never more than two periods of the first reward, so that no int64 overflows.
pub get_mint_total_reward-sum :
    (height : ℕ)
    → (total : ℕ) × (get_mint_total_reward height ≡ some total)
      × (total ≡ sum_rewards 0 height)
      × (total ≤ 2 * init_block_reward_token * reward_halve_height)
unfolding get_mint_total_reward
get_mint_total_reward-sum height =
    let ends = total_loop_sum (height + 1) 0 height 0 (omega arith) in
    let total = 0 + sum_rewards (0 * reward_halve_height) height in
    let bound = total_loop_bound (height + 1) init_block_reward_token height 0 total ends in
    (total, ends, omega arith, omega (arith, bound))

-- The two shares of a block's reward add up to it, but for at most one unit that is lost.
pub reward_shares :
    (height : ℕ)
    → (get_block_pow_reward height + get_block_pledge_reward height ≤ get_mint_work_reward height)
      × (get_mint_work_reward height
          ≤ get_block_pow_reward height + get_block_pledge_reward height + 1)
unfolding get_block_pow_reward get_block_pledge_reward
reward_shares height = (omega arith, omega arith)
