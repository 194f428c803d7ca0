-- ===== src/Examples/Chain.antt =====
-- src/minemon/core.cpp and forkmanager.cpp on concrete heights, blocks and forks.
use mamio.Base.{
  ℕ, ◌+◌, ◌*◌, ◌^◌, ◌/◌, ◌≤◌, ◌≡◌, refl, true, false, not, ◌&&◌, List, [], ◌∷◌, none, some, ◌==◌,
  arith, nat_key, if◌then◌else◌, Bool-cases, inl, inr,
}
use mamio.Base.Int.{ℤ, pos, negsuc}
use mamio.Base.OrdMap
use mamio.Base.OrdSet
use mamio.Core.{
  get_mint_work_reward, get_mint_total_reward, init_block_reward_token, reward_halve_height,
  get_pledge_min_max_value, coin, total_loop,
}
use mamio.Core.Rewards.{sum_rewards, get_mint_total_reward-sum}
use mamio.Uint256.{
  bits, bits_loop, top_bit, multiply_uint32, multiply_loop, less, less_loop, greater, greater_loop,
  greater_equal, fill_zero, set_uint64, subtract, negate, complement, increment, add, add_loop,
}
use mamio.Uint256.Value.{value}
use mamio.Uint256.Shift.{
  shift_left, shift_right, left_loop, left_round, right_loop, right_round, or_at,
}
use mamio.Uint256.Divide.{divide, divide_loop}
use mamio.Uint256.Compact.{set_compact, get_compact, digits_of}
use mamio.Core.Target.{
  BlockIndex, Difficulty, step_back, limited_timespan, scaled, limited, adjusted,
  get_proof_of_work_target, new_difficulty, limit_of,
}
use mamio.Core.Target.{get_block_trust, zero_words}
use mamio.Core.Target.Trust.{get_block_trust-quotient}
use mamio.Core.Target.Limits.{IsTarget, get_proof_of_work_target-IsTarget}
use mamio.Core.Pledges.{Answer, get_pledge_min_max_value-Answer}
use mamio.ForkManager.{
  BlockChain, ForkContext, ForkManager, ForkSchedule, new_manager, remove_pairs, remove_joint,
  insert_link, find_link, insert_joint,
}
use mamio.ForkManager.Calls.{
  Added, BlockAdded, fork_update, update_loop, sched_of, add_new_fork_context, add_allowed,
  is_allowed_fork, joint_loop, joint_round,
}
use mamio.ForkManager.Joints.{has_pair, starts, waits, joints_of, fork_update-joints}
use mamio.ForkManager.Walk.{Knows, Descends, add_new_fork_context_ends}

-- The first block after a halving has half the reward.
halved_test : get_mint_work_reward (reward_halve_height + 1) ≡ 50 * coin
unfolding get_mint_work_reward
halved_test = refl

two_periods_test : get_mint_total_reward (reward_halve_height + 2) ≡ some (105120100 * coin)
unfolding get_mint_total_reward total_loop
two_periods_test = refl

get_mint_total_reward-sum_example :
    (total : ℕ) × (get_mint_total_reward 1051202 ≡ some total)
    × (total ≡ sum_rewards 0 1051202)
    × (total ≤ 2 * init_block_reward_token * reward_halve_height)
get_mint_total_reward-sum_example = get_mint_total_reward-sum 1051202

-- A supply of five million coins at the height 7.
abbrev supply_of : ℕ → ℤ
supply_of prev = if prev == 7 * 2 ^ 224 then pos (5000000 * coin) else negsuc 0

get_pledge_min_max_value-Answer_example :
    Answer (supply_of (7 * 2 ^ 224)) (get_pledge_min_max_value 0 supply_of (7 * 2 ^ 224))
get_pledge_min_max_value-Answer_example = get_pledge_min_max_value-Answer 0 supply_of (7 * 2 ^ 224)

-- Fork 1 has two forks that wait for block 50 and one that waits for block 60.
abbrev waiting : ForkSchedule
waiting = record {
  allowed = false;
  synchronized = false;
  map_joint = (50, 2) ∷ (50, 3) ∷ (60, 4) ∷ [];
}

abbrev manager : ForkManager
manager = record new_manager { fork_sched = (1, waiting) ∷ []; fork_allowed = 9 ∷ [] }

abbrev update : List BlockAdded
update =
    record { hash = 49; is_extended = false; is_vacant = false }
    ∷ record { hash = 50; is_extended = false; is_vacant = false }
    ∷ record { hash = 60; is_extended = false; is_vacant = true }
    ∷ []

update_test : (fork_update 1 update manager).1 ≡ 2 ∷ 3 ∷ []
unfolding fork_update update_loop sched_of OrdMap.find remove_joint remove_pairs
update_test = refl

fork_update-joints_example :
    (has_pair 60 4 (joints_of 1 (fork_update 1 update manager).0)
      ≡ (has_pair 60 4 (joints_of 1 manager) && not (starts 60 update)))
    × (OrdSet.contains 4 (fork_update 1 update manager).1 ≡ waits 4 update (joints_of 1 manager))
fork_update-joints_example = fork_update-joints 1 60 4 update manager

abbrev fork_2 : ForkContext
fork_2 = record {
  hash_fork = 2;
  hash_parent = 1;
  hash_joint = 50;
  joint_height = pos 5;
  txid_embedded = 70;
}

abbrev fork_9 : ForkContext
fork_9 = record {
  hash_fork = 9;
  hash_parent = 2;
  hash_joint = 80;
  joint_height = pos 8;
  txid_embedded = 71;
}

abbrev chain : BlockChain
chain = record {
  exists = λ h. h == 40;
  get_fork_context = λ h. if h == 2 then some fork_2 else none;
  list_fork_context = some (fork_2 ∷ []);
  get_tx_location = λ txid. some (1, pos 6);
}

-- Fork 9 waits in the schedule of fork 2, which waits in that of fork 1.
climb_test :
    add_new_fork_context chain 9 1 fork_9 manager
    ≡ some (record {
      state = record manager {
        fork_sched =
            (1, record waiting { map_joint = (50, 2) ∷ (50, 3) ∷ (50, 2) ∷ (60, 4) ∷ [] })
            ∷ (2, record { allowed = false; synchronized = false; map_joint = (80, 9) ∷ [] })
            ∷ (9, record { allowed = true; synchronized = false; map_joint = [] })
            ∷ [];
        fork_index =
            record {
              hash_fork = 9;
              hash_parent = 2;
              hash_joint = 80;
              joint_height = pos 8;
              created_height = pos 6;
            }
            ∷ [];
      };
      active = [];
      done = true;
    })
unfolding add_new_fork_context is_allowed_fork OrdSet.contains add_allowed OrdMap.find OrdMap.put
    joint_loop joint_round sched_of insert_joint insert_link find_link
climb_test = refl

chain-Knows : Knows chain (2 ∷ [])
unfolding OrdSet.contains
chain-Knows h c p = ground arith

chain-Descends : Descends chain (λ h. h)
chain-Descends h c p = elim (Bool-cases (h == 2)) [
  | inl two ↦ ground arith
  | inr other ↦ absurd (ground arith)
]

add_new_fork_context_ends_example :
    (r : Added ForkManager) × (add_new_fork_context chain 9 1 fork_9 manager ≡ some r)
add_new_fork_context_ends_example =
    add_new_fork_context_ends chain (2 ∷ []) (λ h. h) 9 1 fork_9 manager chain-Knows chain-Descends
      (omega arith) (omega arith)

abbrev first_block : BlockIndex
first_block = record { height = 0; time = 1000; proof_bits = 0x1400abcd }

abbrev last_block : BlockIndex
last_block = record { height = 1; time = 1100; proof_bits = 0x1400abcd }

-- With limits of 45 and 200 zero bits and an interval of two blocks.
abbrev difficulty : Difficulty
difficulty = new_difficulty 45 50 2

-- Five sixths of the target, in its compact form.
target_test : get_proof_of_work_target difficulty (last_block ∷ first_block ∷ []) ≡ some 0x14008f2a
unfolding new_difficulty limit_of get_proof_of_work_target step_back adjusted scaled limited
    limited_timespan set_compact get_compact digits_of divide divide_loop multiply_uint32
    multiply_loop bits bits_loop top_bit shift_left shift_right left_loop left_round right_loop
    right_round or_at fill_zero set_uint64 subtract negate complement increment add add_loop less
    less_loop greater_equal greater greater_loop
target_test = refl

get_proof_of_work_target-IsTarget_example : IsTarget (new_difficulty 45 50 2) 0x14008f2a
get_proof_of_work_target-IsTarget_example =
    get_proof_of_work_target-IsTarget 45 50 2 last_block (first_block ∷ []) 0x14008f2a (omega arith)
      (omega arith) refl target_test

target_value : value (set_compact 0x04000100 zero_words) ≡ 0x10000
unfolding value set_compact set_uint64 fill_zero shift_left left_loop left_round or_at
target_value = refl

get_block_trust-quotient_example :
    (trust : List ℕ) × (get_block_trust true true 0x04000100 ≡ some trust)
    × (value trust ≡ 2 ^ 256 / (value (set_compact 0x04000100 zero_words) + 1))
get_block_trust-quotient_example =
    get_block_trust-quotient 0x04000100 (omega (arith, target_value)) (omega (arith, target_value))
