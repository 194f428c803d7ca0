-- ===== src/Examples/Scheduling.antt =====
-- src/minemon/schedule.cpp, class CSchedule, on short histories. Blocks and transactions are numbers.
use mamio.Base.{ℕ, ◌≤◌, ◌≡◌, ◌≢◌, refl, true, List, [], ◌∷◌, some, arith}
use mamio.Base.OrdMap
use mamio.Base.OrdSet
use mamio.Schedule.Inv.{inv_key, block_inv, msg_block}
use mamio.Schedule.Peer
use mamio.Schedule.State.{Schedule, InvState, max_regetdata_count, peer_at, state_at}
use mamio.Schedule.Ops
use mamio.Schedule.Receive
use mamio.Schedule.Receive.{get_block, get_transaction, bad_get, got}
use mamio.Schedule.Known
use mamio.Schedule.Choose.{schedule_known_inv, finish_pass, schedule_block_inv}
use mamio.Schedule.Rounds.{IsFree}
use mamio.Schedule.Requests.{schedule_known_inv-IsFree}
use mamio.Schedule.Run.{
  Call, add_new_inv, schedule_block_inv as asks_block, receive_block, empty, step, run,
}
use mamio.Schedule.Run.Sound.{run_get, run_count}

-- Peers 7 and 8 name block 100 at time 50, peer 7 is asked for it and sends it.
abbrev history : List (Call ℕ ℕ)
history =
    add_new_inv 50 (block_inv 100) 7
    ∷ add_new_inv 51 (block_inv 100) 8
    ∷ asks_block 60 7 16
    ∷ receive_block 61 7 100 4242
    ∷ []

abbrev named : Schedule ℕ ℕ
named = run empty (add_new_inv 50 (block_inv 100) 7 ∷ [])

received_test : get_block 100 (run empty history) ≡ got 7 4242
unfolding get_block run step OrdMap.find OrdMap.put OrdSet.insert OrdSet.erase OrdSet.contains
    OrdSet.insert_all Ops.add_new_inv Ops.check_add_inv_idle_location Receive.receive_block
    schedule_block_inv schedule_known_inv finish_pass Known.miss_pass Known.known_pass
    Known.known_loop Known.known_round Known.remove_all Known.remove_all_peer peer_at state_at
    Peer.add_new_inv Peer.assign Peer.completed Peer.is_assigned Peer.check_next_get_blocks_time
received_test = refl

run_get_example :
    (get_block 100 (run empty history) ≢ bad_get)
    × (get_transaction 100 (run empty history) ≢ bad_get)
run_get_example = run_get history 100

abbrev entry : InvState ℕ ℕ
entry = state_at (block_inv 100) named

named_entry : OrdMap.find (block_inv 100) named.map_state ≡ some entry
unfolding run step OrdMap.find OrdMap.put OrdSet.insert OrdSet.erase Ops.add_new_inv
    Ops.check_add_inv_idle_location peer_at state_at Peer.add_new_inv
named_entry = refl

run_count_example : entry.get_data_count ≤ max_regetdata_count
run_count_example =
    run_count (add_new_inv 50 (block_inv 100) 7 ∷ []) (block_inv 100) entry named_entry

named_asked :
    OrdSet.contains (block_inv 100) (schedule_known_inv 60 7 msg_block 16 named).v_inv ≡ true
unfolding run step OrdMap.find OrdMap.put OrdSet.insert OrdSet.erase OrdSet.contains
    OrdSet.insert_all Ops.add_new_inv Ops.check_add_inv_idle_location schedule_known_inv finish_pass
    Known.miss_pass Known.known_pass Known.known_loop Known.known_round Known.remove_all
    Known.remove_all_peer peer_at state_at Peer.add_new_inv
named_asked = refl

schedule_known_inv-IsFree_example : IsFree 60 named (block_inv 100)
schedule_known_inv-IsFree_example =
    schedule_known_inv-IsFree 60 7 16 named msg_block (block_inv 100) (omega arith) named_asked
