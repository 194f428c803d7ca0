-- ===== src/Schedule/Run.antt =====
-- Histories of calls on CSchedule, as netchn.cpp makes them from what the peers send.
pub mod Sound
use mamio.Base.{ℕ, Bool, true, false, List, [], ◌∷◌, Option, none, some}
use mamio.Base.Int.{ℤ}
use mamio.Schedule.Inv.{Inv}
use mamio.Schedule.State.{Schedule}
use mamio.Schedule.Ops
use mamio.Schedule.Receive
use mamio.Schedule.Cancel
use mamio.Schedule.Choose

-- The calls that change the schedule, with the time at which they are made. The references that a
-- call only writes to start empty, as they do in netchn.cpp.
pub data Call (B T : Type 0) : Type 0 where
  check_prev_tx_inv : Inv → Call B T
  check_add_inv_idle_location : ℕ → ℕ → Call B T
  remove_peer : ℕ → Call B T
  add_new_inv : ℕ → Inv → ℕ → Call B T
  remove_inv : Inv → Call B T
  receive_block : ℕ → ℕ → ℕ → B → Call B T
  receive_tx : ℕ → ℕ → ℕ → T → Call B T
  add_orphan_block_prev : ℕ → ℕ → Call B T
  add_orphan_tx_prev : ℕ → ℕ → Call B T
  invalidate_block : ℕ → Call B T
  invalidate_tx : ℕ → Call B T
  schedule_block_inv : ℕ → ℕ → ℕ → Call B T
  schedule_tx_inv : ℕ → ℕ → ℕ → Call B T
  cancel_assigned_inv : ℕ → Inv → Call B T
  set_locator_depth_hash : ℕ → ℕ → Call B T
  set_locator_inv_block_hash : ℕ → ℤ → ℕ → ℕ → Call B T
  set_next_get_blocks_time : ℕ → ℕ → ℕ → Call B T
  set_repeat_block : ℕ → ℕ → ℕ → Call B T
  set_delayed_clear : ℕ → Inv → ℕ → Call B T

module _ {B T : Type 0} where
  abbrev pub empty : Schedule B T
  empty = record {
    orphan_block = [];
    orphan_tx = [];
    map_peer = [];
    map_state = [];
    miss_prev_tx_inv = [];
  }

  abbrev pub after : Schedule B T → Option (Schedule B T × List ℕ) → Schedule B T
  after s none = s
  after s (some r) = r.0

  unfoldable pub step : Schedule B T → Call B T → Schedule B T
  step s (check_prev_tx_inv inv) = (Ops.check_prev_tx_inv inv s).0
  step s (check_add_inv_idle_location nonce type) = (Ops.check_add_inv_idle_location nonce type s).0
  step s (remove_peer nonce) = (Ops.remove_peer nonce s []).0
  step s (add_new_inv now inv nonce) = (Ops.add_new_inv now inv nonce s).0
  step s (remove_inv inv) = (Ops.remove_inv inv s []).0
  step s (receive_block now nonce hash b) = (Receive.receive_block now nonce hash b s []).0
  step s (receive_tx now nonce txid t) = (Receive.receive_tx now nonce txid t s []).0
  step s (add_orphan_block_prev hash prev) = Receive.add_orphan_block_prev hash prev s
  step s (add_orphan_tx_prev txid prev) = Receive.add_orphan_tx_prev txid prev s
  step s (invalidate_block hash) = after s (Receive.invalidate_block hash s [])
  step s (invalidate_tx txid) = after s (Receive.invalidate_tx txid s [])
  step s (schedule_block_inv now nonce max_count) =
      (Choose.schedule_block_inv now nonce [] max_count s).sched
  step s (schedule_tx_inv now nonce max_count) =
      (Choose.schedule_tx_inv now nonce [] max_count false s).sched
  step s (cancel_assigned_inv nonce inv) = (Cancel.cancel_assigned_inv nonce inv s).0
  step s (set_locator_depth_hash nonce depth) = Cancel.set_locator_depth_hash nonce depth s
  step s (set_locator_inv_block_hash nonce height hash next) =
      Cancel.set_locator_inv_block_hash nonce height hash next s
  step s (set_next_get_blocks_time now nonce wait) =
      Cancel.set_next_get_blocks_time now nonce wait s
  step s (set_repeat_block now nonce hash) = (Cancel.set_repeat_block now nonce hash s).0
  step s (set_delayed_clear now inv delayed) = (Cancel.set_delayed_clear now inv delayed s).0

  unfoldable pub run : Schedule B T → List (Call B T) → Schedule B T
  run s [] = s
  run s (c ∷ cs) = run (step s c) cs
