-- ===== src/Schedule/Choose.antt =====
-- src/minemon/schedule.cpp: how ScheduleKnownInv begins and ends, ScheduleBlockInv and
-- ScheduleTxInv.
use mamio.Base.{
  ℕ, Bool, true, false, not, ◌&&◌, ◌||◌, List, none, some, ltb, ◌==◌, if◌then◌else◌, length,
  nat_key,
}
use mamio.Base.OrdMap
use mamio.Schedule.Inv.{Inv, inv_key, msg_tx, msg_block}
use mamio.Schedule.Peer
use mamio.Schedule.Peer.{get_count, get_known_list, known_inv_exists, is_empty}
use mamio.Schedule.State.{Schedule, peer_at, max_peer_block_inv_count, max_peer_tx_inv_count}
use mamio.Schedule.Ops.{check_add_inv_idle_location}
use mamio.Schedule.Known.{Pass, remove_all, remove_all_peer, miss_pass, known_pass}

-- What ScheduleKnownInv leaves in its references, and what it returns.
pub record Known (B T : Type 0) : Type 0 where
  pub sched : Schedule B T
  pub v_inv : List Inv
  pub received_all : Bool
  pub success : Bool

pub record BlockInv (B T : Type 0) : Type 0 where
  pub sched : Schedule B T
  pub v_inv : List Inv
  pub missing_prev : Bool
  pub empty : Bool
  pub success : Bool

module _ {B T : Type 0} where
  unfoldable pub finish_pass : ℕ → ℕ → Pass B T → Known B T
  finish_pass nonce type a =
      let s = remove_all_peer nonce a.removed_peer (remove_all a.removed a.sched) in
      let left = get_known_list type (peer_at nonce s) in
      record {
        sched = s;
        v_inv = a.v_inv;
        received_all = a.received == length left && not (a.received == 0);
        success = not (length a.v_inv == 0) || length left == 0;
      }

  unfoldable pub schedule_known_inv : ℕ → ℕ → ℕ → ℕ → Schedule B T → Known B T
  schedule_known_inv now nonce type max_count s =
      finish_pass nonce type
        (known_pass now nonce type max_count (miss_pass now nonce type max_count s))

  abbrev pub after_block : ℕ → ℕ → Bool → Known B T → BlockInv B T
  after_block now nonce empty k =
      let p = peer_at nonce k.sched in
      if not k.success
      then (let (s, missing) =
            (if k.received_all && Peer.check_next_get_blocks_time now p
              then check_add_inv_idle_location nonce msg_block k.sched
              else (k.sched, false)) in
          record {
            sched = s;
            v_inv = k.v_inv;
            missing_prev = missing;
            empty = empty;
            success =
                not k.received_all
                || ltb (get_count msg_block (peer_at nonce s)) max_peer_block_inv_count;
          })
      else record {
        sched = k.sched;
        v_inv = k.v_inv;
        missing_prev = empty && Peer.check_next_get_blocks_time now p;
        empty = empty;
        success = true;
      }

  unfoldable pub schedule_block_inv : ℕ → ℕ → List Inv → ℕ → Schedule B T → BlockInv B T
  schedule_block_inv now nonce v_inv max_count s = elim (OrdMap.find nonce s.map_peer) [
    | none ↦ record { sched = s; v_inv = v_inv; missing_prev = false; empty = true; success = true }
    | some p ↦
        if Peer.is_assigned p
        then record {
          sched = s;
          v_inv = v_inv;
          missing_prev = false;
          empty = is_empty msg_block p;
          success = true;
        }
        else after_block now nonce (is_empty msg_block p)
            (schedule_known_inv now nonce msg_block max_count s)
  ]

  abbrev pub after_tx : ℕ → Known B T → Known B T
  after_tx nonce k =
      let p = peer_at nonce k.sched in
      if not k.success
      then record k {
        success = not k.received_all || ltb (get_count msg_tx p) max_peer_tx_inv_count;
      }
      else record k { received_all = is_empty msg_tx p || k.received_all; success = true }

  -- `received_all` is what the caller's reference held.
  unfoldable pub schedule_tx_inv : ℕ → ℕ → List Inv → ℕ → Bool → Schedule B T → Known B T
  schedule_tx_inv now nonce v_inv max_count received_all s = elim (OrdMap.find nonce s.map_peer) [
    | none ↦ record { sched = s; v_inv = v_inv; received_all = received_all; success = true }
    | some p ↦
        if Peer.is_assigned p
        then record { sched = s; v_inv = v_inv; received_all = received_all; success = true }
        else after_tx nonce (schedule_known_inv now nonce msg_tx max_count s)
  ]
