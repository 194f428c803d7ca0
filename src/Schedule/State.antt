-- ===== src/Schedule/State.antt =====
-- src/minemon/schedule.h: CInvState and the fields of CSchedule.
use mamio.Base.{ℕ, Bool, true, false, List, [], none, some, ◌*◌, nat_key}
use mamio.Base.OrdMap
use mamio.Orphan.{Orphans}
use mamio.Schedule.Inv.{Inv, inv_key}
use mamio.Schedule.Peer.{InvPeer, new_peer}

abbrev pub max_inv_count : ℕ
max_inv_count = 1024 * 256

abbrev pub max_peer_block_inv_count : ℕ
max_peer_block_inv_count = 1024

abbrev pub max_peer_tx_inv_count : ℕ
max_peer_tx_inv_count = 1024 * 256

abbrev pub max_regetdata_count : ℕ
max_regetdata_count = 10

abbrev pub max_inv_wait_time : ℕ
max_inv_wait_time = 3600

abbrev pub max_obj_wait_time : ℕ
max_obj_wait_time = 7200

abbrev pub max_repeat_block_time : ℕ
max_repeat_block_time = 180

abbrev pub max_repeat_block_count : ℕ
max_repeat_block_count = 4

-- boost::variant<CNil, CBlock, CTransaction>
pub data InvObject (B T : Type 0) : Type 0 where
  nil : InvObject B T
  block : B → InvObject B T
  tx : T → InvObject B T

-- The peer nonce 0 in `assigned` means that nobody was asked.
pub record InvState (B T : Type 0) : Type 0 where
  pub assigned : ℕ
  pub obj_received : InvObject B T
  pub known_peer : List ℕ
  pub recv_inv_time : ℕ
  pub recv_obj_time : ℕ
  pub clear_obj_time : ℕ
  pub get_data_count : ℕ
  pub repeat_mint_block : Bool
  pub verify_pow_block : Bool

pub record Schedule (B T : Type 0) : Type 0 where
  pub orphan_block : Orphans
  pub orphan_tx : Orphans
  pub map_peer : List (ℕ × InvPeer)
  pub map_state : List (Inv × InvState B T)
  pub miss_prev_tx_inv : List Inv

module _ {B T : Type 0} where
  abbrev pub is_nil : InvObject B T → Bool
  is_nil nil = true
  is_nil (block b) = false
  is_nil (tx t) = false

  abbrev pub is_received : InvState B T → Bool
  is_received s = elim s.obj_received [ nil ↦ false | block b ↦ true | tx t ↦ true ]

  -- What operator[] finds or makes.
  unfoldable pub peer_at : ℕ → Schedule B T → InvPeer
  peer_at nonce s = elim (OrdMap.find nonce s.map_peer) [ none ↦ new_peer | some p ↦ p ]

  unfoldable pub state_at : Inv → Schedule B T → InvState B T
  state_at inv s = elim (OrdMap.find inv s.map_state) [
    | none ↦ record {
      assigned = 0;
      obj_received = nil;
      known_peer = [];
      recv_inv_time = 0;
      recv_obj_time = 0;
      clear_obj_time = 0;
      get_data_count = 0;
      repeat_mint_block = false;
      verify_pow_block = false;
    }
    | some st ↦ st
  ]

  abbrev pub put_peer : ℕ → InvPeer → Schedule B T → Schedule B T
  put_peer nonce p s = record s { map_peer = OrdMap.put nonce p s.map_peer }

  abbrev pub put_state : Inv → InvState B T → Schedule B T → Schedule B T
  put_state inv st s = record s { map_state = OrdMap.put inv st s.map_state }

  -- mapPeer[nonce].f()
  abbrev pub on_peer : ℕ → (InvPeer → InvPeer) → Schedule B T → Schedule B T
  on_peer nonce f s = put_peer nonce (f (peer_at nonce s)) s
