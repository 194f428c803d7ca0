-- ===== src/Schedule/Cancel.antt =====
-- src/minemon/schedule.cpp: the operations of CSchedule that cancel a request, and those that keep
-- a peer's locator and the times and marks of an entry.
use mamio.Base.{
  ℕ, ◌+◌, Bool, true, false, not, ◌&&◌, none, some, leb, ◌==◌, if◌then◌else◌, length, nat_key,
}
use mamio.Base.Int.{ℤ, negsuc}
use mamio.Base.OrdSet
use mamio.Base.OrdMap
use mamio.Schedule.Inv.{Inv, inv_key, block_inv}
use mamio.Schedule.Peer
use mamio.Schedule.Peer.{InvPeer, get_count}
use mamio.Schedule.State.{
  InvState, Schedule, is_received, peer_at, put_peer, put_state, on_peer, max_repeat_block_time,
  max_repeat_block_count,
}
use mamio.Schedule.Ops.{erase_state, remove_orphan, unmiss_prev}

module _ {B T : Type 0} where
  abbrev pub give_up : ℕ → Inv → InvState B T → Schedule B T → Schedule B T
  give_up nonce inv st s =
      let left = OrdSet.erase nonce st.known_peer in
      if length left == 0
      then erase_state inv (unmiss_prev inv (remove_orphan inv s))
      else put_state inv (record st { assigned = 0; known_peer = left }) s

  abbrev pub cancel_peer : ℕ → Inv → Schedule B T → Schedule B T × Bool
  cancel_peer nonce inv s = elim (OrdMap.find nonce s.map_peer) [
    | none ↦ (s, false)
    | some p ↦ (put_peer nonce (Peer.remove_inv inv p) s, true)
  ]

  unfoldable pub cancel_assigned_inv : ℕ → Inv → Schedule B T → Schedule B T × Bool
  cancel_assigned_inv nonce inv s = elim (OrdMap.find inv s.map_state) [
    | none ↦ (s, false)
    | some st ↦
        if not (st.assigned == nonce)
        then (s, false)
        else cancel_peer nonce inv (if is_received st then s else give_up nonce inv st s)
  ]

  unfoldable pub get_locator_depth_hash : ℕ → Schedule B T → ℕ → ℕ × Bool
  get_locator_depth_hash nonce s depth = elim (OrdMap.find nonce s.map_peer) [
    | none ↦ (depth, false)
    | some p ↦ (p.block_locator_depth, true)
  ]

  unfoldable pub set_locator_depth_hash : ℕ → ℕ → Schedule B T → Schedule B T
  set_locator_depth_hash nonce depth =
      on_peer nonce (λ (p : InvPeer). record p { block_locator_depth = depth })

  unfoldable pub get_locator_inv_block_hash : ℕ → Schedule B T → ℕ → ℤ × ℕ
  get_locator_inv_block_hash nonce s hash = elim (OrdMap.find nonce s.map_peer) [
    | none ↦ (negsuc 0, hash)
    | some p ↦ Peer.get_locator_inv_block_hash p hash
  ]

  unfoldable pub set_locator_inv_block_hash : ℕ → ℤ → ℕ → ℕ → Schedule B T → Schedule B T
  set_locator_inv_block_hash nonce height hash next =
      on_peer nonce (Peer.set_locator_inv_block_hash height hash next)

  unfoldable pub set_next_get_blocks_time : ℕ → ℕ → ℕ → Schedule B T → Schedule B T
  set_next_get_blocks_time now nonce wait = on_peer nonce (Peer.set_next_get_blocks_time now wait)

  abbrev pub mark_repeat : ℕ → ℕ → Schedule B T → Schedule B T
  mark_repeat now hash s = elim (OrdMap.find (block_inv hash) s.map_state) [
    | none ↦ s
    | some st ↦
        put_state (block_inv hash)
          (record st { repeat_mint_block = true; clear_obj_time = now + max_repeat_block_time }) s
  ]

  unfoldable pub set_repeat_block : ℕ → ℕ → ℕ → Schedule B T → Schedule B T × Bool
  set_repeat_block now nonce hash s =
      let s' = mark_repeat now hash s in
      let (p, count) = Peer.add_repeat_block hash (peer_at nonce s') in
      (put_peer nonce p s', not (leb max_repeat_block_count count))

  unfoldable pub is_repeat_block : ℕ → Schedule B T → Bool
  is_repeat_block hash s = elim (OrdMap.find (block_inv hash) s.map_state) [
    | none ↦ false
    | some st ↦ is_received st && st.repeat_mint_block
  ]

  unfoldable pub set_delayed_clear : ℕ → Inv → ℕ → Schedule B T → Schedule B T × Bool
  set_delayed_clear now inv delayed s = elim (OrdMap.find inv s.map_state) [
    | none ↦ (s, false)
    | some st ↦ (put_state inv (record st { clear_obj_time = now + delayed }) s, true)
  ]
