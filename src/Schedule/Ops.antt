-- ===== src/Schedule/Ops.antt =====
-- src/minemon/schedule.cpp: the operations of CSchedule, that add and remove entries and
-- peers.
use mamio.Base.{
  ℕ, Bool, true, false, List, [], ◌∷◌, none, some, ltb, ◌==◌, if◌then◌else◌, length, nat_key,
}
use mamio.Base.OrdSet
use mamio.Base.OrdMap
use mamio.Orphan
use mamio.Schedule.Inv.{Inv, inv_key, msg_tx, msg_block}
use mamio.Schedule.Peer
use mamio.Schedule.Peer.{InvPeer, get_count}
use mamio.Schedule.State.{
  nil, InvState, Schedule, is_received, peer_at, state_at, put_state, on_peer, max_inv_count,
  max_peer_block_inv_count, max_peer_tx_inv_count,
}

abbrev pub max_peer_inv_count : ℕ → ℕ
max_peer_inv_count type = if type == msg_tx then max_peer_tx_inv_count else max_peer_block_inv_count

module _ {B T : Type 0} where
  unfoldable pub exists : Inv → Schedule B T → Bool
  exists inv s = elim (OrdMap.find inv s.map_state) [ none ↦ false | some st ↦ true ]

  abbrev pub miss_prev : Inv → Schedule B T → Schedule B T
  miss_prev inv s = record s { miss_prev_tx_inv = OrdSet.insert inv s.miss_prev_tx_inv }

  abbrev pub unmiss_prev : Inv → Schedule B T → Schedule B T
  unmiss_prev inv s = record s { miss_prev_tx_inv = OrdSet.erase inv s.miss_prev_tx_inv }

  unfoldable pub check_prev_tx_inv : Inv → Schedule B T → Schedule B T × Bool
  check_prev_tx_inv inv s = elim (OrdMap.find inv s.map_state) [
    | none ↦ (miss_prev inv s, false)
    | some st ↦ (if is_received st then s else miss_prev inv s, true)
  ]

  -- The set that the caller's reference then holds.
  unfoldable pub get_known_peer : Inv → Schedule B T → List ℕ → List ℕ
  get_known_peer inv s known_peer = elim (OrdMap.find inv s.map_state) [
    | none ↦ known_peer
    | some st ↦ st.known_peer
  ]

  unfoldable pub remove_orphan : Inv → Schedule B T → Schedule B T
  remove_orphan inv s =
      if inv.type == msg_tx
      then record s { orphan_tx = Orphan.remove inv.hash s.orphan_tx }
      else if inv.type == msg_block
      then record s { orphan_block = Orphan.remove inv.hash s.orphan_block }
      else s

  abbrev pub erase_state : Inv → Schedule B T → Schedule B T
  erase_state inv s = record s { map_state = OrdMap.erase inv s.map_state }

  -- One round of the loop of RemovePeer.
  unfoldable pub leave_inv : ℕ → Inv → Schedule B T × List ℕ → Schedule B T × List ℕ
  leave_inv nonce inv (s, sched_peer) =
      let st = state_at inv s in
      let left = OrdSet.erase nonce st.known_peer in
      if length left == 0
      then (erase_state inv (unmiss_prev inv (remove_orphan inv s)), sched_peer)
      else if st.assigned == nonce
      then (
        put_state inv (record st { known_peer = left; assigned = 0; obj_received = nil }) s,
        OrdSet.insert_all left sched_peer,
      )
      else (put_state inv (record st { known_peer = left }) s, sched_peer)

  unfoldable pub leave_all : ℕ → List Inv → Schedule B T × List ℕ → Schedule B T × List ℕ
  leave_all nonce [] r = r
  leave_all nonce (inv ∷ invs) r = leave_all nonce invs (leave_inv nonce inv r)

  abbrev pub drop_peer : ℕ → Schedule B T × List ℕ → Schedule B T × List ℕ
  drop_peer nonce (s, sched_peer) =
      (record s { map_peer = OrdMap.erase nonce s.map_peer }, sched_peer)

  unfoldable pub remove_peer : ℕ → Schedule B T → List ℕ → Schedule B T × List ℕ
  remove_peer nonce s sched_peer = elim (OrdMap.find nonce s.map_peer) [
    | none ↦ (s, sched_peer)
    | some p ↦ drop_peer nonce (leave_all nonce (Peer.get_known_inv p) (s, sched_peer))
  ]

  -- operator[] makes the peer's entry when the first test passes.
  unfoldable pub check_add_inv_idle_location : ℕ → ℕ → Schedule B T → Schedule B T × Bool
  check_add_inv_idle_location nonce type s =
      if ltb (length s.map_state) max_inv_count
      then (
        on_peer nonce (λ p. p) s,
        ltb (get_count type (peer_at nonce s)) (max_peer_inv_count type),
      )
      else (s, false)

  -- The entry of `inv` after a peer has named it.
  abbrev pub known_state : ℕ → ℕ → InvState B T → InvState B T
  known_state now nonce st = record st {
    known_peer = OrdSet.insert nonce st.known_peer;
    recv_inv_time = if st.recv_inv_time == 0 then now else st.recv_inv_time;
  }

  abbrev pub know_inv : ℕ → Inv → ℕ → Schedule B T → Schedule B T
  know_inv now inv nonce s = put_state inv (known_state now nonce (state_at inv s)) s

  unfoldable pub add_new_inv : ℕ → Inv → ℕ → Schedule B T → Schedule B T × Bool
  add_new_inv now inv nonce s =
      let (s', idle) = check_add_inv_idle_location nonce inv.type s in
      if idle
      then (on_peer nonce (Peer.add_new_inv inv) (know_inv now inv nonce s'), true)
      else (s', false)

  unfoldable pub forget_inv : Inv → List ℕ → Schedule B T → Schedule B T
  forget_inv inv [] s = s
  forget_inv inv (nonce ∷ nonces) s = forget_inv inv nonces (on_peer nonce (Peer.remove_inv inv) s)

  -- The new schedule, the set that has got the entry's peers, and whether the entry was there.
  unfoldable pub remove_inv : Inv → Schedule B T → List ℕ → Schedule B T × List ℕ × Bool
  remove_inv inv s known_peer = elim (OrdMap.find inv s.map_state) [
    | none ↦ (s, known_peer, false)
    | some st ↦
        let s' = forget_inv inv st.known_peer s in
        let s'' = if is_received st then remove_orphan inv s' else s' in
        (erase_state inv (unmiss_prev inv s''), OrdSet.insert_all st.known_peer known_peer, true)
  ]
