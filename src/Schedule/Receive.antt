-- ===== src/Schedule/Receive.antt =====
-- src/minemon/schedule.cpp: the operations of CSchedule on objects that arrive and on orphans.
use mamio.Base.{
  ℕ, ◌+◌, Bool, true, false, not, ◌&&◌, List, [], ◌∷◌, Option, none, some, ◌==◌, if◌then◌else◌,
  nat_key,
}
use mamio.Base.OrdSet
use mamio.Base.OrdMap
use mamio.Orphan
use mamio.Schedule.Inv.{Inv, inv_key, msg_tx, tx_inv, block_inv}
use mamio.Schedule.Peer
use mamio.Schedule.Peer.{InvPeer, get_count}
use mamio.Schedule.State.{
  InvObject, nil, block, tx, InvState, Schedule, is_received, put_state, on_peer, max_obj_wait_time,
}
use mamio.Schedule.Ops.{erase_state, forget_inv, remove_inv, unmiss_prev}

-- What GetBlock and GetTransaction return: the null pointer, the object and its sender, or the
-- exception of boost::get on an object of the other kind.
pub data Got (A : Type 0) : Type 0 where
  missing : Got A
  got : ℕ → A → Got A
  bad_get : Got A

module _ {B T : Type 0} where
  abbrev pub received_state : ℕ → InvObject B T → InvState B T → InvState B T
  received_state now obj st = record st {
    obj_received = obj;
    recv_obj_time = now;
    clear_obj_time = now + max_obj_wait_time;
  }

  unfoldable pub receive_block :
      ℕ → ℕ → ℕ → B → Schedule B T → List ℕ → Schedule B T × List ℕ × Bool
  receive_block now nonce hash b s sched_peer = elim (OrdMap.find (block_inv hash) s.map_state) [
    | none ↦ (s, sched_peer, false)
    | some st ↦
        if st.assigned == nonce && not (is_received st)
        then (
          on_peer nonce (Peer.completed (block_inv hash))
              (put_state (block_inv hash) (received_state now (block b) st) s),
          OrdSet.insert_all st.known_peer sched_peer,
          true,
        )
        else (s, sched_peer, false)
  ]

  unfoldable pub receive_tx : ℕ → ℕ → ℕ → T → Schedule B T → List ℕ → Schedule B T × List ℕ × Bool
  receive_tx now nonce txid t s sched_peer = elim (OrdMap.find (tx_inv txid) s.map_state) [
    | none ↦ (s, sched_peer, false)
    | some st ↦
        if st.assigned == nonce && not (is_received st)
        then (
          unmiss_prev (tx_inv txid) (
              on_peer nonce (Peer.completed (tx_inv txid))
                (put_state (tx_inv txid) (received_state now (tx t) st) s)),
          OrdSet.insert_all st.known_peer sched_peer,
          true,
        )
        else (s, sched_peer, false)
  ]

  unfoldable pub get_block : ℕ → Schedule B T → Got B
  get_block hash s = elim (OrdMap.find (block_inv hash) s.map_state) [
    | none ↦ missing
    | some st ↦ elim st.obj_received [
      | nil ↦ missing
      | block b ↦ got st.assigned b
      | tx t ↦ bad_get
    ]
  ]

  unfoldable pub get_transaction : ℕ → Schedule B T → Got T
  get_transaction txid s = elim (OrdMap.find (tx_inv txid) s.map_state) [
    | none ↦ missing
    | some st ↦ elim st.obj_received [
      | nil ↦ missing
      | block b ↦ bad_get
      | tx t ↦ got st.assigned t
    ]
  ]

  unfoldable pub add_orphan_block_prev : ℕ → ℕ → Schedule B T → Schedule B T
  add_orphan_block_prev hash prev s = record s {
    orphan_block = Orphan.add_new prev hash s.orphan_block;
  }

  unfoldable pub add_orphan_tx_prev : ℕ → ℕ → Schedule B T → Schedule B T
  add_orphan_tx_prev txid prev s = record s { orphan_tx = Orphan.add_new prev txid s.orphan_tx }

  unfoldable pub get_next_block : ℕ → Schedule B T → List ℕ → List ℕ
  get_next_block hash s next = Orphan.get_next hash s.orphan_block next

  unfoldable pub get_next_tx : ℕ → Schedule B T → List ℕ × List ℕ → List ℕ × List ℕ
  get_next_tx txid s found = Orphan.get_next_new txid s.orphan_tx found

  -- One round of the loops of InvalidateBlock and InvalidateTx; the latter clears the entry's mark
  -- as a missing predecessor too.
  unfoldable pub invalidate_inv : Inv → Schedule B T × List ℕ → Schedule B T × List ℕ
  invalidate_inv inv (s, misbehave_peer) = elim (OrdMap.find inv s.map_state) [
    | none ↦ (s, misbehave_peer)
    | some st ↦
        let s' = forget_inv inv st.known_peer s in
        let s'' = if inv.type == msg_tx then unmiss_prev inv s' else s' in
        (erase_state inv s'', OrdSet.insert_all st.known_peer misbehave_peer)
  ]

  unfoldable pub invalidate_all : (ℕ → Inv) → List ℕ → Schedule B T × List ℕ → Schedule B T × List ℕ
  invalidate_all to_inv [] r = r
  invalidate_all to_inv (hash ∷ hashes) r =
      invalidate_all to_inv hashes (invalidate_inv (to_inv hash) r)

  abbrev pub remove_inv_last : Inv → Schedule B T × List ℕ → Schedule B T × List ℕ
  remove_inv_last inv (s, misbehave_peer) =
      let (s', peers, _) = remove_inv inv s misbehave_peer in (s', peers)

  -- `none` would mean that RemoveBranch ran out of its fuel.
  unfoldable pub invalidate_block : ℕ → Schedule B T → List ℕ → Option (Schedule B T × List ℕ)
  invalidate_block hash s misbehave_peer = elim (Orphan.remove_branch hash [] s.orphan_block) [
    | none ↦ none
    | some (invalid, rest) ↦ some (
        remove_inv_last (block_inv hash)
          (invalidate_all block_inv invalid (record s { orphan_block = rest }, misbehave_peer)))
  ]

  unfoldable pub invalidate_tx : ℕ → Schedule B T → List ℕ → Option (Schedule B T × List ℕ)
  invalidate_tx txid s misbehave_peer = elim (Orphan.remove_branch txid [] s.orphan_tx) [
    | none ↦ none
    | some (invalid, rest) ↦ some (
        remove_inv_last (tx_inv txid)
          (invalidate_all tx_inv invalid (record s { orphan_tx = rest }, misbehave_peer)))
  ]
