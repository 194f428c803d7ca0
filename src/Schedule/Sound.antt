-- ===== src/Schedule/Sound.antt =====
-- Each entry of mapState holds an object of its own kind, and was asked for at most
-- MAX_REGETDATA_COUNT times: kept by the operations of CSchedule.
pub mod Pass
pub mod Objects
use mamio.Base.{
  ℕ, ◌≤◌, ◌≡◌, refl, inl, inr, Bool, true, false, List, [], ◌∷◌, none, some, arith, nat_key, ◌==◌,
  if◌then◌else◌, Option-cases, if_cases, Bool-cases, ltb, length, ◌&&◌, not,
}
use mamio.Base.OrdMap
use mamio.Base.OrdMap.{find-put}
use mamio.Base.OrdSet
use mamio.Orphan
use mamio.Schedule.Inv.{Inv, inv_key, msg_tx, msg_block, inv_eq_iff, tx_inv, block_inv}
use mamio.Schedule.Peer
use mamio.Schedule.State.{
  InvObject, nil, block, tx, InvState, Schedule, state_at, on_peer, max_regetdata_count,
  max_inv_count,
}
use mamio.Schedule.Ops.{
  known_state, check_add_inv_idle_location, add_new_inv, leave_inv, leave_all, remove_peer,
  remove_inv, check_prev_tx_inv, remove_orphan, erase_state, unmiss_prev,
}
use mamio.Schedule.Receive.{
  receive_block, receive_tx, received_state, invalidate_inv, invalidate_all, invalidate_block,
  invalidate_tx,
}
use mamio.Schedule.Cancel.{
  cancel_assigned_inv, give_up, cancel_peer, set_repeat_block, mark_repeat, set_delayed_clear,
}
use mamio.Schedule.Entry.{
  Entries, put-Entries, erase-Entries, remove_inv-Entries, map_state-remove_orphan,
  map_state-forget_inv,
}

module _ {B T : Type 0} where
  abbrev pub fits : ℕ → InvObject B T → Bool
  fits type nil = true
  fits type (block b) = type == msg_block
  fits type (tx t) = type == msg_tx

  abbrev pub IsSound : Inv → InvState B T → Type 0
  IsSound inv st =
      (st.get_data_count ≤ max_regetdata_count) × (fits inv.type st.obj_received ≡ true)

  abbrev pub AllSound : Schedule B T → Type 0
  AllSound s = Entries IsSound s.map_state

  pub state_at-IsSound : (inv : Inv) (s : Schedule B T) → AllSound s → IsSound inv (state_at inv s)
  unfolding state_at
  state_at-IsSound inv s v = elim (Option-cases (OrdMap.find inv s.map_state)) [
    | inl e ↦ rw (e, state_at) (omega arith, ground arith)
    | inr (st, e) ↦ rw (e, state_at) (v inv st e)
  ]

  pub drop_inv-AllSound :
      (inv : Inv) (s : Schedule B T)
      → AllSound s
      → AllSound (erase_state inv (unmiss_prev inv (remove_orphan inv s)))
  drop_inv-AllSound inv s v =
      rw (map_state-remove_orphan inv s) (erase-Entries IsSound inv s.map_state v)

  pub add_new_inv-AllSound :
      (now : ℕ) (inv : Inv) (nonce : ℕ) (s : Schedule B T)
      → AllSound s
      → AllSound (add_new_inv now inv nonce s).0
  unfolding add_new_inv check_add_inv_idle_location
  add_new_inv-AllSound now inv nonce s v i x e =
      let s' = on_peer nonce (λ p. p) s in
      ground (
        arith,
        v i x,
        state_at-IsSound inv s' v,
        inv_eq_iff inv i,
        find-put inv i (known_state now nonce (state_at inv s')) s.map_state,
      )

  leave_inv-AllSound :
      (nonce : ℕ) (inv : Inv) (r : Schedule B T × List ℕ)
      → AllSound r.0
      → AllSound (leave_inv nonce inv r).0
  unfolding leave_inv
  leave_inv-AllSound nonce inv (s, peers) v i x e =
      let st = state_at inv s in
      let left = OrdSet.erase nonce st.known_peer in
      ground (
        arith,
        v i x,
        state_at-IsSound inv s v,
        drop_inv-AllSound inv s v i x,
        inv_eq_iff inv i,
        find-put inv i (record st { known_peer = left; assigned = 0; obj_received = nil })
            s.map_state,
        find-put inv i (record st { known_peer = left }) s.map_state,
      )

  leave_all-AllSound :
      (nonce : ℕ) (invs : List Inv) (r : Schedule B T × List ℕ)
      → AllSound r.0
      → AllSound (leave_all nonce invs r).0
  unfolding leave_all
  leave_all-AllSound nonce [] r v = v
  leave_all-AllSound nonce (inv ∷ invs) r v =
      leave_all-AllSound nonce invs _ (leave_inv-AllSound nonce inv r v)

  pub remove_peer-AllSound :
      (nonce : ℕ) (s : Schedule B T) (peers : List ℕ)
      → AllSound s
      → AllSound (remove_peer nonce s peers).0
  unfolding remove_peer
  remove_peer-AllSound nonce s peers v = elim (Option-cases (OrdMap.find nonce s.map_peer)) [
    | inl e ↦ rw (e, remove_peer) v
    | inr (p, e) ↦
        rw (e, remove_peer) (leave_all-AllSound nonce (Peer.get_known_inv p) (s, peers) v)
  ]

  pub remove_inv-AllSound :
      (inv : Inv) (s : Schedule B T) (peers : List ℕ)
      → AllSound s
      → AllSound (remove_inv inv s peers).0
  remove_inv-AllSound = remove_inv-Entries IsSound

  pub receive_block-AllSound :
      (now nonce hash : ℕ) (b : B) (s : Schedule B T) (peers : List ℕ)
      → AllSound s
      → AllSound (receive_block now nonce hash b s peers).0
  unfolding receive_block
  receive_block-AllSound now nonce hash b s peers v i x e =
      elim (Option-cases (OrdMap.find (block_inv hash) s.map_state)) [
        | inl n ↦ ground (arith, v i x)
        | inr (st, f) ↦ ground (
          arith,
          v i x,
          v (block_inv hash) st f,
          inv_eq_iff (block_inv hash) i,
          find-put (block_inv hash) i (received_state now (block b) st) s.map_state,
        )
      ]

  pub receive_tx-AllSound :
      (now nonce txid : ℕ) (t : T) (s : Schedule B T) (peers : List ℕ)
      → AllSound s
      → AllSound (receive_tx now nonce txid t s peers).0
  unfolding receive_tx
  receive_tx-AllSound now nonce txid t s peers v i x e =
      elim (Option-cases (OrdMap.find (tx_inv txid) s.map_state)) [
        | inl n ↦ ground (arith, v i x)
        | inr (st, f) ↦ ground (
          arith,
          v i x,
          v (tx_inv txid) st f,
          inv_eq_iff (tx_inv txid) i,
          find-put (tx_inv txid) i (received_state now (tx t) st) s.map_state,
        )
      ]
