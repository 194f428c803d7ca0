-- ===== src/Schedule/Known.antt =====
-- src/minemon/schedule.cpp: ScheduleKnownInv, ScheduleBlockInv and ScheduleTxInv, which choose what
-- to ask a peer for. The reference `peer` of the source is the peer's entry in the map, which
-- RemoveInv changes too: each use of it goes through the map.
use mamio.Base.{
  ℕ, ◌+◌, ◌-◌, ◌*◌, Bool, false, ◌&&◌, ◌||◌, List, [], ◌∷◌, ◌++◌, none, some, ltb, leb, ◌==◌,
  if◌then◌else◌, length, nat_key,
}
use mamio.Base.OrdSet
use mamio.Base.OrdMap
use mamio.Schedule.Inv.{Inv, inv_key, msg_tx}
use mamio.Schedule.Peer
use mamio.Schedule.Peer.{get_count, get_known_list, known_inv_exists, is_empty}
use mamio.Schedule.State.{
  InvState, Schedule, is_received, peer_at, put_state, on_peer, max_regetdata_count,
  max_inv_wait_time,
}
use mamio.Schedule.Ops.{remove_inv, unmiss_prev}

-- The locals of ScheduleKnownInv; `stopped` is the effect of `break` on the rounds that follow.
pub record Pass (B T : Type 0) : Type 0 where
  pub sched : Schedule B T
  pub v_inv : List Inv
  pub removed : List Inv
  pub removed_peer : List Inv
  pub received : ℕ
  pub stopped : Bool

module _ {B T : Type 0} where
  -- Asked too often, or known for too long.
  abbrev pub inv_timeout : ℕ → InvState B T → Bool
  inv_timeout now st =
      leb max_regetdata_count st.get_data_count
      || leb 1 st.get_data_count && leb max_inv_wait_time (now - st.recv_inv_time)
      || leb (max_inv_wait_time * 12) (now - st.recv_inv_time)

  abbrev pub assign_inv : ℕ → ℕ → Inv → InvState B T → Pass B T → Pass B T
  assign_inv nonce max_count inv st a = record a {
    sched = on_peer nonce (Peer.assign inv) (
        put_state inv (record st { assigned = nonce; get_data_count = st.get_data_count + 1 })
          a.sched);
    v_inv = a.v_inv ++ inv ∷ [];
    stopped = leb max_count (length a.v_inv + 1);
  }

  -- Removes an entry that has timed out, or asks for it.
  abbrev pub remove_or_assign : ℕ → ℕ → ℕ → Inv → InvState B T → Pass B T → Pass B T
  remove_or_assign now nonce max_count inv st a =
      if inv_timeout now st
      then record a { removed = OrdSet.insert inv a.removed }
      else assign_inv nonce max_count inv st a

  -- A round of the loop over the missing predecessors.
  unfoldable pub miss_round : ℕ → ℕ → ℕ → Inv → Pass B T → Pass B T
  miss_round now nonce max_count inv a =
      if a.stopped then a else elim (OrdMap.find inv a.sched.map_state) [
        | none ↦ record a { sched = unmiss_prev inv a.sched }
        | some st ↦
            if st.assigned == 0 && known_inv_exists inv (peer_at nonce a.sched)
            then remove_or_assign now nonce max_count inv st a
            else a
      ]

  unfoldable pub miss_loop : ℕ → ℕ → ℕ → List Inv → Pass B T → Pass B T
  miss_loop now nonce max_count [] a = a
  miss_loop now nonce max_count (inv ∷ invs) a =
      miss_loop now nonce max_count invs (miss_round now nonce max_count inv a)

  -- A received object is removed at its clear time, and counted before.
  abbrev pub clear_or_count : ℕ → Inv → InvState B T → Pass B T → Pass B T
  clear_or_count now inv st a =
      if is_received st
      then (if leb st.clear_obj_time now
          then record a { removed = OrdSet.insert inv a.removed }
          else record a { received = a.received + 1 })
      else a

  -- A round of the loop over the peer's known list.
  unfoldable pub known_round : ℕ → ℕ → ℕ → Inv → Pass B T → Pass B T
  known_round now nonce max_count inv a =
      if a.stopped then a else elim (OrdMap.find inv a.sched.map_state) [
        | none ↦ record a { removed_peer = OrdSet.insert inv a.removed_peer }
        | some st ↦
            if st.assigned == 0
            then remove_or_assign now nonce max_count inv st a
            else clear_or_count now inv st a
      ]

  unfoldable pub known_loop : ℕ → ℕ → ℕ → ℕ → List ℕ → Pass B T → Pass B T
  known_loop now nonce max_count type [] a = a
  known_loop now nonce max_count type (hash ∷ hashes) a =
      known_loop now nonce max_count type hashes
        (known_round now nonce max_count (record { type = type; hash = hash }) a)

  unfoldable pub remove_all : List Inv → Schedule B T → Schedule B T
  remove_all [] s = s
  remove_all (inv ∷ invs) s = remove_all invs (remove_inv inv s []).0

  unfoldable pub remove_all_peer : ℕ → List Inv → Schedule B T → Schedule B T
  remove_all_peer nonce [] s = s
  remove_all_peer nonce (inv ∷ invs) s =
      remove_all_peer nonce invs (on_peer nonce (Peer.remove_inv inv) s)

  abbrev pub start_pass : Schedule B T → Pass B T
  start_pass s = record {
    sched = s;
    v_inv = [];
    removed = [];
    removed_peer = [];
    received = 0;
    stopped = false;
  }

  unfoldable pub miss_pass : ℕ → ℕ → ℕ → ℕ → Schedule B T → Pass B T
  miss_pass now nonce type max_count s =
      if type == msg_tx
      then miss_loop now nonce max_count s.miss_prev_tx_inv (start_pass s)
      else start_pass s

  -- The `break` of the first loop ends that loop alone.
  unfoldable pub known_pass : ℕ → ℕ → ℕ → ℕ → Pass B T → Pass B T
  known_pass now nonce type max_count a =
      if ltb (length a.v_inv) max_count
      then known_loop now nonce max_count type (get_known_list type (peer_at nonce a.sched))
          (record a { stopped = false })
      else a
