-- ===== src/Schedule/Sound/Pass.antt =====
-- ScheduleKnownInv keeps the entries of mapState sound.
use mamio.Base.{ℕ, ◌+◌, inl, inr, List, [], ◌∷◌, arith, Option-cases, false}
use mamio.Base.OrdMap
use mamio.Base.OrdMap.{find-put}
use mamio.Schedule.Inv.{Inv, inv_key, inv_eq_iff}
use mamio.Schedule.State.{Schedule, peer_at}
use mamio.Schedule.Peer.{get_known_list}
use mamio.Schedule.Known.{
  Pass, miss_round, miss_loop, known_round, known_loop, remove_all, remove_all_peer, miss_pass,
  known_pass, start_pass,
}
use mamio.Schedule.Choose.{finish_pass, schedule_known_inv}
use mamio.Schedule.Entry.{remove_inv-Entries}
use mamio.Schedule.Sound.{IsSound, AllSound}

module _ {B T : Type 0} (now nonce max_count : ℕ) where
  miss_round-AllSound :
      (inv : Inv) (a : Pass B T)
      → AllSound a.sched
      → AllSound (miss_round now nonce max_count inv a).sched
  unfolding miss_round
  miss_round-AllSound inv a v i x e = elim (Option-cases (OrdMap.find inv a.sched.map_state)) [
    | inl n ↦ ground (arith, v i x)
    | inr (st, f) ↦ ground (
      arith,
      v i x,
      v inv st f,
      inv_eq_iff inv i,
      find-put inv i (record st { assigned = nonce; get_data_count = st.get_data_count + 1 })
          a.sched.map_state,
    )
  ]

  known_round-AllSound :
      (inv : Inv) (a : Pass B T)
      → AllSound a.sched
      → AllSound (known_round now nonce max_count inv a).sched
  unfolding known_round
  known_round-AllSound inv a v i x e = elim (Option-cases (OrdMap.find inv a.sched.map_state)) [
    | inl n ↦ ground (arith, v i x)
    | inr (st, f) ↦ ground (
      arith,
      v i x,
      v inv st f,
      inv_eq_iff inv i,
      find-put inv i (record st { assigned = nonce; get_data_count = st.get_data_count + 1 })
          a.sched.map_state,
    )
  ]

  miss_loop-AllSound :
      (invs : List Inv) (a : Pass B T)
      → AllSound a.sched
      → AllSound (miss_loop now nonce max_count invs a).sched
  unfolding miss_loop
  miss_loop-AllSound [] a v = v
  miss_loop-AllSound (inv ∷ invs) a v = miss_loop-AllSound invs _ (miss_round-AllSound inv a v)

  known_loop-AllSound :
      (type : ℕ) (hashes : List ℕ) (a : Pass B T)
      → AllSound a.sched
      → AllSound (known_loop now nonce max_count type hashes a).sched
  unfolding known_loop
  known_loop-AllSound type [] a v = v
  known_loop-AllSound type (h ∷ hs) a v =
      known_loop-AllSound type hs _ (known_round-AllSound (record { type = type; hash = h }) a v)

  miss_pass-AllSound :
      (type : ℕ) (s : Schedule B T)
      → AllSound s
      → AllSound (miss_pass now nonce type max_count s).sched
  unfolding miss_pass
  miss_pass-AllSound type s v i x e =
      ground (arith, v i x, miss_loop-AllSound s.miss_prev_tx_inv (start_pass s) v i x)

  known_pass-AllSound :
      (type : ℕ) (a : Pass B T)
      → AllSound a.sched
      → AllSound (known_pass now nonce type max_count a).sched
  unfolding known_pass
  known_pass-AllSound type a v i x e = ground (
    arith,
    v i x,
    known_loop-AllSound type (get_known_list type (peer_at nonce a.sched))
        (record a { stopped = false }) v i x,
  )

module _ {B T : Type 0} where
  remove_all-AllSound :
      (invs : List Inv) (s : Schedule B T) → AllSound s → AllSound (remove_all invs s)
  unfolding remove_all
  remove_all-AllSound [] s v = v
  remove_all-AllSound (inv ∷ invs) s v =
      remove_all-AllSound invs _ (remove_inv-Entries IsSound inv s [] v)

  remove_all_peer-AllSound :
      (nonce : ℕ) (invs : List Inv) (s : Schedule B T)
      → AllSound s
      → AllSound (remove_all_peer nonce invs s)
  unfolding remove_all_peer
  remove_all_peer-AllSound nonce [] s v = v
  remove_all_peer-AllSound nonce (inv ∷ invs) s v = remove_all_peer-AllSound nonce invs _ v

  pub schedule_known_inv-AllSound :
      (now nonce type max_count : ℕ) (s : Schedule B T)
      → AllSound s
      → AllSound (schedule_known_inv now nonce type max_count s).sched
  unfolding schedule_known_inv finish_pass
  schedule_known_inv-AllSound now nonce type max_count s v =
      let a = miss_pass now nonce type max_count s in
      let b = known_pass now nonce type max_count a in
      remove_all_peer-AllSound nonce b.removed_peer (remove_all b.removed b.sched) (
        remove_all-AllSound b.removed b.sched (
          known_pass-AllSound now nonce max_count type a
            (miss_pass-AllSound now nonce max_count type s v)))
