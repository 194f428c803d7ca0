-- ===== src/Schedule/Sound/Objects.antt =====
-- The rest of CSchedule keeps its entries sound: InvalidateBlock and InvalidateTx, cancelled
-- requests, and the marks and times of an entry.
use mamio.Base.{ℕ, ◌+◌, true, ◌≡◌, inl, inr, List, [], ◌∷◌, some, arith, nat_key, Option-cases}
use mamio.Base.OrdMap
use mamio.Base.OrdMap.{find-put, find-erase}
use mamio.Base.OrdSet
use mamio.Orphan.Loop.{remove_branch-total}
use mamio.Schedule.Inv.{Inv, inv_key, inv_eq_iff, tx_inv, block_inv}
use mamio.Schedule.State.{Schedule, max_repeat_block_time}
use mamio.Schedule.Receive.{
  invalidate_inv, invalidate_all, remove_inv_last, invalidate_block, invalidate_tx,
}
use mamio.Schedule.Cancel.{cancel_assigned_inv, set_repeat_block, set_delayed_clear}
use mamio.Schedule.Entry.{remove_inv-Entries, map_state-forget_inv}
use mamio.Schedule.Sound.{IsSound, AllSound, drop_inv-AllSound}

module _ {B T : Type 0} where
  invalidate_inv-AllSound :
      (inv : Inv) (r : Schedule B T × List ℕ) → AllSound r.0 → AllSound (invalidate_inv inv r).0
  unfolding invalidate_inv
  invalidate_inv-AllSound inv (s, peers) v i x e =
      elim (Option-cases (OrdMap.find inv s.map_state)) [
        | inl n ↦ ground (arith, v i x)
        | inr (st, f) ↦
            ground
              (arith, v i x, map_state-forget_inv inv st.known_peer s, find-erase inv i s.map_state)
      ]

  invalidate_all-AllSound :
      (to_inv : ℕ → Inv) (hashes : List ℕ) (r : Schedule B T × List ℕ)
      → AllSound r.0
      → AllSound (invalidate_all to_inv hashes r).0
  unfolding invalidate_all
  invalidate_all-AllSound to_inv [] r v = v
  invalidate_all-AllSound to_inv (h ∷ hs) r v =
      invalidate_all-AllSound to_inv hs _ (invalidate_inv-AllSound (to_inv h) r v)

  -- InvalidateBlock ends, and keeps the entries sound.
  pub invalidate_block-AllSound :
      (hash : ℕ) (s : Schedule B T) (peers : List ℕ)
      → AllSound s
      → (r : Schedule B T × List ℕ) × (invalidate_block hash s peers ≡ some r) × AllSound r.0
  unfolding invalidate_block
  invalidate_block-AllSound hash s peers v =
      let ((invalid, rest), e) = remove_branch-total hash [] s.orphan_block in
      let s' = record s { orphan_block = rest } in
      (
        remove_inv_last (block_inv hash) (invalidate_all block_inv invalid (s', peers)),
        rw (e, invalidate_block),
        remove_inv-Entries IsSound (block_inv hash) _ _
            (invalidate_all-AllSound block_inv invalid (s', peers) v),
      )

  -- InvalidateTx likewise.
  pub invalidate_tx-AllSound :
      (txid : ℕ) (s : Schedule B T) (peers : List ℕ)
      → AllSound s
      → (r : Schedule B T × List ℕ) × (invalidate_tx txid s peers ≡ some r) × AllSound r.0
  unfolding invalidate_tx
  invalidate_tx-AllSound txid s peers v =
      let ((invalid, rest), e) = remove_branch-total txid [] s.orphan_tx in
      let s' = record s { orphan_tx = rest } in
      (
        remove_inv_last (tx_inv txid) (invalidate_all tx_inv invalid (s', peers)),
        rw (e, invalidate_tx),
        remove_inv-Entries IsSound (tx_inv txid) _ _
            (invalidate_all-AllSound tx_inv invalid (s', peers) v),
      )

  pub cancel_assigned_inv-AllSound :
      (nonce : ℕ) (inv : Inv) (s : Schedule B T)
      → AllSound s
      → AllSound (cancel_assigned_inv nonce inv s).0
  unfolding cancel_assigned_inv
  cancel_assigned_inv-AllSound nonce inv s v i x e =
      elim (Option-cases (OrdMap.find inv s.map_state)) [
        | inl n ↦ ground (arith, v i x)
        | inr (st, f) ↦ ground (
          arith,
          v i x,
          v inv st f,
          inv_eq_iff inv i,
          drop_inv-AllSound inv s v i x,
          find-put inv i (record st { assigned = 0; known_peer = OrdSet.erase nonce st.known_peer })
              s.map_state,
        )
      ]

  pub set_repeat_block-AllSound :
      (now nonce hash : ℕ) (s : Schedule B T)
      → AllSound s
      → AllSound (set_repeat_block now nonce hash s).0
  unfolding set_repeat_block
  set_repeat_block-AllSound now nonce hash s v i x e =
      elim (Option-cases (OrdMap.find (block_inv hash) s.map_state)) [
        | inl n ↦ ground (arith, v i x)
        | inr (st, f) ↦ ground (
          arith,
          v i x,
          v (block_inv hash) st f,
          inv_eq_iff (block_inv hash) i,
          find-put (block_inv hash) i
              (record st { repeat_mint_block = true; clear_obj_time = now + max_repeat_block_time })
              s.map_state,
        )
      ]

  pub set_delayed_clear-AllSound :
      (now : ℕ) (inv : Inv) (delayed : ℕ) (s : Schedule B T)
      → AllSound s
      → AllSound (set_delayed_clear now inv delayed s).0
  unfolding set_delayed_clear
  set_delayed_clear-AllSound now inv delayed s v i x e =
      elim (Option-cases (OrdMap.find inv s.map_state)) [
        | inl n ↦ ground (arith, v i x)
        | inr (st, f) ↦ ground (
          arith,
          v i x,
          v inv st f,
          inv_eq_iff inv i,
          find-put inv i (record st { clear_obj_time = now + delayed }) s.map_state,
        )
      ]
