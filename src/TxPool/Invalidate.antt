-- ===== src/TxPool/Invalidate.antt =====
-- src/minemon/txpool.cpp, CTxPoolView::InvalidateSpent: what spends an output leaves the pool, and
-- what spends its outputs too. The loop over `vOutPoint` runs on fuel, and so does AddNew of the view
-- that the removed transactions go to; a result of `none` is a run that ends for want of it.
pub mod Ends
pub mod Absent
use mamio.Base.{
  ℕ, zero, suc, Bool, true, false, List, [], ◌∷◌, ◌++◌, Option, none, some, if◌then◌else◌, nat_key,
}
use mamio.TxPool.{OutPoint, out_point, PooledTx, Txs, inputs_of}
use mamio.TxPool.View.{TxPoolView, get, get_spent, is_spent, erase_spent, erase_tx, free_inputs}
use mamio.TxPool.Index.{Outcome, add_new}

-- pNextTx, with the hash that leads to it, for what GetSpent gives.
unfoldable pub next_tx : TxPoolView → Txs → Bool × Option ℕ → Option (ℕ × PooledTx)
next_tx v txs (true, some next) = elim (get next v txs) [ none ↦ none | some p ↦ some (next, p) ]
next_tx v txs _ = none

-- An output of the removed transaction: it goes on the vector when it is spent, or out of mapSpent.
abbrev pub still_spent : OutPoint → TxPoolView → List OutPoint
still_spent out v = if is_spent out v then out ∷ [] else []

abbrev pub forget_unspent : OutPoint → TxPoolView → TxPoolView
forget_unspent out v = if is_spent out v then v else erase_spent out v

-- The two views, what is still on the vector, and mapTx.
pub record Invalidation : Type 0 where
  pub pending : List OutPoint
  pub view : TxPoolView
  pub involved : TxPoolView
  pub txs : Txs

-- A round that removes the transaction p; `fuel` is for AddNew.
unfoldable pub remove_next :
    ℕ → ℕ → PooledTx → List OutPoint → TxPoolView → TxPoolView → Txs → Option Invalidation
remove_next fuel next p pending v involved txs =
    let freed = free_inputs (inputs_of p) v txs in
    let pending_0 = still_spent (out_point next 0) freed in
    let v_0 = forget_unspent (out_point next 0) freed in
    let pending_1 = still_spent (out_point next 1) v_0 in
    let v_1 = forget_unspent (out_point next 1) v_0 in
    elim (add_new fuel next involved txs) [
      | none ↦ none
      | some r ↦ some (record {
        pending = pending ++ (pending_0 ++ pending_1);
        view = erase_tx next v_1;
        involved = r.view;
        txs = r.txs;
      })
    ]

unfoldable pub invalidate_loop :
    ℕ → ℕ → List OutPoint → TxPoolView → TxPoolView → Txs → Option Invalidation
invalidate_loop rounds fuel [] v involved txs =
    some (record { pending = []; view = v; involved = involved; txs = txs })
invalidate_loop zero fuel (out ∷ pending) v involved txs = none
invalidate_loop (suc rounds) fuel (out ∷ pending) v involved txs =
    elim (next_tx v txs (get_spent out v)) [
      | none ↦ invalidate_loop rounds fuel pending (erase_spent out v) involved txs
      | some e ↦
          let (next, p) = e in
          elim (remove_next fuel next p pending v involved txs) [
            | none ↦ none
            | some i ↦ invalidate_loop rounds fuel i.pending i.view i.involved i.txs
          ]
    ]

-- InvalidateSpent(out, viewInvolvedTx)
unfoldable pub invalidate_spent :
    ℕ → ℕ → OutPoint → TxPoolView → TxPoolView → Txs → Option Invalidation
invalidate_spent rounds fuel out = invalidate_loop rounds fuel (out ∷ [])
