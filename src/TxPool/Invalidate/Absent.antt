-- ===== src/TxPool/Invalidate/Absent.antt =====
-- src/minemon/txpool.cpp, CTxPoolView::InvalidateSpent: a transaction that is in neither view gets
-- into neither.
use mamio.Base.{
  ℕ, zero, suc, ◌≡◌, ap, ◌∙◌, inl, inr, true, false, List, [], ◌∷◌, Option, none, some, ◌==◌,
  ==_iff, arith, Option-cases, Bool-cases, nat_key,
}
use mamio.TxPool.{OutPoint, out_point, PooledTx, Txs, inputs_of}
use mamio.TxPool.View.{TxPoolView, get_spent, erase_spent, erase_tx, free_inputs}
use mamio.TxPool.View.Spending.{has_link, has_link-erase_link, links-free_inputs}
use mamio.TxPool.Index.{Outcome, add_new}
use mamio.TxPool.Index.Effect.{assembled_at}
use mamio.TxPool.Index.Added.{Kept, add_new-Kept}
use mamio.TxPool.Invalidate.{
  next_tx, forget_unspent, Invalidation, remove_next, invalidate_loop, invalidate_spent,
}
use mamio.TxPool.Invalidate.Ends.{next_tx-has_link, links-forget_unspent}

-- The transaction x is in neither view; mapTx has the transactions that `txs` has.
pub record Absent (x : ℕ) (txs : Txs) (v involved : TxPoolView) (now : Txs) : Type 0 where
  pub outside : has_link x v.links ≡ false
  pub apart : has_link x involved.links ≡ false
  pub same : (y : ℕ) → assembled_at y now ≡ assembled_at y txs

abbrev IfInvalidated : (Invalidation → Type 0) → Option Invalidation → Type 0
IfInvalidated P none = Unit {0}
IfInvalidated P (some i) = P i

abbrev AbsentAfter : ℕ → Txs → Invalidation → Type 0
AbsentAfter x txs i = Absent x txs i.view i.involved i.txs

added-Absent :
    (x next : ℕ) (txs now : Txs) (v freed involved : TxPoolView) (pending : List OutPoint)
    (r : Outcome)
    → Absent x txs v involved now
    → has_link next v.links ≡ true
    → freed.links ≡ v.links
    → Kept next involved now r
    → Absent x txs (erase_tx next freed) r.view r.txs
unfolding erase_tx
added-Absent x next txs now v freed involved pending r a here links k =
    let other : (next == x) ≡ false = elim (Bool-cases (next == x)) [
      | inl same ↦
          absurd
            (ground (arith, a.outside, here, ap (λ z. has_link z v.links) ((==_iff next x).0 same)))
      | inr other ↦ other
    ] in
    record {
      outside =
          ground (arith, has_link-erase_link next x freed.links, ap (has_link x) links, a.outside);
      apart = elim (Bool-cases (has_link x r.view.links)) [
        | inl there ↦ absurd (ground (arith, k.within x there, other, a.apart))
        | inr gone ↦ gone
      ];
      same = λ y. k.same y ∙ a.same y;
    }

remove_next-Absent :
    (x fuel next : ℕ) (p : PooledTx) (pending : List OutPoint) (txs now : Txs)
    (v involved : TxPoolView)
    → Absent x txs v involved now
    → has_link next v.links ≡ true
    → IfInvalidated (AbsentAfter x txs) (remove_next fuel next p pending v involved now)
unfolding remove_next
remove_next-Absent x fuel next p pending txs now v involved a here =
    let freed = free_inputs (inputs_of p) v now in
    let v_0 = forget_unspent (out_point next 0) freed in
    let v_1 = forget_unspent (out_point next 1) v_0 in
    let same : v_1.links ≡ v.links =
      links-forget_unspent (out_point next 1) v_0
      ∙ links-forget_unspent (out_point next 0) freed
      ∙ links-free_inputs (inputs_of p) v now in
    elim (Option-cases (add_new fuel next involved now)) [
      | inl stop ↦ rw (stop, remove_next) tt
      | inr (r, e) ↦
          rw (e, remove_next)
            (added-Absent x next txs now v v_1 involved pending r a here same
              (rw e at (add_new-Kept fuel next involved now)))
    ]

pub invalidate_loop-Absent :
    (x rounds fuel : ℕ) (pending : List OutPoint) (txs now : Txs) (v involved : TxPoolView)
    → Absent x txs v involved now
    → IfInvalidated (AbsentAfter x txs) (invalidate_loop rounds fuel pending v involved now)
unfolding invalidate_loop erase_spent
invalidate_loop-Absent x rounds fuel [] txs now v involved a = a
invalidate_loop-Absent x zero fuel (out ∷ pending) txs now v involved a = tt
invalidate_loop-Absent x (suc rounds) fuel (out ∷ pending) txs now v involved a =
    elim (Option-cases (next_tx v now (get_spent out v))) [
      | inl e ↦
          rw (e, invalidate_loop)
            (invalidate_loop-Absent x rounds fuel pending txs now (erase_spent out v) involved
              (record { outside = a.outside; apart = a.apart; same = a.same }))
      | inr ((next, p), e) ↦
          let here = next_tx-has_link v now (get_spent out v) next p e in
          elim (Option-cases (remove_next fuel next p pending v involved now)) [
            | inl stop ↦ rw (e, invalidate_loop, stop) tt
            | inr (i, run) ↦
                let b =
                  rw run at (remove_next-Absent x fuel next p pending txs now v involved a here) in
                rw (e, invalidate_loop, run)
                  (invalidate_loop-Absent x rounds fuel i.pending txs i.txs i.view i.involved b)
          ]
    ]

-- The same for a run that ends.
pub invalidate_spent-Absent :
    (x rounds fuel : ℕ) (out : OutPoint) (txs now : Txs) (v involved : TxPoolView)
    (i : Invalidation)
    → Absent x txs v involved now
    → invalidate_spent rounds fuel out v involved now ≡ some i
    → Absent x txs i.view i.involved i.txs
unfolding invalidate_spent
invalidate_spent-Absent x rounds fuel out txs now v involved i a run =
    rw run at (invalidate_loop-Absent x rounds fuel (out ∷ []) txs now v involved a)
