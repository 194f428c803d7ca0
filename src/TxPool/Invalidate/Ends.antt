-- ===== src/TxPool/Invalidate/Ends.antt =====
-- src/minemon/txpool.cpp, CTxPoolView::InvalidateSpent: its loop ends.
use mamio.Base.{
  ℕ, zero, suc, ◌+◌, ◌*◌, ◌≤◌, ◌<◌, ◌≡◌, refl, ap, sym, ◌∙◌, inl, inr, Bool, true, false, List, [],
  ◌∷◌, ◌++◌, Option, none, some, if_cases, arith, length, length-append, Option-cases, nat_key,
}
use mamio.TxPool.{OutPoint, out_point, PooledTx, PooledTxLink, Txs, inputs_of}
use mamio.TxPool.View.{
  TxPoolView, erase_link, get, get_spent, is_spent, erase_spent, erase_tx, free_inputs, count,
}
use mamio.TxPool.View.Spending.{has_link, get-has_link, links-free_inputs}
use mamio.TxPool.Index.Ends.{IsWeight, add_new-ends}
use mamio.TxPool.Invalidate.{
  next_tx, still_spent, forget_unspent, Invalidation, remove_next, invalidate_loop,
  invalidate_spent,
}

pub length-erase_link_le : (x : ℕ) (ls : List PooledTxLink) → length (erase_link x ls) ≤ length ls
unfolding erase_link
length-erase_link_le x [] = omega arith
length-erase_link_le x (l ∷ ls) = ground (arith, length-erase_link_le x ls)

length-erase_link :
    (x : ℕ) (ls : List PooledTxLink) → has_link x ls ≡ true → length (erase_link x ls) < length ls
unfolding erase_link
length-erase_link x [] h = absurd cc
length-erase_link x (l ∷ ls) h = ground (arith, length-erase_link_le x ls, length-erase_link x ls)

pub next_tx-has_link :
    (v : TxPoolView) (txs : Txs) (found : Bool × Option ℕ) (x : ℕ) (p : PooledTx)
    → next_tx v txs found ≡ some (x, p)
    → has_link x v.links ≡ true
unfolding next_tx
next_tx-has_link v txs (true, some y) x p e = elim (Option-cases (get y v txs)) [
  | inl gone ↦ absurd (ground (arith, rw (next_tx, gone) at e))
  | inr (q, there) ↦
      let same : y ≡ x = ground (arith, rw (next_tx, there) at e) in
      ap (λ z. has_link z v.links) (sym same) ∙ get-has_link y v txs q there
]
next_tx-has_link v txs (true, none) x p e = absurd cc
next_tx-has_link v txs (false, o) x p e = absurd cc

length-still_spent : (out : OutPoint) (v : TxPoolView) → length (still_spent out v) ≤ 1
length-still_spent out v = ground arith

pub links-forget_unspent :
    (out : OutPoint) (v : TxPoolView) → (forget_unspent out v).links ≡ v.links
unfolding erase_spent
links-forget_unspent out v =
    if_cases (λ (u : TxPoolView). u.links ≡ v.links) (is_spent out v) (λ t. refl) (λ t. refl)

-- What is left after a round: at most two outputs more to do, and a transaction less.
record Smaller (pending : List OutPoint) (v : TxPoolView) (i : Invalidation) : Type 0 where
  fewer : length i.view.links ≤ length v.links
  less : length i.pending + 2 * length i.view.links ≤ length pending + 2 * length v.links

remove_next-ends :
    (w : ℕ → ℕ) (fuel next : ℕ) (p : PooledTx) (pending : List OutPoint) (v involved : TxPoolView)
    (txs : Txs)
    → IsWeight w fuel txs
    → has_link next v.links ≡ true
    → (i : Invalidation) × (remove_next fuel next p pending v involved txs ≡ some i)
      × IsWeight w fuel i.txs
      × Smaller pending v i
unfolding remove_next erase_tx
remove_next-ends w fuel next p pending v involved txs k here =
    let freed = free_inputs (inputs_of p) v txs in
    let v_0 = forget_unspent (out_point next 0) freed in
    let v_1 = forget_unspent (out_point next 1) v_0 in
    let more_0 = still_spent (out_point next 0) freed in
    let more_1 = still_spent (out_point next 1) v_0 in
    let (r, e, l) = add_new-ends w fuel next involved txs k in
    let same : v_1.links ≡ v.links =
      links-forget_unspent (out_point next 1) v_0
      ∙ links-forget_unspent (out_point next 0) freed
      ∙ links-free_inputs (inputs_of p) v txs in
    let i : Invalidation = record {
      pending = pending ++ (more_0 ++ more_1);
      view = erase_tx next v_1;
      involved = r.view;
      txs = r.txs;
    } in
    let gone : length (erase_link next v_1.links) < length v.links =
      omega
        (arith, ap (λ ls. length (erase_link next ls)) same, length-erase_link next v.links here) in
    (
      i,
      rw (e, remove_next) refl,
      l,
      record {
        fewer = omega (arith, gone);
        less = omega (
          arith,
          gone,
          length-append pending (more_0 ++ more_1),
          length-append more_0 more_1,
          length-still_spent (out_point next 0) freed,
          length-still_spent (out_point next 1) v_0,
        );
      },
    )

invalidate_loop-ends :
    (w : ℕ → ℕ) (rounds fuel : ℕ) (pending : List OutPoint) (v involved : TxPoolView) (txs : Txs)
    → IsWeight w fuel txs
    → length pending + 2 * length v.links ≤ rounds
    → (i : Invalidation) × (invalidate_loop rounds fuel pending v involved txs ≡ some i)
      × IsWeight w fuel i.txs
      × (length i.view.links ≤ length v.links)
unfolding invalidate_loop erase_spent
invalidate_loop-ends w rounds fuel [] v involved txs k h =
    (record { pending = []; view = v; involved = involved; txs = txs }, refl, k, omega arith)
invalidate_loop-ends w zero fuel (out ∷ pending) v involved txs k h = absurd (omega arith)
invalidate_loop-ends w (suc rounds) fuel (out ∷ pending) v involved txs k h =
    elim (Option-cases (next_tx v txs (get_spent out v))) [
      | inl e ↦
          rw (e, invalidate_loop)
            (invalidate_loop-ends w rounds fuel pending (erase_spent out v) involved txs k
              (omega arith))
      | inr ((next, p), e) ↦
          let here = next_tx-has_link v txs (get_spent out v) next p e in
          let (i, run, l, s) = remove_next-ends w fuel next p pending v involved txs k here in
          let (j, rest, m, fewer) =
            invalidate_loop-ends w rounds fuel i.pending i.view i.involved i.txs l
              (omega (arith, s.less)) in
          rw (e, invalidate_loop, run) (j, rest, m, omega (arith, fewer, s.fewer))
    ]

-- InvalidateSpent ends: where each transaction of mapTx weighs as much as all that it spends from,
-- each with one more, and AddNew has as much fuel as any transaction weighs, one round and two for
-- each transaction of the view are enough for the loop over the outputs; and the weights are still
-- such, and no transaction has got into the view.
pub invalidate_spent-ends :
    (w : ℕ → ℕ) (rounds fuel : ℕ) (out : OutPoint) (v involved : TxPoolView) (txs : Txs)
    → IsWeight w fuel txs
    → 1 + 2 * count v ≤ rounds
    → (i : Invalidation) × (invalidate_spent rounds fuel out v involved txs ≡ some i)
      × IsWeight w fuel i.txs
      × (count i.view ≤ count v)
unfolding invalidate_spent count
invalidate_spent-ends w rounds fuel out v involved txs k h =
    invalidate_loop-ends w rounds fuel (out ∷ []) v involved txs k (omega arith)
