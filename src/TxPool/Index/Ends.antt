-- ===== src/TxPool/Index/Ends.antt =====
-- src/minemon/txpool.cpp, CTxPoolView::AddNew: its loop ends.
use mathlib.Core.Option
use mathlib.Core.List.{map}
use mamio.Base.{
  ℕ, zero, suc, ◌+◌, ◌≤◌, ◌≡◌, refl, sym, subst, inl, inr, true, List, [], ◌∷◌, ◌++◌, Option, none,
  some, ltb, arith, Option-cases, Bool-cases, nat_key,
}
use mamio.Base.OrdMap
use mamio.TxPool.{OutPoint, AssembledTx, PooledTx, Txs, inputs_of}
use mamio.TxPool.View.{TxPoolView, get}
use mamio.TxPool.Index.{Outcome, add_tx_index, enter, previous, previous_at, previous_loop, add_new}
use mamio.TxPool.Index.Effect.{assembled_at, add_tx_index-Indexed, previous_loop-Ordered}

-- The weight of the previous transactions that a loop has before it.
abbrev pub weight : (ℕ → ℕ) → List OutPoint → ℕ
weight w [] = 0
weight w (o ∷ os) = w o.hash + 1 + weight w os

abbrev pub IsBelow : (ℕ → ℕ) → ℕ → Option AssembledTx → Type 0
IsBelow w n none = Unit {0}
IsBelow w n (some a) = weight w a.tx.inputs ≤ n

-- No transaction comes before itself: each weighs as much as what it spends from. The fuel is as
-- much as any of them weighs.
pub record IsWeight (w : ℕ → ℕ) (fuel : ℕ) (txs : Txs) : Type 0 where
  pub below : (x : ℕ) → IsBelow w (w x) (assembled_at x txs)
  pub bounded : (x : ℕ) → w x ≤ fuel

IsWeight-same :
    (w : ℕ → ℕ) (fuel : ℕ) (txs txs' : Txs)
    → ((x : ℕ) → assembled_at x txs' ≡ assembled_at x txs)
    → IsWeight w fuel txs
    → IsWeight w fuel txs'
IsWeight-same w fuel txs txs' h k = record {
  below = λ x. subst (IsBelow w (w x)) (sym (h x)) (k.below x);
  bounded = k.bounded;
}

abbrev pending_weight : (ℕ → ℕ) → List (ℕ × ℕ) → ℕ
pending_weight w [] = 0
pending_weight w ((x, seq) ∷ es) = w x + 1 + pending_weight w es

pending_weight-append :
    (w : ℕ → ℕ) (es fs : List (ℕ × ℕ))
    → pending_weight w (es ++ fs) ≡ pending_weight w es + pending_weight w fs
pending_weight-append w [] fs = omega arith
pending_weight-append w ((x, seq) ∷ es) fs = omega (arith, pending_weight-append w es fs)

pending_weight-inputs :
    (w : ℕ → ℕ) (seq : ℕ) (os : List OutPoint)
    → pending_weight w (map (λ (o : OutPoint). (o.hash, seq)) os) ≡ weight w os
pending_weight-inputs w seq [] = refl
pending_weight-inputs w seq (o ∷ os) = omega (arith, pending_weight-inputs w seq os)

weight_of_entry :
    (w : ℕ → ℕ) (fuel x : ℕ) (txs : Txs) (p : PooledTx)
    → IsWeight w fuel txs
    → OrdMap.find x txs ≡ some p
    → pending_weight w (previous p) ≤ w x
weight_of_entry w fuel x txs p k e =
    let b : IsBelow w (w x) (Option.map (λ (q : PooledTx). q.assembled) (some p)) =
      rw e at (k.below x) in
    omega (arith, pending_weight-inputs w p.sequence_number (inputs_of p), b)

weight_of_found :
    (w : ℕ → ℕ) (fuel x : ℕ) (txs : Txs) (o : Option PooledTx)
    → IsWeight w fuel txs
    → OrdMap.find x txs ≡ o
    → pending_weight w (elim o [ none ↦ [] | some p ↦ previous p ]) ≤ w x
weight_of_found w fuel x txs none k e = omega arith
weight_of_found w fuel x txs (some p) k e = weight_of_entry w fuel x txs p k e

weight_at :
    (w : ℕ → ℕ) (fuel x : ℕ) (txs : Txs)
    → IsWeight w fuel txs
    → pending_weight w (previous_at x txs) ≤ w x
weight_at w fuel x txs k = weight_of_found w fuel x txs (OrdMap.find x txs) k refl

previous_loop-ends :
    (w : ℕ → ℕ) (bound fuel : ℕ) (pending : List (ℕ × ℕ)) (v : TxPoolView) (txs : Txs)
    → IsWeight w bound txs
    → pending_weight w pending ≤ fuel
    → (r : Outcome) × (previous_loop fuel pending v txs ≡ some r)
unfolding previous_loop
previous_loop-ends w bound fuel [] v txs k h =
    (record { success = true; view = v; txs = txs }, refl)
previous_loop-ends w bound zero (e ∷ pending) v txs k h = absurd (omega arith)
previous_loop-ends w bound (suc fuel) ((x, seq) ∷ pending) v txs k h =
    elim (Option-cases (get x v txs)) [
      | inl e ↦
          rw (e, previous_loop) (previous_loop-ends w bound fuel pending v txs k (omega arith))
      | inr (p, e) ↦ elim (Bool-cases (ltb seq p.sequence_number)) [
        | inr behind ↦
            rw (e, previous_loop, behind)
              (previous_loop-ends w bound fuel pending v txs k (omega arith))
        | inl ahead ↦
            let r = add_tx_index x v txs in
            let l = IsWeight-same w bound txs r.txs (add_tx_index-Indexed x v txs).same k in
            elim (Bool-cases r.success) [
              | inr failed ↦ rw (e, previous_loop, ahead, failed) (r, refl)
              | inl done ↦
                  rw (e, previous_loop, ahead, done)
                    (previous_loop-ends w bound fuel (pending ++ previous_at x r.txs) r.view r.txs l
                      (omega (
                        arith,
                        pending_weight-append w pending (previous_at x r.txs),
                        weight_at w bound x r.txs l,
                      )))
            ]
      ]
    ]

-- AddNew ends, and keeps the weights.
pub add_new-ends :
    (w : ℕ → ℕ) (fuel txid : ℕ) (v : TxPoolView) (txs : Txs)
    → IsWeight w fuel txs
    → (r : Outcome) × (add_new fuel txid v txs ≡ some r) × IsWeight w fuel r.txs
unfolding add_new
add_new-ends w fuel txid v txs k =
    let s = add_tx_index txid v txs in
    let l = IsWeight-same w fuel txs s.txs (add_tx_index-Indexed txid v txs).same k in
    elim (Bool-cases s.success) [
      | inr failed ↦ rw (failed, add_new) (s, refl, l)
      | inl done ↦ elim (Option-cases (OrdMap.find txid s.txs)) [
        | inl gone ↦ rw (done, gone, add_new) (s, refl, l)
        | inr (p, there) ↦
            let inside = enter txid p s.view in
            let (r, e) =
              previous_loop-ends w fuel fuel (previous p) inside s.txs l
                (omega (arith, weight_of_entry w fuel txid s.txs p l there, l.bounded txid)) in
            let o = rw e at (previous_loop-Ordered fuel (previous p) inside s.txs) in
            rw (done, there, add_new) (r, e, IsWeight-same w fuel s.txs r.txs o.same l)
      ]
    ]
