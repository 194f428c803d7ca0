-- ===== src/TxPool/Arrange/Closed.antt =====
-- src/minemon/txpool.cpp, CTxPoolView::ArrangeBlockTx: a block that it fills holds what its
-- transactions spend from.
use mamio.Base.{
  ℕ, ◌+◌, ◌≤◌, ◌≡◌, sym, subst, ◌∙◌, ◌⊎◌, inl, inr, false, not, ◌&&◌, ◌||◌, List, [], ◌∷◌, map, ltb,
  leb, arith, Bool-cases, nat_key,
}
use mamio.Base.OrdSet
use mamio.Base.OrdSet.{contains-insert}
use mamio.TxPool.{OutPoint, get_tx_time, PooledTx, Txs, inputs_of}
use mamio.TxPool.View.{TxPoolView}
use mamio.TxPool.Arrange.{misses_prev, entries, arrange_block_tx}
use mamio.TxPool.Arrange.Selection.{
  AreSizes, tx_of, eligible, fitting, selected, arrange_block_tx-selected,
}

-- A hash is that of one of the transactions.
abbrev pub HasTx : ℕ → List (ℕ × PooledTx) → Type 0
HasTx txid [] = ⊥
HasTx txid ((t, p) ∷ es) = (t ≡ txid) ⊎ HasTx txid es

-- A hash is that of a transaction which an input names.
abbrev pub Names : ℕ → List OutPoint → Type 0
Names txid [] = ⊥
Names txid (o ∷ os) = (o.hash ≡ txid) ⊎ Names txid os

abbrev pub InList : ℕ → PooledTx → List (ℕ × PooledTx) → Type 0
InList t p [] = ⊥
InList t p ((s, q) ∷ es) = ((s ≡ t) × (q ≡ p)) ⊎ InList t p es

-- A transaction stands at the place of this one in the pool or behind it.
abbrev pub IsBehind : ℕ → ℕ → PooledTx → List (ℕ × PooledTx) → Type 0
IsBehind x t p [] = ⊥
IsBehind x t p ((s, q) ∷ es) = ((s ≡ t) × (q ≡ p) × HasTx x ((s, q) ∷ es)) ⊎ IsBehind x t p es

-- Each transaction of the pool that a chosen one spends from is chosen, or it stands behind it.
abbrev pub IsClosed : List (ℕ × PooledTx) → List (ℕ × PooledTx) → Type 0
IsClosed pool chosen =
    (t : ℕ) (p : PooledTx) (x : ℕ)
    → InList t p chosen
    → Names x (inputs_of p)
    → HasTx x pool
    → HasTx x chosen ⊎ IsBehind x t p pool

abbrev pub InTime : ℕ → List (ℕ × PooledTx) → Type 0
InTime block_time [] = Unit {0}
InTime block_time ((t, p) ∷ es) = (get_tx_time p.assembled.tx ≤ block_time) × InTime block_time es

-- The transactions that are left out do not hold the one that an input names.
misses_prev-contains :
    (os : List OutPoint) (un_tx : List ℕ) (x : ℕ)
    → misses_prev os un_tx ≡ false
    → Names x os
    → OrdSet.contains x un_tx ≡ false
unfolding misses_prev
misses_prev-contains [] un_tx x h n = absurd n
misses_prev-contains (o ∷ os) un_tx x h (inl e) = ground (arith, rw e at h)
misses_prev-contains (o ∷ os) un_tx x h (inr n) =
    misses_prev-contains os un_tx x (ground (arith, h)) n

-- What an eligible transaction spends from is not left out before, and is eligible or behind it.
abbrev IsKept : List ℕ → List (ℕ × PooledTx) → List (ℕ × PooledTx) → ℕ → PooledTx → ℕ → Type 0
IsKept un_tx es chosen t p x =
    (OrdSet.contains x un_tx ≡ false) × (HasTx x es → HasTx x chosen ⊎ IsBehind x t p es)

left_out-IsKept :
    (un_tx : List ℕ) (q : PooledTx) (es chosen : List (ℕ × PooledTx)) (s t : ℕ) (p : PooledTx)
    (x : ℕ)
    → IsKept (OrdSet.insert s un_tx) es chosen t p x
    → IsKept un_tx ((s, q) ∷ es) chosen t p x
left_out-IsKept un_tx q es chosen s t p x (out, kept) =
    let e : nat_key.same s x || OrdSet.contains x un_tx ≡ false =
      sym (contains-insert s x un_tx) ∙ out in
    (
      ground (arith, e),
      λ h. elim h [
        | inl same ↦ absurd (ground (arith, e, same))
        | inr later ↦ elim (kept later) [ inl in_it ↦ inl in_it | inr behind ↦ inr (inr behind) ]
      ],
    )

chosen-IsKept :
    (un_tx : List ℕ) (es chosen : List (ℕ × PooledTx)) (s t : ℕ) (q p : PooledTx) (x : ℕ)
    → misses_prev (inputs_of q) un_tx ≡ false
    → s ≡ t
    → q ≡ p
    → Names x (inputs_of p)
    → IsKept un_tx ((s, q) ∷ es) ((s, q) ∷ chosen) t p x
chosen-IsKept un_tx es chosen s t q p x h place e n =
    let named : Names x (inputs_of q) = subst (λ r. Names x (inputs_of r)) (sym e) n in
    (misses_prev-contains (inputs_of q) un_tx x h named, λ has. inr (inl (place, e, has)))

later-IsKept :
    (un_tx : List ℕ) (es chosen : List (ℕ × PooledTx)) (s : ℕ) (q : PooledTx) (t : ℕ) (p : PooledTx)
    (x : ℕ)
    → IsKept un_tx es chosen t p x
    → IsKept un_tx ((s, q) ∷ es) ((s, q) ∷ chosen) t p x
later-IsKept un_tx es chosen s q t p x (out, kept) = (
  out,
  λ has. elim has [
    | inl same ↦ inl (inl same)
    | inr later ↦ elim (kept later) [ inl in_it ↦ inl (inr in_it) | inr behind ↦ inr (inr behind) ]
  ],
)

fitting_closed :
    (block_time max_size total : ℕ) (un_tx : List ℕ) (es : List (ℕ × PooledTx)) (t : ℕ)
    (p : PooledTx)
    → InList t p (fitting max_size total (eligible block_time un_tx es))
    → (x : ℕ) → Names x (inputs_of p)
    → IsKept un_tx es (fitting max_size total (eligible block_time un_tx es)) t p x
unfolding fitting eligible
fitting_closed block_time max_size total un_tx [] t p m x n = absurd m
fitting_closed block_time max_size total un_tx ((s, q) ∷ es) t p m x n =
    elim (Bool-cases
      (leb (get_tx_time q.assembled.tx) block_time && not (misses_prev (inputs_of q) un_tx))) [
        | inr out ↦
            let rest =
              fitting_closed block_time max_size total (OrdSet.insert s un_tx) es t p
                (rw (eligible, out) at m) x n in
            rw (eligible, out) (left_out-IsKept un_tx q es _ s t p x rest)
        | inl on ↦ elim (Bool-cases (ltb max_size (total + q.serialize_size))) [
          | inl full ↦ absurd (rw (eligible, on, full) at m)
          | inr fits ↦
              let here : misses_prev (inputs_of q) un_tx ≡ false = ground (arith, on) in
              let rest =
                λ (later : InList t p
                    (fitting max_size (total + q.serialize_size) (eligible block_time un_tx es))).
                  later-IsKept un_tx es _ s q t p x (
                    fitting_closed block_time max_size (total + q.serialize_size) un_tx es t p later
                      x n) in
              rw (eligible, on, fits)
                (elim (rw (eligible, on, fits) at m) [
                  | inl e ↦ chosen-IsKept un_tx es _ s t q p x here e.0 e.1 n
                  | inr later ↦ rest later
                ])
        ]
      ]

fitting-InTime :
    (block_time max_size total : ℕ) (un_tx : List ℕ) (es : List (ℕ × PooledTx))
    → InTime block_time (fitting max_size total (eligible block_time un_tx es))
unfolding fitting eligible
fitting-InTime block_time max_size total un_tx [] = tt
fitting-InTime block_time max_size total un_tx ((s, q) ∷ es) =
    elim (Bool-cases
      (leb (get_tx_time q.assembled.tx) block_time && not (misses_prev (inputs_of q) un_tx))) [
        | inr out ↦
            rw (eligible, out) (fitting-InTime block_time max_size total (OrdSet.insert s un_tx) es)
        | inl on ↦ elim (Bool-cases (ltb max_size (total + q.serialize_size))) [
          | inl full ↦ rw (eligible, on, full) tt
          | inr fits ↦
              rw (eligible, on, fits)
                (
                  ground (arith, on),
                  fitting-InTime block_time max_size (total + q.serialize_size) un_tx es,
                )
        ]
      ]

-- For sizes whose sums with the limit do not wrap: what ArrangeBlockTx puts into the block are
-- transactions of the pool that are not later than the block, and with each of them every
-- transaction that it spends from and that stands before it in the pool.
pub arrange_block_tx-IsClosed :
    (block_time max_size : ℕ) (v : TxPoolView) (txs : Txs)
    → AreSizes max_size (entries txs v.links)
    → let chosen = selected block_time max_size (entries txs v.links) in
      ((arrange_block_tx block_time max_size v txs).vtx ≡ map tx_of chosen)
      × IsClosed (entries txs v.links) chosen
      × InTime block_time chosen
arrange_block_tx-IsClosed block_time max_size v txs w =
    let es = entries txs v.links in
    (
      (arrange_block_tx-selected block_time max_size v txs w).0,
      λ t p x m n has. (fitting_closed block_time max_size 0 [] es t p m x n).1 has,
      fitting-InTime block_time max_size 0 [] es,
    )
