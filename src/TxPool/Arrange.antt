-- ===== src/TxPool/Arrange.antt =====
-- src/minemon/txpool.cpp, CTxPoolView::AddArrangeBlockTx and ArrangeBlockTx: the transactions of a
-- pool that go into a block. Sizes are added in 64 bits, as size_t.
pub mod Selection
pub mod Closed
use mamio.Base.{
  ℕ, ◌+◌, ◌%◌, ◌^◌, Bool, true, false, not, ◌||◌, List, [], ◌∷◌, ◌++◌, none, some, ltb, leb,
  if◌then◌else◌, nat_key,
}
use mamio.Base.OrdMap
use mamio.Base.OrdSet
use mamio.Base.Int.{ℤ, pos, ◌+ℤ◌}
use mamio.TxPool.{OutPoint, Transaction, get_tx_time, PooledTx, PooledTxLink, Txs, inputs_of}
use mamio.TxPool.View.{TxPoolView}

-- vtx, nTotalTxFee, nTotalSize and setUnTx.
pub record Arranged : Type 0 where
  pub vtx : List Transaction
  pub total_tx_fee : ℤ
  pub total_size : ℕ
  pub un_tx : List ℕ

abbrev pub nothing_arranged : Arranged
nothing_arranged = record { vtx = []; total_tx_fee = pos 0; total_size = 0; un_tx = [] }

-- fMissPrev
unfoldable pub misses_prev : List OutPoint → List ℕ → Bool
misses_prev [] un_tx = false
misses_prev (o ∷ os) un_tx = OrdSet.contains o.hash un_tx || misses_prev os un_tx

-- AddArrangeBlockTx: its bool, and the variables that it writes.
unfoldable pub add_arrange_block_tx : ℕ → ℕ → ℕ → PooledTx → Arranged → Bool × Arranged
add_arrange_block_tx block_time max_size txid p a =
    let left_out : Arranged = record a { un_tx = OrdSet.insert txid a.un_tx } in
    let total = (a.total_size + p.serialize_size) % 2 ^ 64 in
    let taken : Arranged = record {
      vtx = a.vtx ++ p.assembled.tx ∷ [];
      total_tx_fee = a.total_tx_fee +ℤ p.assembled.tx.tx_fee;
      total_size = total;
      un_tx = a.un_tx;
    } in
    if leb (get_tx_time p.assembled.tx) block_time
    then (if misses_prev (inputs_of p) a.un_tx
        then (true, left_out)
        else if ltb max_size total
        then (false, a)
        else (true, taken))
    else (true, left_out)

unfoldable pub arrange_loop : ℕ → ℕ → List (ℕ × PooledTx) → Arranged → Arranged
arrange_loop block_time max_size [] a = a
arrange_loop block_time max_size ((txid, p) ∷ es) a =
    let (goes_on, b) = add_arrange_block_tx block_time max_size txid p a in
    elim goes_on [ true ↦ arrange_loop block_time max_size es b | false ↦ b ]

-- The transactions that the links lead to, in the order of their sequence numbers.
unfoldable pub entries : Txs → List PooledTxLink → List (ℕ × PooledTx)
entries txs [] = []
entries txs (l ∷ ls) = elim (OrdMap.find l.hash_tx txs) [
  | none ↦ entries txs ls
  | some p ↦ (l.hash_tx, p) ∷ entries txs ls
]

unfoldable pub arrange_block_tx : ℕ → ℕ → TxPoolView → Txs → Arranged
arrange_block_tx block_time max_size v txs =
    arrange_loop block_time max_size (entries txs v.links) nothing_arranged
