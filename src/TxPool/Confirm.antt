-- ===== src/TxPool/Confirm.antt =====
-- src/minemon/txpool.cpp, CTxPool::SynchronizeBlockChain: what it works on, and its loop over the
-- new blocks. Hashes of blocks and the heights of blocks are given with the blocks, and so is the
-- sum of what the inputs of a transaction bring in. The fuel is that of the views; `none` is a run
-- that it does not reach the end of.
use mamio.Base.{
  ℕ, Bool, true, false, ◌&&◌, List, [], ◌∷◌, ◌++◌, Option, none, some, ◌-◌, ◌==◌, if◌then◌else◌,
  nat_key,
}
use mamio.Base.OrdMap
use mamio.Base.OrdSet
use mamio.Base.Int.{ℤ, pos, pos_part, neg_part}
use mamio.TxPool.{Destination, no_destination, OutPoint, Transaction, AssembledTx}
use mamio.TxPool.View
use mamio.TxPool.View.{TxPoolView, empty_view, get_spent, set_spent, set_last_block}
use mamio.TxPool.Invalidate.{Invalidation, invalidate_spent}
use mamio.TxPool.Calls.{Chain, TxPool, view_of, with_view}

-- A transaction of a block with its CTxContxt.
pub record BlockTx : Type 0 where
  pub tx : Transaction
  pub dest_in : Destination
  pub value_in : ℤ

-- CBlockEx
pub record Block : Type 0 where
  pub hash : ℕ
  pub height : ℤ
  pub time : ℕ
  pub tx_mint : Transaction
  pub vtx : List BlockTx

-- CBlockChainUpdate
pub record ChainUpdate : Type 0 where
  pub hash_fork : ℕ
  pub hash_last_block : ℕ
  pub last_block_height : ℤ
  pub set_tx_update : List ℕ
  pub block_add_new : List Block
  pub block_remove : List Block

-- CTxSetChange
pub record TxSetChange : Type 0 where
  pub hash_fork : ℕ
  pub map_tx_update : List (ℕ × ℤ)
  pub tx_add_new : List AssembledTx
  pub tx_remove : List (ℕ × List OutPoint)

-- The pool, viewInvolvedTx, the change and vTxRemove.
pub record Progress : Type 0 where
  pub pool : TxPool
  pub involved : TxPoolView
  pub change : TxSetChange
  pub removed : List (ℕ × List OutPoint)

abbrev pub is_zero_amount : ℤ → Bool
is_zero_amount a = pos_part a == 0 && neg_part a == 0

abbrev pub max_block_tx_size : ℕ
max_block_tx_size = 2000000 - 512

abbrev pub cache_height_interval : ℕ
cache_height_interval = 23

-- insert() of mapTxUpdate, which keeps an entry that is there.
unfoldable pub note_update : ℕ → ℤ → TxSetChange → TxSetChange
note_update txid height c = elim (OrdMap.find txid c.map_tx_update) [
  | none ↦ record c { map_tx_update = OrdMap.put txid height c.map_tx_update }
  | some h ↦ c
]

abbrev pub add_tx : AssembledTx → TxSetChange → TxSetChange
add_tx a c = record c { tx_add_new = c.tx_add_new ++ a ∷ [] }

abbrev pub assembled : Transaction → ℤ → Destination → ℤ → AssembledTx
assembled tx height dest_in value = record {
  tx = tx;
  dest_in = dest_in;
  value_in = value;
  block_height = height;
}

-- The pool and viewInvolvedTx after calls of InvalidateSpent.
abbrev pub invalidated : ℕ → Invalidation → Progress → Progress
invalidated fork i s = record s { pool = with_view fork i.view i.txs s.pool; involved = i.involved }

unfoldable pub invalidate_inputs : ℕ → ℕ → ℕ → List OutPoint → Progress → Option Progress
invalidate_inputs rounds fuel fork [] s = some s
invalidate_inputs rounds fuel fork (o ∷ os) s =
    elim (invalidate_spent rounds fuel o (view_of fork s.pool) s.involved s.pool.map_tx) [
      | none ↦ none
      | some i ↦ invalidate_inputs rounds fuel fork os (invalidated fork i s)
    ]

-- A transaction of a new block.
unfoldable pub confirm_tx : ℕ → ℕ → Chain → ChainUpdate → ℤ → BlockTx → Progress → Option Progress
confirm_tx rounds fuel c u height b s =
    let txid = c.hash b.tx in
    let v = view_of u.hash_fork s.pool in
    let added = add_tx (assembled b.tx height b.dest_in b.value_in) in
    elim (OrdSet.contains txid u.set_tx_update) [
      | true ↦ some (record s { change = note_update txid height s.change })
      | false ↦ elim (View.exists txid v) [
        | true ↦
            let left = View.remove txid v s.pool.map_tx in
            some (record s {
              pool = with_view u.hash_fork left (OrdMap.erase txid s.pool.map_tx) s.pool;
              change = note_update txid height s.change;
            })
        | false ↦ elim (invalidate_inputs rounds fuel u.hash_fork b.tx.inputs s) [
          | none ↦ none
          | some t ↦ some (record t { change = added t.change })
        ]
      ]
    ]

unfoldable pub confirm_txs :
    ℕ → ℕ → Chain → ChainUpdate → ℤ → List BlockTx → Progress → Option Progress
confirm_txs rounds fuel c u height [] s = some s
confirm_txs rounds fuel c u height (b ∷ bs) s = elim (confirm_tx rounds fuel c u height b s) [
  | none ↦ none
  | some t ↦ confirm_txs rounds fuel c u height bs t
]

abbrev pub add_mint : Block → Progress → Progress
add_mint b s =
    if is_zero_amount b.tx_mint.amount
    then s
    else record s { change = add_tx (assembled b.tx_mint b.height no_destination (pos 0)) s.change }

-- The first loop, over the new blocks from the last one.
unfoldable pub confirm_blocks :
    ℕ → ℕ → Chain → ChainUpdate → List Block → Progress → Option Progress
confirm_blocks rounds fuel c u [] s = some s
confirm_blocks rounds fuel c u (b ∷ bs) s =
    elim (confirm_txs rounds fuel c u b.height b.vtx (add_mint b s)) [
      | none ↦ none
      | some t ↦ confirm_blocks rounds fuel c u bs t
    ]
