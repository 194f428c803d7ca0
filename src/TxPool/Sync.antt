-- ===== src/TxPool/Sync.antt =====
-- src/minemon/txpool.cpp, CTxPool::SynchronizeBlockChain: the pool after the chain of a fork has
-- changed. The fuel is that of the views; `none` is a run that it does not reach the end of, or an
-- update without a new block, whose first block the source reads.
use mathlib.Core.List.{reverse}
use mamio.Base.{
  ℕ, true, false, not, List, [], ◌∷◌, ◌++◌, Option, none, some, ◌==◌, if◌then◌else◌, nat_key,
}
use mamio.Base.OrdMap
use mamio.Base.OrdSet
use mamio.Base.Int.{negsuc}
use mamio.TxPool.{OutPoint, out_point, Transaction, is_mint_tx, PooledTxLink, Txs, inputs_of}
use mamio.TxPool.View.{TxPoolView, empty_view, get_spent, set_spent, set_last_block}
use mamio.TxPool.Arrange.{arrange_block_tx}
use mamio.TxPool.Caches
use mamio.TxPool.Caches.{TxCache, new_cache}
use mamio.TxPool.Calls.{Chain, Errno, ok, TxPool, view_of, with_view, add_new, invalidate_outputs}
use mamio.TxPool.Confirm.{
  BlockTx, Block, ChainUpdate, TxSetChange, Progress, is_zero_amount, max_block_tx_size,
  cache_height_interval, note_update, invalidated, invalidate_inputs, confirm_blocks,
}

-- What GetSpent puts in a variable that was 0.
abbrev pub spender_of : Option ℕ → ℕ
spender_of none = 0
spender_of (some txid) = txid

abbrev pub spend_again : OutPoint → ℕ → TxPoolView → TxPoolView
spend_again out txid v = if not (txid == 0) then set_spent out txid v else v

abbrev pub drop_tx : ℕ → Transaction → Progress → Progress
drop_tx txid tx s = record s { removed = s.removed ++ (txid, tx.inputs) ∷ [] }

-- A transaction of a removed block that the pool does not take back.
unfoldable pub discard_tx : ℕ → ℕ → ℕ → ℕ → Transaction → Progress → Option Progress
discard_tx rounds fuel fork txid tx s =
    elim (invalidate_outputs rounds fuel txid (view_of fork s.pool) s.involved s.pool.map_tx) [
      | none ↦ none
      | some i ↦ some (drop_tx txid tx (invalidated fork i s))
    ]

-- A mint transaction of a removed block: its output 0.
unfoldable pub discard_mint : ℕ → ℕ → ℕ → ℕ → Transaction → Progress → Option Progress
discard_mint rounds fuel fork txid tx s =
    elim (invalidate_inputs rounds fuel fork (out_point txid 0 ∷ []) s) [
      | none ↦ none
      | some t ↦ some (drop_tx txid tx t)
    ]

-- What follows AddNew for a transaction of a removed block.
unfoldable pub returned :
    ℕ → ℕ → ℕ → ℕ → Transaction → ℕ → ℕ → Progress → Errno × TxPool → Option Progress
returned rounds fuel fork txid tx spent0 spent1 s (ok, pool) =
    let v = view_of fork pool in
    let w = spend_again (out_point txid 1) spent1 (spend_again (out_point txid 0) spent0 v) in
    some (record s {
      pool = with_view fork w pool.map_tx pool;
      change = note_update txid (negsuc 0) s.change;
    })
returned rounds fuel fork txid tx spent0 spent1 s (err, pool) =
    discard_tx rounds fuel fork txid tx (record s { pool = pool })

-- A transaction of a removed block.
unfoldable pub return_tx : ℕ → ℕ → Chain → ChainUpdate → Transaction → Progress → Option Progress
return_tx rounds fuel c u tx s =
    let txid = c.hash tx in
    let v = view_of u.hash_fork s.pool in
    let spent0 = spender_of (get_spent (out_point txid 0) v).1 in
    let spent1 = spender_of (get_spent (out_point txid 1) v).1 in
    elim (is_mint_tx tx) [
      | true ↦ discard_mint rounds fuel u.hash_fork txid tx s
      | false ↦ elim (OrdSet.contains txid u.set_tx_update) [
        | true ↦ some s
        | false ↦
            elim (add_new fuel c v txid tx u.hash_fork u.last_block_height u.hash_last_block
              s.pool) [
                | none ↦ none
                | some r ↦ returned rounds fuel u.hash_fork txid tx spent0 spent1 s r
              ]
      ]
    ]

unfoldable pub return_txs : ℕ → ℕ → Chain → ChainUpdate → List BlockTx → Progress → Option Progress
return_txs rounds fuel c u [] s = some s
return_txs rounds fuel c u (b ∷ bs) s = elim (return_tx rounds fuel c u b.tx s) [
  | none ↦ none
  | some t ↦ return_txs rounds fuel c u bs t
]

unfoldable pub return_mint : ℕ → ℕ → Chain → ChainUpdate → Block → Progress → Option Progress
return_mint rounds fuel c u b s = elim (is_zero_amount b.tx_mint.amount) [
  | true ↦ some s
  | false ↦ discard_mint rounds fuel u.hash_fork (c.hash b.tx_mint) b.tx_mint s
]

-- The second loop, over the removed blocks from the last one.
unfoldable pub return_blocks : ℕ → ℕ → Chain → ChainUpdate → List Block → Progress → Option Progress
return_blocks rounds fuel c u [] s = some s
return_blocks rounds fuel c u (b ∷ bs) s = elim (return_txs rounds fuel c u b.vtx s) [
  | none ↦ none
  | some t ↦ elim (return_mint rounds fuel c u b t) [
    | none ↦ none
    | some w ↦ return_blocks rounds fuel c u bs w
  ]
]

-- The loop over the transactions of viewInvolvedTx: what goes to the change, and mapTx.
unfoldable pub remove_involved : List PooledTxLink → Txs → List (ℕ × List OutPoint) × Txs
remove_involved [] txs = ([], txs)
remove_involved (l ∷ ls) txs = elim (OrdMap.find l.hash_tx txs) [
  | none ↦ remove_involved ls txs
  | some p ↦
      let (gone, rest) = remove_involved ls (OrdMap.erase l.hash_tx txs) in
      ((l.hash_tx, inputs_of p) ∷ gone, rest)
]

-- The end: what is arranged for the first new block goes to the cache of the fork.
unfoldable pub arrange_next : ℕ → Block → TxPool → TxPool
arrange_next fork b pool =
    let v = view_of fork pool in
    let arranged = arrange_block_tx b.time max_block_tx_size v pool.map_tx in
    let cache : TxCache = elim (OrdMap.find fork pool.map_tx_cache) [
      | none ↦ new_cache cache_height_interval
      | some old ↦ old
    ] in
    let filled = Caches.add_new b.hash arranged.vtx cache in
    record (with_view fork (set_last_block b.hash b.time v) pool.map_tx pool) {
      map_tx_cache = OrdMap.put fork filled pool.map_tx_cache;
    }

abbrev pub start : ChainUpdate → TxPool → Progress
start u pool = record {
  pool = pool;
  involved = empty_view;
  change = record { hash_fork = u.hash_fork; map_tx_update = []; tx_add_new = []; tx_remove = [] };
  removed = [];
}

-- What follows the two loops.
unfoldable pub finish : ChainUpdate → Progress → Option (TxSetChange × TxPool)
finish u s = elim u.block_add_new [
  | [] ↦ none
  | b ∷ bs ↦
      let (gone, txs) = remove_involved (reverse s.involved.links) s.pool.map_tx in
      some (
        record s.change { tx_remove = gone ++ reverse s.removed },
        arrange_next u.hash_fork b (record s.pool { map_tx = txs }),
      )
]

unfoldable pub synchronize_block_chain :
    ℕ → ℕ → Chain → ChainUpdate → TxPool → Option (TxSetChange × TxPool)
synchronize_block_chain rounds fuel c u pool =
    elim (confirm_blocks rounds fuel c u (reverse u.block_add_new) (start u pool)) [
      | none ↦ none
      | some s ↦ elim (return_blocks rounds fuel c u (reverse u.block_remove) s) [
        | none ↦ none
        | some t ↦ finish u t
      ]
    ]
