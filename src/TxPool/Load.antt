-- ===== src/TxPool/Load.antt =====
-- src/minemon/txpool.cpp, CTxPool::LoadData: the pool from what its data file holds. The file and
-- the status of the forks are arguments; the fuel is that of the views.
use mamio.Base.{ℕ, Bool, true, false, List, [], ◌∷◌, Option, none, some, nat_key}
use mamio.Base.OrdMap
use mamio.TxPool.{AssembledTx, PooledTx}
use mamio.TxPool.View.{set_last_block}
use mamio.TxPool.Index
use mamio.TxPool.Arrange.{arrange_block_tx}
use mamio.TxPool.Caches
use mamio.TxPool.Caches.{TxCache, new_cache}
use mamio.TxPool.Calls.{Chain, TxPool, view_of, with_view, get_sequence_number, insert_tx}
use mamio.TxPool.Confirm.{cache_height_interval}

-- An entry of the file: a fork, the hash of a transaction and the transaction.
pub record Stored : Type 0 where
  pub hash_fork : ℕ
  pub txid : ℕ
  pub tx : AssembledTx

abbrev pub max_block_size : ℕ
max_block_size = 2000000

-- The first loop. AddNew may fail: its result is not read.
unfoldable pub load_txs : ℕ → Chain → List Stored → TxPool → Option TxPool
load_txs fuel c [] pool = some pool
load_txs fuel c (e ∷ es) pool =
    let (sequence, last) = get_sequence_number pool in
    let p : PooledTx = record {
      assembled = e.tx;
      sequence_number = sequence;
      serialize_size = c.serialize_size e.tx.tx;
      next_sequence_number = 0;
    } in
    let txs = insert_tx e.txid p pool.map_tx in
    elim (Index.add_new fuel e.txid (view_of e.hash_fork pool) txs) [
      | none ↦ none
      | some r ↦
          load_txs fuel c es
            (with_view e.hash_fork r.view r.txs (record pool { last_sequence_number = last }))
    ]

-- A fork with its last block, whose hash and time the chain gives: the cache of the fork, made if
-- there is none.
unfoldable pub load_fork : ℕ → ℕ → ℕ → TxPool → TxPool
load_fork fork hash time pool =
    let v = view_of fork pool in
    let arranged = arrange_block_tx time max_block_size v pool.map_tx in
    let cache : TxCache = elim (OrdMap.find fork pool.map_tx_cache) [
      | none ↦ new_cache cache_height_interval
      | some old ↦ old
    ] in
    record (with_view fork (set_last_block hash time v) pool.map_tx pool) {
      map_tx_cache = OrdMap.put fork (Caches.add_new hash arranged.vtx cache) pool.map_tx_cache;
    }

-- The second loop, over the forks of GetForkStatus and what GetLastBlock gives for each: none ends
-- LoadData with false, and leaves the cache of that fork empty.
unfoldable pub load_forks : List (ℕ × Option (ℕ × ℕ)) → TxPool → Bool × TxPool
load_forks [] pool = (true, pool)
load_forks ((fork, none) ∷ es) pool = elim (OrdMap.find fork pool.map_tx_cache) [
  | none ↦ (
    false,
    record pool {
      map_tx_cache = OrdMap.put fork (new_cache cache_height_interval) pool.map_tx_cache;
    },
  )
  | some old ↦ (false, pool)
]
load_forks ((fork, some block) ∷ es) pool = load_forks es (load_fork fork block.0 block.1 pool)

-- LoadData, for a file that could be read.
unfoldable pub load_data :
    ℕ → Chain → List Stored → List (ℕ × Option (ℕ × ℕ)) → TxPool → Option (Bool × TxPool)
load_data fuel c stored forks pool = elim (load_txs fuel c stored pool) [
  | none ↦ none
  | some loaded ↦ some (load_forks forks loaded)
]
