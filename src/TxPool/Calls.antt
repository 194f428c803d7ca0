-- ===== src/TxPool/Calls.antt =====
-- src/minemon/txpool.h and txpool.cpp, class CTxPool. Each method that the other modules call holds
-- rwAccess throughout, so a call is one step. The block chain and the core protocol are an interface,
-- the record Chain. The fuel of the views is an argument, and `none` is a run that it does not reach
-- the end of. Sums of amounts are within the range of int64.
pub mod Push
pub mod Pop
use mathlib.Core.Option
use mathlib.Core.List.{map}
use mamio.Base.{
  ℕ, zero, suc, ◌+◌, ◌*◌, ◌%◌, ◌^◌, Bool, true, false, not, ◌&&◌, List, [], ◌∷◌, ◌++◌, Option, none,
  some, ltb, leb, ◌==◌, if◌then◌else◌, nat_key,
}
use mamio.Base.OrdMap
use mamio.Base.Int.{ℤ, pos, negsuc, ◌+ℤ◌, ◌-ℤ◌}
use mamio.TxPool.{
  Destination, no_destination, is_null, same_destination, OutPoint, out_point, Transaction,
  is_mint_tx, TxOut, null_output, is_null_output, TxUnspent, PooledTx, PooledTxLink, Txs, inputs_of,
}
use mamio.TxPool.View
use mamio.TxPool.View.{TxPoolView, empty_view, is_spent, get_unspent}
use mamio.TxPool.Index
use mamio.TxPool.Invalidate.{invalidate_spent, Invalidation}
use mamio.TxPool.Caches
use mamio.TxPool.Caches.{TxCache}

-- The Errno values of the pool; `err_verify` is any other that VerifyTransaction gives.
pub data Errno : Type 0 where
  ok err_not_found err_already_have err_sys_storage_error : Errno
  err_transaction_invalid err_transaction_conflicting_input : Errno
  err_verify : ℕ → Errno

-- CryptoHash and the serialized size of a transaction; what the pool asks of IBlockChain and
-- ICoreProtocol. A look-up that fails is `none`; get_tx_unspent fills in the outputs that it finds.
pub record Chain : Type 0 where
  pub hash : Transaction → ℕ
  pub serialize_size : Transaction → ℕ
  pub genesis_block_hash : ℕ
  pub get_block_location : ℕ → Option (ℕ × ℤ)
  pub get_last_block : ℕ → Option (ℕ × ℤ)
  pub get_tx_unspent : ℕ → List OutPoint → List TxOut → Option (List TxOut)
  pub verify_transaction : Transaction → List TxOut → ℤ → ℕ → ℕ → Errno

pub record TxPool : Type 0 where
  pub map_pool_view : List (ℕ × TxPoolView)
  pub map_tx : Txs
  pub last_sequence_number : ℕ
  pub map_tx_cache : List (ℕ × TxCache)

-- mapPoolView[hashFork], which adds an empty view where there is none.
abbrev pub view_of : ℕ → TxPool → TxPoolView
view_of fork pool = elim (OrdMap.find fork pool.map_pool_view) [ none ↦ empty_view | some v ↦ v ]

abbrev pub with_view : ℕ → TxPoolView → Txs → TxPool → TxPool
with_view fork v txs pool = record pool {
  map_pool_view = OrdMap.put fork v pool.map_pool_view;
  map_tx = txs;
}

unfoldable pub exists : ℕ → TxPool → Bool
exists txid pool = elim (OrdMap.find txid pool.map_tx) [ none ↦ false | some p ↦ true ]

unfoldable pub clear : TxPool → TxPool
clear pool = record pool { map_pool_view = []; map_tx = [] }

unfoldable pub count : ℕ → TxPool → ℕ
count fork pool = elim (OrdMap.find fork pool.map_pool_view) [ none ↦ 0 | some v ↦ View.count v ]

-- Both methods called Get: they copy as much of the entry as the caller's type holds.
unfoldable pub get : ℕ → TxPool → Option PooledTx
get txid pool = OrdMap.find txid pool.map_tx

-- GetSequenceNumber: the number, and nLastSequenceNumber.
unfoldable pub get_sequence_number : TxPool → ℕ × ℕ
get_sequence_number pool =
    let last : ℕ = elim pool.map_tx [ [] ↦ 0 | e ∷ m ↦ pool.last_sequence_number ] in
    ((last + 1) % 2 ^ 64 * 2 ^ 24 % 2 ^ 64, (last + 1) % 2 ^ 64)

-- The loop of AddNew over the inputs; `none` is an input that is spent.
unfoldable pub prev_outputs : List OutPoint → TxPoolView → Option (List TxOut)
prev_outputs [] v = some []
prev_outputs (o ∷ os) v =
    let found = (get_unspent o v).1 in
    let output : TxOut = elim found [ none ↦ null_output | some out ↦ out ] in
    if is_spent o v then none else Option.map (λ outs. output ∷ outs) (prev_outputs os v)

-- The loop that adds up nValueIn; `none` is a null output.
unfoldable pub value_in : ℤ → List TxOut → Option ℤ
value_in sum [] = some sum
value_in sum (o ∷ outs) = if is_null_output o then none else value_in (sum +ℤ o.amount) outs

-- destTo of the first output; there is one where it is read.
abbrev pub first_destination : List TxOut → Destination
first_destination [] = no_destination
first_destination (o ∷ outs) = o.dest_to

-- mapTx.insert, which keeps an entry that is there.
unfoldable pub insert_tx : ℕ → PooledTx → Txs → Txs
insert_tx txid p txs = elim (OrdMap.find txid txs) [ none ↦ OrdMap.put txid p txs | some q ↦ txs ]

abbrev pub pooled_tx : Chain → Transaction → ℤ → ℕ → Destination → ℤ → PooledTx
pooled_tx c tx height sequence dest_in value = record {
  assembled = record { tx = tx; dest_in = dest_in; value_in = value; block_height = height };
  sequence_number = sequence;
  serialize_size = c.serialize_size tx;
  next_sequence_number = 0;
}

-- The checks of AddNew: an error, or what the inputs bring in.
unfoldable pub check_new : Chain → TxPoolView → Transaction → ℕ → ℤ → ℕ → Errno × Destination × ℤ
check_new c v tx fork height last = elim (prev_outputs tx.inputs v) [
  | none ↦ (err_transaction_conflicting_input, no_destination, pos 0)
  | some found ↦ elim (c.get_tx_unspent fork tx.inputs found) [
    | none ↦ (err_sys_storage_error, no_destination, pos 0)
    | some outs ↦ elim (value_in (pos 0) outs) [
      | none ↦ (err_transaction_conflicting_input, no_destination, pos 0)
      | some sum ↦ (c.verify_transaction tx outs height last fork, first_destination outs, sum)
    ]
  ]
]

-- What follows the checks of AddNew.
unfoldable pub admit :
    ℕ
    → Chain
    → TxPoolView
    → ℕ
    → Transaction
    → ℕ
    → TxPool
    → Errno × Destination × ℤ
    → Option (Errno × TxPool)
admit fuel c v txid tx fork pool (ok, dest_in, sum) =
    let (sequence, last) = get_sequence_number pool in
    let txs = insert_tx txid (pooled_tx c tx (negsuc 0) sequence dest_in sum) pool.map_tx in
    elim (Index.add_new fuel txid v txs) [
      | none ↦ none
      | some r ↦ some (
        if r.success then ok else err_not_found,
        with_view fork r.view r.txs (record pool { last_sequence_number = last }),
      )
    ]
admit fuel c v txid tx fork pool (err, dest_in, sum) = some (err, with_view fork v pool.map_tx pool)

-- CTxPool::AddNew for the view of a fork, with the view put back: its Errno and the pool.
unfoldable pub add_new :
    ℕ → Chain → TxPoolView → ℕ → Transaction → ℕ → ℤ → ℕ → TxPool → Option (Errno × TxPool)
add_new fuel c v txid tx fork height last pool =
    admit fuel c v txid tx fork pool (check_new c v tx fork height last)

-- What follows AddNew in Push: the entry is read again.
unfoldable pub found_again : ℕ → ℕ → Errno × TxPool → Errno × TxPool
found_again txid fork (ok, pool) = elim (View.get txid (view_of fork pool) pool.map_tx) [
  | none ↦ (err_not_found, pool)
  | some p ↦ (ok, pool)
]
found_again txid fork r = r

-- Push: its Errno, and the pool. The caller's hashFork, destIn and nValueIn are those of the entry.
unfoldable pub push : ℕ → Chain → Transaction → TxPool → Option (Errno × TxPool)
push fuel c tx pool =
    let txid = c.hash tx in
    if exists txid pool
    then some (err_already_have, pool)
    else if is_mint_tx tx
    then some (err_transaction_invalid, pool)
    else elim (c.get_block_location c.genesis_block_hash) [
      | none ↦ some (err_transaction_invalid, pool)
      | some location ↦ elim (c.get_last_block location.0) [
        | none ↦ some (err_transaction_invalid, pool)
        | some block ↦
            Option.map (found_again txid location.0)
              (add_new fuel c (view_of location.0 pool) txid tx location.0 block.1 block.0 pool)
      ]
    ]

unfoldable pub erase_txs : List PooledTxLink → Txs → Txs
erase_txs [] txs = txs
erase_txs (l ∷ ls) txs = erase_txs ls (OrdMap.erase l.hash_tx txs)

-- InvalidateSpent for both outputs of a transaction.
unfoldable pub invalidate_outputs : ℕ → ℕ → ℕ → TxPoolView → TxPoolView → Txs → Option Invalidation
invalidate_outputs rounds fuel txid v involved txs =
    elim (invalidate_spent rounds fuel (out_point txid 0) v involved txs) [
      | none ↦ none
      | some i ↦ invalidate_spent rounds fuel (out_point txid 1) i.view i.involved i.txs
    ]

-- RemoveTx, and Pop, which only calls it.
unfoldable pub remove_tx : ℕ → ℕ → Chain → ℕ → TxPool → Option TxPool
remove_tx rounds fuel c txid pool = elim (OrdMap.find txid pool.map_tx) [
  | none ↦ some pool
  | some p ↦ elim (c.get_block_location c.genesis_block_hash) [
    | none ↦ some pool
    | some location ↦
        let v = View.remove txid (view_of location.0 pool) pool.map_tx in
        elim (invalidate_outputs rounds fuel txid v empty_view pool.map_tx) [
          | none ↦ none
          | some i ↦ some (with_view location.0 i.view (erase_txs i.involved.links i.txs) pool)
        ]
  ]
]
