-- ===== src/TxPool/Queries.antt =====
-- src/minemon/txpool.cpp, class CTxPool: what the pool tells the wallet, the service and the block
-- maker. Each call holds rwAccess, but for two that the caller's lock protects. What is added to a
-- caller's vector or map is returned.
use mathlib.Core.Option
use mathlib.Core.List.{map}
use mamio.Base.{
  ℕ, ◌+◌, ◌-◌, Bool, true, false, not, ◌&&◌, List, [], ◌∷◌, ◌++◌, Option, none, some, leb, ◌==◌,
  if◌then◌else◌, nat_key,
}
use mamio.Base.OrdMap
use mamio.Base.Int.{ℤ, pos, ◌+ℤ◌, ◌-ℤ◌}
use mamio.TxPool.{
  Destination, no_destination, is_null, same_destination, OutPoint, Transaction, TxOut, null_output,
  is_null_output, TxUnspent, PooledTxLink, Txs,
}
use mamio.TxPool.View.{TxPoolView, is_spent, get_unspent, list_unspent}
use mamio.TxPool.Arrange.{Arranged, arrange_block_tx}
use mamio.TxPool.Caches
use mamio.TxPool.Calls.{Chain, TxPool, view_of, with_view}

-- The loop of ListTx: hashes and serialized sizes.
unfoldable pub list_links : Txs → List PooledTxLink → List (ℕ × ℕ)
list_links txs [] = []
list_links txs (l ∷ ls) = elim (OrdMap.find l.hash_tx txs) [
  | none ↦ list_links txs ls
  | some p ↦ (l.hash_tx, p.serialize_size) ∷ list_links txs ls
]

unfoldable pub list_tx : ℕ → TxPool → List (ℕ × ℕ)
list_tx fork pool = elim (OrdMap.find fork pool.map_pool_view) [
  | none ↦ []
  | some v ↦ list_links pool.map_tx v.links
]

-- ListTx with the hashes only.
unfoldable pub list_hash : ℕ → TxPool → List ℕ
list_hash fork pool = elim (OrdMap.find fork pool.map_pool_view) [
  | none ↦ []
  | some v ↦ map (λ (l : PooledTxLink). l.hash_tx) v.links
]

-- The loop of ListUnspent over what is unspent on the chain, with nCount; `none` is its `return`.
-- The first list is what it took.
unfoldable pub on_chain_loop : TxPoolView → ℕ → ℕ → List TxUnspent → List TxUnspent × Option ℕ
on_chain_loop v max n [] = ([], some n)
on_chain_loop v max n (u ∷ us) = elim (not (max == 0) && leb max n) [
  | true ↦ ([], none)
  | false ↦ elim (is_spent u.point v) [
    | true ↦ on_chain_loop v max n us
    | false ↦ let (taken, rest) = on_chain_loop v max (n + 1) us in (u ∷ taken, rest)
  ]
]

unfoldable pub list_view_unspent : TxPoolView → Destination → ℕ → List TxUnspent → List TxUnspent
list_view_unspent v dest max on_chain =
    let (taken, goes_on) = on_chain_loop v max 0 on_chain in
    elim goes_on [
      | none ↦ taken
      | some n ↦ taken ++ list_unspent dest taken (if not (max == 0) then max - n else max) v
    ]

unfoldable pub list_fork_unspent :
    ℕ → Destination → ℕ → List TxUnspent → TxPool → Option (List TxUnspent)
list_fork_unspent fork dest max on_chain pool = elim (OrdMap.find fork pool.map_pool_view) [
  | none ↦ none
  | some v ↦ some (list_view_unspent v dest max on_chain)
]

unfoldable pub list_fork_unspent_batch :
    ℕ
    → ℕ
    → List (Destination × List TxUnspent)
    → TxPool
    → Option (List (Destination × List TxUnspent))
list_fork_unspent_batch fork max on_chain pool = elim (OrdMap.find fork pool.map_pool_view) [
  | none ↦ none
  | some v ↦
      some (
        map (λ (e : Destination × List TxUnspent). (e.0, list_view_unspent v e.0 max e.1)) on_chain)
]

unfoldable pub total_fee : ℤ → List Transaction → ℤ
total_fee sum [] = sum
total_fee sum (tx ∷ vtx) = total_fee (sum +ℤ tx.tx_fee) vtx

-- ArrangeBlockTx of ITxPool: what was arranged for the children of a block, with the fee.
unfoldable pub arranged_for : ℕ → ℕ → TxPool → Option (List Transaction × ℤ)
arranged_for fork hash_prev pool = elim (OrdMap.find fork pool.map_tx_cache) [
  | none ↦ none
  | some cache ↦ elim (Caches.retrieve hash_prev cache) [
    | none ↦ none
    | some vtx ↦ some (vtx, total_fee (pos 0) vtx)
  ]
]

-- The other ArrangeBlockTx.
unfoldable pub arrange_for : ℕ → ℕ → ℕ → TxPool → Arranged
arrange_for fork block_time max_size pool =
    arrange_block_tx block_time max_size (view_of fork pool) pool.map_tx

-- The first loop of FetchInputs.
unfoldable pub fetch_outputs : List OutPoint → TxPoolView → Option (List TxOut)
fetch_outputs [] v = some []
fetch_outputs (o ∷ os) v =
    let found = (get_unspent o v).1 in
    let output : TxOut = elim found [ none ↦ null_output | some out ↦ out ] in
    if is_spent o v then none else Option.map (λ outs. output ∷ outs) (fetch_outputs os v)

-- The second loop: no output is null, and all go to one destination.
unfoldable pub one_source : Destination → List TxOut → Bool
one_source dest_in [] = true
one_source dest_in (o ∷ outs) =
    if is_null_output o
    then false
    else if is_null dest_in
    then one_source o.dest_to outs
    else if not (same_destination dest_in o.dest_to)
    then false
    else one_source dest_in outs

-- FetchInputs: its bool with vUnspent, where it is true, and the pool, which has a view of the fork.
unfoldable pub fetch_inputs : Chain → ℕ → Transaction → TxPool → Option (List TxOut) × TxPool
fetch_inputs c fork tx pool =
    let v = view_of fork pool in
    let seen = with_view fork v pool.map_tx pool in
    elim (fetch_outputs tx.inputs v) [
      | none ↦ (none, seen)
      | some found ↦ elim (c.get_tx_unspent fork tx.inputs found) [
        | none ↦ (none, seen)
        | some outs ↦ (if one_source no_destination outs then some outs else none, seen)
      ]
    ]

-- The loop of GetDestAmount, with nAmount.
unfoldable pub amount_loop : Destination → ℤ → Txs → ℤ
amount_loop dest sum [] = sum
amount_loop dest sum ((txid, p) ∷ m) =
    let tx = p.assembled.tx in
    if same_destination tx.send_to dest
    then tx.amount
    else if same_destination p.assembled.dest_in dest
    then amount_loop dest (sum -ℤ (tx.amount +ℤ tx.tx_fee)) m
    else amount_loop dest sum m

-- GetDestAmount, and GetDestAmountLock, which holds the lock for it.
unfoldable pub get_dest_amount : Destination → TxPool → ℤ
get_dest_amount dest pool = amount_loop dest (pos 0) pool.map_tx

unfoldable pub none_sent_to : Destination → Txs → Bool
none_sent_to dest [] = true
none_sent_to dest ((txid, p) ∷ m) =
    if same_destination p.assembled.tx.send_to dest then false else none_sent_to dest m

unfoldable pub verify_pledge_tx : Destination → TxPool → Bool
verify_pledge_tx dest pool = none_sent_to dest pool.map_tx
