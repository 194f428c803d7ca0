-- ===== src/TxPool/Index.antt =====
-- src/minemon/txpool.cpp, CTxPoolView::AddTxIndex and AddNew. A transaction that others of the pool
-- spend from gets a sequence number below theirs, from the block of 2 ^ 24 numbers that ends with
-- its root. Sequence numbers are 64-bit. The loop of AddNew over `vPrevTxid` runs on fuel; a result
-- of `none` is a run that the fuel did not reach to the end of.
pub mod Effect
pub mod Added
pub mod Ends
use mathlib.Core.Option
use mathlib.Core.List.{map}
use mamio.Base.{
  ℕ, zero, suc, ◌+◌, ◌-◌, ◌*◌, ◌/◌, ◌%◌, ◌^◌, Bool, true, false, not, List, [], ◌∷◌, ◌++◌, Option,
  none, some, ltb, ◌==◌, if◌then◌else◌, nat_key,
}
use mamio.Base.OrdMap
use mamio.TxPool.{
  OutPoint, out_point, TxOut, is_null_output, get_output, PooledTx, PooledTxLink, Txs, inputs_of,
}
use mamio.TxPool.View.{
  TxPoolView, unspent, get, get_sequence, get_spent, erase_tx, find_hash, place_link, set_spent,
  put_spent, find_sequence,
}

-- What a call of AddTxIndex or AddNew leaves: its bool, the view and mapTx.
pub record Outcome : Type 0 where
  pub success : Bool
  pub view : TxPoolView
  pub txs : Txs

abbrev pub outcome : Bool → TxPoolView → Txs → Outcome
outcome b v txs = record { success = b; view = v; txs = txs }

abbrev pub block_size : ℕ
block_size = 2 ^ 24

-- n - 1 in 64 bits.
abbrev pub before : ℕ → ℕ
before n = (n + 2 ^ 64 - 1) % 2 ^ 64

-- pMinNextPooledTx, with the hash that leads to it.
abbrev pub earlier : ℕ → PooledTx → Option (ℕ × PooledTx) → ℕ × PooledTx
earlier txid p none = (txid, p)
earlier txid p (some (least, q)) =
    if ltb p.sequence_number q.sequence_number then (txid, p) else (least, q)

unfoldable pub next_least :
    TxPoolView → Txs → Option (ℕ × PooledTx) → Bool × Option ℕ → Option (Option (ℕ × PooledTx))
next_least v txs least (true, some next) = elim (get next v txs) [
  | none ↦ none
  | some p ↦ some (some (earlier next p least))
]
next_least v txs least _ = some least

-- A round of the first loop; `none` is its `return false`.
unfoldable pub next_round :
    OutPoint → TxPoolView → Txs → Option (ℕ × PooledTx) → Option (Option (ℕ × PooledTx))
next_round out v txs least = next_least v txs least (get_spent out v)

unfoldable pub min_next : ℕ → TxPoolView → Txs → Option (Option (ℕ × PooledTx))
min_next txid v txs = elim (next_round (out_point txid 0) v txs none) [
  | none ↦ none
  | some least ↦ next_round (out_point txid 1) v txs least
]

-- pRootPooledTx, with the hash that leads to it.
unfoldable pub root_of : ℕ → PooledTx → TxPoolView → Txs → Option (ℕ × PooledTx)
root_of txid p v txs =
    if not (p.sequence_number % block_size == 0)
    then get_sequence ((p.sequence_number / block_size + 1) * block_size % 2 ^ 64) v txs
    else some (txid, p)

-- The number that a root hands out.
abbrev pub handed_out : PooledTx → ℕ
handed_out q =
    if q.next_sequence_number == 0 then before q.sequence_number else q.next_sequence_number

unfoldable pub set_next_sequence : ℕ → ℕ → Txs → Txs
set_next_sequence txid seq txs = elim (OrdMap.find txid txs) [
  | none ↦ txs
  | some p ↦ OrdMap.put txid (record p { next_sequence_number = seq }) txs
]

unfoldable pub set_sequence : ℕ → ℕ → Txs → Txs
set_sequence txid seq txs = elim (OrdMap.find txid txs) [
  | none ↦ txs
  | some p ↦ OrdMap.put txid (record p { sequence_number = seq }) txs
]

abbrev pub is_free : ℕ → TxPoolView → Bool
is_free seq v = elim (find_sequence seq v.links) [ none ↦ true | some l ↦ false ]

-- The while loop from the number `low` of a block down; `none` is that there is no idle one.
unfoldable pub find_idle : TxPoolView → ℕ → ℕ → Option ℕ
find_idle v block zero = none
find_idle v block (suc low) = elim (is_free (block * block_size + suc low) v) [
  | true ↦ some (block * block_size + suc low)
  | false ↦ find_idle v block low
]

abbrev pub idle_below : TxPoolView → ℕ → Option ℕ
idle_below v seq = find_idle v (before seq / block_size) (before seq % block_size)

-- The choice of the sequence number: its bool, and mapTx with the numbers that were written.
unfoldable pub number_tx : ℕ → TxPoolView → Txs → Option (ℕ × PooledTx) → Bool × Txs
number_tx txid v txs none = elim (OrdMap.find txid txs) [
  | none ↦ (false, txs)
  | some tx ↦ (is_free tx.sequence_number v, txs)
]
number_tx txid v txs (some (least, p)) = elim (root_of least p v txs) [
  | some (root, q) ↦ (
    is_free (handed_out q) v,
    set_sequence txid (handed_out q) (set_next_sequence root (before (handed_out q)) txs),
  )
  | none ↦ elim (idle_below v p.sequence_number) [
    | none ↦ (false, txs)
    | some idle ↦ (true, set_sequence txid idle txs)
  ]
]

abbrev pub link_of : ℕ → PooledTx → PooledTxLink
link_of txid p = record {
  hash_tx = txid;
  sequence_number = p.sequence_number;
  tx_type = p.assembled.tx.tx_type;
}

-- setTxLinkIndex.insert
unfoldable pub insert_link : ℕ → TxPoolView → Txs → Outcome
insert_link txid v txs = elim (OrdMap.find txid txs) [
  | none ↦ outcome false v txs
  | some p ↦ elim (find_hash txid v.links) [
    | some l ↦ outcome false v txs
    | none ↦ outcome true (record v { links = place_link (link_of txid p) v.links }) txs
  ]
]

-- AddTxIndex(txid, tx), where tx is the entry of mapTx under txid.
unfoldable pub add_tx_index : ℕ → TxPoolView → Txs → Outcome
add_tx_index txid view txs =
    let v = erase_tx txid view in
    elim (min_next txid v txs) [
      | none ↦ outcome false v txs
      | some least ↦
          let (numbered, txs') = number_tx txid v txs least in
          if numbered then insert_link txid v txs' else outcome false v txs'
    ]

unfoldable pub spend_inputs : List OutPoint → ℕ → TxPoolView → TxPoolView
spend_inputs [] txid v = v
spend_inputs (o ∷ os) txid v = spend_inputs os txid (set_spent o txid v)

unfoldable pub add_output : ℕ → ℕ → PooledTx → TxPoolView → TxPoolView
add_output n txid p v =
    let output = get_output n p.assembled in
    if not (is_null_output output) then put_spent (out_point txid n) (unspent output) v else v

-- What AddNew does to mapSpent.
abbrev pub enter : ℕ → PooledTx → TxPoolView → TxPoolView
enter txid p v = add_output 1 txid p (add_output 0 txid p (spend_inputs (inputs_of p) txid v))

-- The previous transactions of one, each with the number that it has to be below.
abbrev pub previous : PooledTx → List (ℕ × ℕ)
previous p = map (λ (o : OutPoint). (o.hash, p.sequence_number)) (inputs_of p)

abbrev pub previous_at : ℕ → Txs → List (ℕ × ℕ)
previous_at txid txs = elim (OrdMap.find txid txs) [ none ↦ [] | some p ↦ previous p ]

-- The loop over vPrevTxid.
unfoldable pub previous_loop : ℕ → List (ℕ × ℕ) → TxPoolView → Txs → Option Outcome
previous_loop fuel [] v txs = some (outcome true v txs)
previous_loop zero (e ∷ pending) v txs = none
previous_loop (suc fuel) ((txid, seq) ∷ pending) v txs = elim (get txid v txs) [
  | none ↦ previous_loop fuel pending v txs
  | some p ↦ elim (ltb seq p.sequence_number) [
    | false ↦ previous_loop fuel pending v txs
    | true ↦
        let r = add_tx_index txid v txs in
        elim r.success [
          | false ↦ some r
          | true ↦ previous_loop fuel (pending ++ previous_at txid r.txs) r.view r.txs
        ]
  ]
]

unfoldable pub add_new : ℕ → ℕ → TxPoolView → Txs → Option Outcome
add_new fuel txid view txs =
    let r = add_tx_index txid view txs in
    elim r.success [
      | false ↦ some r
      | true ↦ elim (OrdMap.find txid r.txs) [
        | none ↦ some r
        | some p ↦ previous_loop fuel (previous p) (enter txid p r.view) r.txs
      ]
    ]
