-- ===== src/TxPool/View.antt =====
-- src/minemon/txpool.h, CTxPoolView: the transactions of a pool in the order of their sequence
-- numbers, and which outputs are spent by which of them. The multi-index is the list of its links
-- in the order of its index by sequence number, equal numbers in the order of insertion; its index
-- by hash keeps the hashes distinct. A pointer into mapTx is the hash that leads to it, so each
-- operation takes mapTx. What is added to a caller's vector is returned.
pub mod Spending
use mathlib.Core.Option
use mamio.Base.{
  ℕ, zero, suc, ◌+◌, Bool, true, false, not, ◌&&◌, ◌||◌, List, [], ◌∷◌, ◌++◌, Option, none, some,
  ltb, leb, ◌==◌, if◌then◌else◌, length, nat_key,
}
use mamio.Base.OrdMap
use mamio.Base.OrdSet
use mamio.Base.Int.{ℤ, negsuc}
use mamio.TxPool.{
  Destination, same_destination, OutPoint, out_key, out_eq, TxOut, null_output, is_null_output,
  get_output, TxUnspent, PooledTx, PooledTxLink, Txs, inputs_of,
}

-- CTxPoolView::CSpent
pub record Spent : Type 0 where
  pub output : TxOut
  pub txid_next_tx : ℕ

abbrev pub spent_by : ℕ → Spent
spent_by txid = record { output = null_output; txid_next_tx = txid }

abbrev pub unspent : TxOut → Spent
unspent output = record { output = output; txid_next_tx = 0 }

abbrev pub has_next : Spent → Bool
has_next s = not (s.txid_next_tx == 0)

pub record TxPoolView : Type 0 where
  pub links : List PooledTxLink
  pub map_spent : List (OutPoint × Spent)
  pub hash_last_block : ℕ
  pub last_block_time : ℕ

-- The members of a new view but the maps have no value; here they are 0.
abbrev pub empty_view : TxPoolView
empty_view = record { links = []; map_spent = []; hash_last_block = 0; last_block_time = 0 }

unfoldable pub count : TxPoolView → ℕ
count v = length v.links

-- find() by the hash.
unfoldable pub find_hash : ℕ → List PooledTxLink → Option PooledTxLink
find_hash txid [] = none
find_hash txid (l ∷ ls) = if l.hash_tx == txid then some l else find_hash txid ls

-- find() by the sequence number.
unfoldable pub find_sequence : ℕ → List PooledTxLink → Option PooledTxLink
find_sequence seq [] = none
find_sequence seq (l ∷ ls) = if l.sequence_number == seq then some l else find_sequence seq ls

unfoldable pub erase_link : ℕ → List PooledTxLink → List PooledTxLink
erase_link txid [] = []
erase_link txid (l ∷ ls) = if l.hash_tx == txid then erase_link txid ls else l ∷ erase_link txid ls

-- The place of a new link: behind the links of its sequence number.
unfoldable pub place_link : PooledTxLink → List PooledTxLink → List PooledTxLink
place_link k [] = k ∷ []
place_link k (l ∷ ls) =
    if ltb k.sequence_number l.sequence_number then k ∷ l ∷ ls else l ∷ place_link k ls

unfoldable pub exists : ℕ → TxPoolView → Bool
exists txid v = elim (find_hash txid v.links) [ none ↦ false | some l ↦ true ]

-- Get(uint256)
unfoldable pub get : ℕ → TxPoolView → Txs → Option PooledTx
get txid v txs = elim (find_hash txid v.links) [ none ↦ none | some l ↦ OrdMap.find l.hash_tx txs ]

-- Get(uint64), with the hash that leads to the transaction.
unfoldable pub get_sequence : ℕ → TxPoolView → Txs → Option (ℕ × PooledTx)
get_sequence seq v txs = elim (find_sequence seq v.links) [
  | none ↦ none
  | some l ↦ Option.map (λ p. (l.hash_tx, p)) (OrdMap.find l.hash_tx txs)
]

unfoldable pub is_spent : OutPoint → TxPoolView → Bool
is_spent out v = elim (OrdMap.find out v.map_spent) [ none ↦ false | some s ↦ has_next s ]

-- The bool that GetUnspent returns, and what it puts in `unspent`, if it does.
unfoldable pub get_unspent : OutPoint → TxPoolView → Bool × Option TxOut
get_unspent out v = elim (OrdMap.find out v.map_spent) [
  | none ↦ (false, none)
  | some s ↦
      if not (has_next s) then (not (is_null_output s.output), some s.output) else (false, none)
]

-- The bool that GetSpent returns, and what it puts in `txidNextTxRet`, if it does.
unfoldable pub get_spent : OutPoint → TxPoolView → Bool × Option ℕ
get_spent out v = elim (OrdMap.find out v.map_spent) [
  | none ↦ (false, none)
  | some s ↦ (has_next s, some s.txid_next_tx)
]

unfoldable pub put_spent : OutPoint → Spent → TxPoolView → TxPoolView
put_spent out s v = record v { map_spent = OrdMap.put out s v.map_spent }

unfoldable pub erase_spent : OutPoint → TxPoolView → TxPoolView
erase_spent out v = record v { map_spent = OrdMap.erase out v.map_spent }

unfoldable pub set_unspent : OutPoint → TxPoolView → Txs → TxPoolView
set_unspent out v txs = elim (get out.hash v txs) [
  | none ↦ erase_spent out v
  | some p ↦ put_spent out (unspent (get_output out.n p.assembled)) v
]

unfoldable pub set_spent : OutPoint → ℕ → TxPoolView → TxPoolView
set_spent out txid v = put_spent out (spent_by txid) v

-- SetUnspent for the inputs of a transaction.
unfoldable pub free_inputs : List OutPoint → TxPoolView → Txs → TxPoolView
free_inputs [] v txs = v
free_inputs (o ∷ os) v txs = free_inputs os (set_unspent o v txs) txs

unfoldable pub erase_tx : ℕ → TxPoolView → TxPoolView
erase_tx txid v = record v { links = erase_link txid v.links }

unfoldable pub remove : ℕ → TxPoolView → Txs → TxPoolView
remove txid v txs = elim (get txid v txs) [
  | none ↦ v
  | some p ↦ erase_tx txid (free_inputs (inputs_of p) v txs)
]

unfoldable pub clear : TxPoolView → TxPoolView
clear v = record v { links = []; map_spent = [] }

unfoldable pub set_last_block : ℕ → ℕ → TxPoolView → TxPoolView
set_last_block hash time v = record v { hash_last_block = hash; last_block_time = time }

-- Whether a set of CTxUnspent, which compares out points, has this one.
unfoldable pub has_point : OutPoint → List TxUnspent → Bool
has_point out [] = false
has_point out (u ∷ us) = out_eq out u.point || has_point out us

-- The entry that ListUnspent adds for what GetUnspent gives: of the destination and not in the set.
unfoldable pub listed :
    Destination → List TxUnspent → OutPoint → Bool × Option TxOut → Option TxUnspent
listed dest taken out (true, some o) =
    if same_destination o.dest_to dest && not (has_point out taken)
    then some (record { point = out; output = o; tx_type = negsuc 0; height = negsuc 0 })
    else none
listed dest taken out _ = none

-- The loop of ListUnspent, with nCount.
unfoldable pub list_loop :
    TxPoolView → Destination → List TxUnspent → ℕ → ℕ → List (OutPoint × Spent) → List TxUnspent
list_loop v dest taken max n [] = []
list_loop v dest taken max n ((out, s) ∷ m) =
    let found = if has_next s then none else listed dest taken out (get_unspent out v) in
    elim (not (max == 0) && leb max n) [
      | true ↦ []
      | false ↦ elim found [
        | none ↦ list_loop v dest taken max n m
        | some u ↦ u ∷ list_loop v dest taken max (n + 1) m
      ]
    ]

unfoldable pub list_unspent : Destination → List TxUnspent → ℕ → TxPoolView → List TxUnspent
list_unspent dest taken max v = list_loop v dest taken max 0 v.map_spent
