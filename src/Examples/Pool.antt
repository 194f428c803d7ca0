-- ===== src/Examples/Pool.antt =====
-- src/minemon/txpool.h and txpool.cpp on a pool of a few transactions. The hash of a transaction is
-- its time stamp.
use mamio.Base.{
  ℕ, ◌+◌, ◌*◌, ◌≤◌, ◌≡◌, refl, true, false, not, ◌&&◌, List, [], ◌∷◌, map, Option, none, some, ltb,
  leb, ◌==◌, arith, nat_key, if◌then◌else◌, inl, inr, Bool-cases, ==_iff, subst, ◌^◌,
}
use mamio.Base.Int.{pos, negsuc, ◌+ℤ◌, ◌-ℤ◌}
use mamio.Base.OrdMap
use mamio.TxPool.{
  Destination, OutPoint, out_point, Transaction, TxOut, PooledTx, Txs, is_null_output, get_output,
  get_lock_until, get_change,
}
use mamio.TxPool.View
use mamio.TxPool.View.{
  TxPoolView, empty_view, is_spent, get_spent, find_hash, find_sequence, erase_link, erase_tx,
  place_link, count, get_unspent, put_spent, set_spent, get_sequence,
}
use mamio.TxPool.View.Spending.{is_input, remove_frees}
use mamio.TxPool.Index
use mamio.TxPool.Index.Effect.{assembled_at}
use mamio.TxPool.Index.Ends.{IsWeight, IsBelow}
use mamio.TxPool.Invalidate.{Invalidation, invalidate_spent}
use mamio.TxPool.Invalidate.Ends.{invalidate_spent-ends}
use mamio.TxPool.Arrange.{nothing_arranged, arrange_block_tx, entries}
use mamio.TxPool.Arrange.Selection.{AreSizes, IsTaken, tx_of, selected, arrange_block_tx-selected}
use mamio.TxPool.Arrange.Closed.{IsClosed, InTime, arrange_block_tx-IsClosed}
use mamio.TxPool.Caches
use mamio.TxPool.Caches.{TxCache, height_of, highest}
use mamio.TxPool.Caches.Window.{retrieve-add_new_window}
use mamio.TxPool.Calls
use mamio.TxPool.Calls.{
  Errno, ok, err_already_have, Chain, TxPool, view_of, remove_tx, push, admit, check_new, value_in,
  prev_outputs, insert_tx, get_sequence_number, found_again,
}
use mamio.TxPool.Calls.Push.{push-spends}
use mamio.TxPool.Calls.Pop.{remove_tx-push}

abbrev alice : Destination
alice = record { prefix = 1; content = 7 }

abbrev plain_tx : ℕ → List OutPoint → ℕ → Transaction
plain_tx stamp inputs amount = record {
  version = 2;
  tx_type = 0;
  time_stamp = stamp;
  lock_until = 0;
  inputs = inputs;
  send_to = alice;
  amount = pos amount;
  tx_fee = pos 1;
  content = [];
  signature = [];
}

-- It spends an output of the chain.
abbrev tx_one : Transaction
tx_one = plain_tx 11 (out_point 5 0 ∷ []) 60

-- It spends from the first.
abbrev tx_two : Transaction
tx_two = plain_tx 12 (out_point 11 0 ∷ []) 50

abbrev coin_out : TxOut
coin_out = record { dest_to = alice; amount = pos 100; tx_time = 1; lock_until = 0 }

abbrev chain : Chain
chain = record {
  hash = λ tx. tx.time_stamp;
  serialize_size = λ tx. 200;
  genesis_block_hash = 1;
  get_block_location = λ h. some (1, pos 0);
  get_last_block = λ h. some (9, pos 5);
  get_tx_unspent =
      λ fork inputs outs. some (map (λ (o : TxOut). if is_null_output o then coin_out else o) outs);
  verify_transaction = λ tx outs height last fork. ok;
}

abbrev empty_pool : TxPool
empty_pool = record { map_pool_view = []; map_tx = []; last_sequence_number = 0; map_tx_cache = [] }

abbrev pool_of : Option (Errno × TxPool) → TxPool
pool_of none = empty_pool
pool_of (some (e, pool)) = pool

abbrev pool_one : TxPool
pool_one = pool_of (push 3 chain tx_one empty_pool)

abbrev pool_two : TxPool
pool_two = pool_of (push 3 chain tx_two pool_one)

abbrev entry : Transaction → ℕ → ℕ → PooledTx
entry tx value sequence = record {
  assembled = record { tx = tx; dest_in = alice; value_in = pos value; block_height = negsuc 0 };
  sequence_number = sequence * 16777216;
  serialize_size = 200;
  next_sequence_number = 0;
}

abbrev weights : ℕ → ℕ
weights x = if x == 11 then 1 else if x == 12 then 2 else 0

pushed_test : push 3 chain tx_two pool_one ≡ some (ok, pool_two)
unfolding push Calls.exists Calls.add_new admit check_new prev_outputs value_in get_sequence_number
    insert_tx found_again Index.add_new Index.add_tx_index Index.previous_loop Index.min_next
    Index.next_round Index.next_least Index.number_tx Index.insert_link Index.spend_inputs
    Index.add_output get_output get_lock_until get_change View.get get_spent get_unspent is_spent
    find_hash find_sequence erase_link erase_tx place_link put_spent set_spent OrdMap.find
    OrdMap.put ◌+ℤ◌ ◌-ℤ◌
pushed_test = refl

push-spends_example :
    (is_input (out_point 11 0) tx_two.inputs && is_spent (out_point 11 0) (view_of 1 pool_one)
      ≡ false)
    × (get_spent (out_point 11 0) (view_of 1 pool_two) ≡ (
        if is_input (out_point 11 0) tx_two.inputs
        then (true, some 12)
        else get_spent (out_point 11 0) (view_of 1 pool_one)))
    × (View.exists 12 (view_of 1 pool_two) ≡ true)
push-spends_example =
    push-spends 3 chain tx_two pool_one pool_two (1, pos 0) (out_point 11 0) refl pushed_test
      (ground arith) (ground arith)

-- The pool of both transactions, written out.
abbrev both_txs : Txs
both_txs = (11, entry tx_one 100 1) ∷ (12, entry tx_two 60 2) ∷ []

abbrev both_view : TxPoolView
both_view = record {
  links = Index.link_of 11 (entry tx_one 100 1) ∷ Index.link_of 12 (entry tx_two 60 2) ∷ [];
  map_spent =
      (out_point 5 0, View.spent_by 11)
      ∷ (out_point 11 0, View.spent_by 12)
      ∷ (out_point 12 0, View.unspent coin_out)
      ∷ [];
  hash_last_block = 9;
  last_block_time = 20;
}

abbrev both : TxPool
both = record {
  map_pool_view = (1, both_view) ∷ [];
  map_tx = both_txs;
  last_sequence_number = 2;
  map_tx_cache = [];
}

both_IsBelow : (x : ℕ) → IsBelow weights (weights x) (assembled_at x both_txs)
unfolding OrdMap.find
both_IsBelow x = elim (Bool-cases (11 == x)) [
  | inl one ↦
      subst (λ y. IsBelow weights (weights y) (assembled_at y both_txs)) ((==_iff 11 x).0 one)
        (omega arith)
  | inr other ↦ elim (Bool-cases (12 == x)) [
    | inl two ↦
        subst (λ y. IsBelow weights (weights y) (assembled_at y both_txs)) ((==_iff 12 x).0 two)
          (omega arith)
    | inr new ↦ rw (other, new) tt
  ]
]

both_IsWeight : IsWeight weights 2 both_txs
both_IsWeight = record { below = both_IsBelow; bounded = λ x. ground arith }

one_found : OrdMap.find 11 both.map_tx ≡ some (entry tx_one 100 1)
unfolding OrdMap.find
one_found = refl

both_view_of : view_of 1 both ≡ both_view
unfolding OrdMap.find
both_view_of = refl

both_fuel : 1 + 2 * count (view_of 1 both) ≤ 5
unfolding count OrdMap.find
both_fuel = omega arith

-- The first transaction is popped, with the second, which spends from it, and is then refused.
remove_tx-push_example :
    (new : TxPool) × (remove_tx 5 2 chain 11 both ≡ some new)
    × (View.exists 11 (view_of 1 new) ≡ false)
    × (push 3 chain tx_one new ≡ some (err_already_have, new))
remove_tx-push_example =
    remove_tx-push weights 5 2 3 chain tx_one both (1, pos 0) (entry tx_one 100 1) refl one_found
      both_IsWeight both_fuel

invalidate_spent-ends_example :
    (i : Invalidation) × (invalidate_spent 5 2 (out_point 5 0) both_view empty_view both_txs
      ≡ some i)
    × IsWeight weights 2 i.txs
    × (count i.view ≤ count both_view)
unfolding count
invalidate_spent-ends_example =
    invalidate_spent-ends weights 5 2 (out_point 5 0) both_view empty_view both_txs both_IsWeight
      (omega arith)

two_found : View.get 12 both_view both_txs ≡ some (entry tx_two 60 2)
unfolding View.get find_hash OrdMap.find
two_found = refl

remove_frees_example :
    (View.exists 12 (View.remove 12 both_view both_txs) ≡ false)
    × (is_spent (out_point 11 0) (View.remove 12 both_view both_txs)
        ≡ (not (is_input (out_point 11 0) tx_two.inputs) && is_spent (out_point 11 0) both_view))
remove_frees_example =
    remove_frees 12 both_view both_txs (entry tx_two 60 2) (out_point 11 0) two_found

both_AreSizes : AreSizes 300 (entries both_txs both_view.links)
unfolding entries OrdMap.find
both_AreSizes = (omega arith, (omega arith, tt))

-- With room for one of them, the one that the other spends from is taken.
arrange_block_tx-selected_example :
    IsTaken 300 nothing_arranged
      (selected 30 300 (entries both_txs both_view.links))
      (arrange_block_tx 30 300 both_view both_txs)
arrange_block_tx-selected_example =
    arrange_block_tx-selected 30 300 both_view both_txs both_AreSizes

arrange_block_tx-IsClosed_example :
    let chosen = selected 30 300 (entries both_txs both_view.links) in
    ((arrange_block_tx 30 300 both_view both_txs).vtx ≡ map tx_of chosen)
    × IsClosed (entries both_txs both_view.links) chosen
    × InTime 30 chosen
arrange_block_tx-IsClosed_example =
    arrange_block_tx-IsClosed 30 300 both_view both_txs both_AreSizes

-- A cache of two heights with the blocks of the heights 3 and 4, and a new one of the height 5.
abbrev two_heights : TxCache
two_heights = record {
  height_interval = 2;
  map_cache = (3 * 2 ^ 224, []) ∷ (4 * 2 ^ 224, tx_one ∷ []) ∷ [];
}

retrieve-add_new_window_example :
    let upper =
      height_of (highest (5 * 2 ^ 224) (OrdMap.put (5 * 2 ^ 224) [] two_heights.map_cache)) in
    Caches.retrieve (3 * 2 ^ 224) (Caches.add_new (5 * 2 ^ 224) [] two_heights) ≡ (
      if ltb 2 upper && leb (height_of (3 * 2 ^ 224) + 2) upper
      then none
      else if 5 * 2 ^ 224 == 3 * 2 ^ 224
      then some []
      else Caches.retrieve (3 * 2 ^ 224) two_heights)
retrieve-add_new_window_example =
    retrieve-add_new_window (5 * 2 ^ 224) (3 * 2 ^ 224) [] two_heights (omega arith)
