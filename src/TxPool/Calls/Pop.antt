-- ===== src/TxPool/Calls/Pop.antt =====
-- src/minemon/txpool.cpp, CTxPool::Pop: it ends, and what it does to the transaction that it is
-- called for.
use mamio.Base.{
  ℕ, ◌+◌, ◌*◌, ◌≤◌, ◌≡◌, refl, ap, sym, ◌∙◌, inl, inr, false, List, [], ◌∷◌, some, ◌==◌, ==_iff,
  arith, length, Option-cases, Bool-cases, nat_key,
}
use mamio.Base.OrdMap
use mamio.Base.OrdMap.{find-put, find-erase}
use mamio.Base.Int.{ℤ}
use mamio.TxPool.{out_point, Transaction, PooledTx, PooledTxLink, Txs, inputs_of}
use mamio.TxPool.View
use mamio.TxPool.View.{
  TxPoolView, empty_view, find_hash, erase_link, erase_tx, free_inputs, count, get,
}
use mamio.TxPool.View.Spending.{has_link, exists-has_link, has_link-erase_link, links-free_inputs}
use mamio.TxPool.Index.Effect.{assembled_at}
use mamio.TxPool.Index.Ends.{IsWeight}
use mamio.TxPool.Invalidate.{Invalidation}
use mamio.TxPool.Invalidate.Ends.{invalidate_spent-ends, length-erase_link_le}
use mamio.TxPool.Invalidate.Absent.{Absent, invalidate_spent-Absent}
use mamio.TxPool.Calls.{
  err_already_have, Chain, TxPool, view_of, with_view, exists, erase_txs, invalidate_outputs,
  remove_tx, push,
}

find_hash-hash :
    (txid : ℕ) (ls : List PooledTxLink) (l : PooledTxLink)
    → find_hash txid ls ≡ some l
    → l.hash_tx ≡ txid
unfolding find_hash
find_hash-hash txid [] l e = absurd cc
find_hash-hash txid (k ∷ ls) l e = elim (Bool-cases (k.hash_tx == txid)) [
  | inl here ↦
      let same : k ≡ l = ground (arith, rw (find_hash, here) at e) in
      ap (λ (j : PooledTxLink). j.hash_tx) (sym same) ∙ (==_iff k.hash_tx txid).0 here
  | inr other ↦ find_hash-hash txid ls l (ground (arith, e, other))
]

-- Remove takes a transaction of mapTx out of the view, whether it was in it or not.
remove-outside :
    (txid : ℕ) (v : TxPoolView) (txs : Txs) (p : PooledTx)
    → OrdMap.find txid txs ≡ some p
    → (has_link txid (View.remove txid v txs).links ≡ false)
      × (count (View.remove txid v txs) ≤ count v)
unfolding View.remove View.get View.exists erase_tx count
remove-outside txid v txs p e = elim (Option-cases (find_hash txid v.links)) [
  | inl gone ↦
      let left : View.remove txid v txs ≡ v = rw (gone, View.remove) refl in
      (
        ap (λ (u : TxPoolView). has_link txid u.links) left
            ∙ sym (exists-has_link txid v)
            ∙ rw (gone, View.exists) refl,
        omega (arith, ap (λ (u : TxPoolView). length u.links) left),
      )
  | inr (l, there) ↦
      let same : OrdMap.find l.hash_tx txs ≡ some p =
        ap (λ x. OrdMap.find x txs) (find_hash-hash txid v.links l there) ∙ e in
      let freed = free_inputs (inputs_of p) v txs in
      let left : View.remove txid v txs ≡ erase_tx txid freed =
        rw (there, same, View.remove) refl in
      let links = ap (λ (u : TxPoolView). u.links) left in
      let kept = links-free_inputs (inputs_of p) v txs in
      (
        ap (has_link txid) links ∙ ground (arith, has_link-erase_link txid txid freed.links),
        omega (arith, ap length links, ap length kept, length-erase_link_le txid freed.links),
      )
]

find-erase_txs :
    (txid : ℕ) (ls : List PooledTxLink) (txs : Txs)
    → has_link txid ls ≡ false
    → OrdMap.find txid (erase_txs ls txs) ≡ OrdMap.find txid txs
unfolding erase_txs
find-erase_txs txid [] txs h = refl
find-erase_txs txid (l ∷ ls) txs h =
    find-erase_txs txid ls (OrdMap.erase l.hash_tx txs) (ground (arith, h))
    ∙ ground (arith, find-erase l.hash_tx txid txs, h)

-- Both calls of InvalidateSpent end, and leave a transaction out that is in neither view.
invalidate_outputs-ends :
    (w : ℕ → ℕ) (rounds fuel txid : ℕ) (v : TxPoolView) (txs : Txs)
    → IsWeight w fuel txs
    → 1 + 2 * count v ≤ rounds
    → has_link txid v.links ≡ false
    → (i : Invalidation) × (invalidate_outputs rounds fuel txid v empty_view txs ≡ some i)
      × Absent txid txs i.view i.involved i.txs
unfolding invalidate_outputs
invalidate_outputs-ends w rounds fuel txid v txs k h out =
    let a : Absent txid txs v empty_view txs = record {
      outside = out;
      apart = refl;
      same = λ y. refl;
    } in
    let (i, e, l, fewer) =
      invalidate_spent-ends w rounds fuel (out_point txid 0) v empty_view txs k h in
    let b =
      invalidate_spent-Absent txid rounds fuel (out_point txid 0) txs txs v empty_view i a e in
    let (j, f, m, less) =
      invalidate_spent-ends w rounds fuel (out_point txid 1) i.view i.involved i.txs l
        (omega (arith, h, fewer)) in
    (
      j,
      rw (e, invalidate_outputs) f,
      invalidate_spent-Absent txid rounds fuel (out_point txid 1) txs i.txs i.view i.involved j b f,
    )

still_there :
    (txid : ℕ) (txs now : Txs) (p : PooledTx)
    → OrdMap.find txid txs ≡ some p
    → assembled_at txid now ≡ assembled_at txid txs
    → (q : PooledTx) × (OrdMap.find txid now ≡ some q)
still_there txid txs now p e same = elim (Option-cases (OrdMap.find txid now)) [
  | inl gone ↦ absurd (ground (arith, e, gone, same))
  | inr found ↦ found
]

push-refused :
    (fuel : ℕ) (c : Chain) (tx : Transaction) (pool : TxPool) (q : PooledTx)
    → OrdMap.find (c.hash tx) pool.map_tx ≡ some q
    → push fuel c tx pool ≡ some (err_already_have, pool)
unfolding push exists
push-refused fuel c tx pool q e = rw (e, push, exists) refl

-- For a transaction that the pool has: Pop ends, where each transaction of mapTx weighs as much as
-- all that it spends from, each with one more, the fuel is as much as any weighs and the rounds are
-- one and two for each transaction of the view. It takes the transaction out of the view, but mapTx
-- keeps it, so that a Push of it afterwards is refused with ERR_ALREADY_HAVE.
pub remove_tx-push :
    (w : ℕ → ℕ) (rounds fuel again : ℕ) (c : Chain) (tx : Transaction) (pool : TxPool)
    (location : ℕ × ℤ) (p : PooledTx)
    → c.get_block_location c.genesis_block_hash ≡ some location
    → OrdMap.find (c.hash tx) pool.map_tx ≡ some p
    → IsWeight w fuel pool.map_tx
    → 1 + 2 * count (view_of location.0 pool) ≤ rounds
    → (new : TxPool) × (remove_tx rounds fuel c (c.hash tx) pool ≡ some new)
      × (View.exists (c.hash tx) (view_of location.0 new) ≡ false)
      × (push again c tx new ≡ some (err_already_have, new))
unfolding remove_tx
remove_tx-push w rounds fuel again c tx pool location p here e k h =
    let txid = c.hash tx in
    let fork = location.0 in
    let (outside, fewer) = remove-outside txid (view_of fork pool) pool.map_tx p e in
    let v = View.remove txid (view_of fork pool) pool.map_tx in
    let (i, run, a) =
      invalidate_outputs-ends w rounds fuel txid v pool.map_tx k (omega (arith, h, fewer))
        outside in
    let (q, there) = still_there txid pool.map_tx i.txs p e (a.same txid) in
    let txs = erase_txs i.involved.links i.txs in
    let found : OrdMap.find txid txs ≡ some q =
      find-erase_txs txid i.involved.links i.txs a.apart ∙ there in
    let new : TxPool = with_view fork i.view txs pool in
    let view : view_of fork new ≡ i.view =
      ground (arith, find-put fork fork i.view pool.map_pool_view) in
    (
      new,
      rw (e, here, run, remove_tx) refl,
      ap (View.exists txid) view ∙ exists-has_link txid i.view ∙ a.outside,
      push-refused again c tx new q found,
    )
