-- ===== src/TxPool/Calls/Push.antt =====
-- src/minemon/txpool.cpp, CTxPool::Push: no output is spent twice.
use mathlib.Core.Option
use mamio.Base.{
  ℕ, ◌≡◌, refl, ap, sym, ◌∙◌, inl, inr, true, false, ◌&&◌, List, [], ◌∷◌, Option, none, some,
  if◌then◌else◌, arith, Option-cases, Bool-cases, nat_key,
}
use mamio.Base.OrdMap
use mamio.Base.OrdMap.{find-put}
use mamio.Base.Int.{ℤ, negsuc}
use mamio.TxPool.{
  Destination, OutPoint, out_eq, out_eq_iff, Transaction, is_mint_tx, TxOut, PooledTx, Txs,
}
use mamio.TxPool.View
use mamio.TxPool.View.{TxPoolView, is_spent, get_spent, get_unspent}
use mamio.TxPool.View.Spending.{is_input}
use mamio.TxPool.Index
use mamio.TxPool.Index.{Outcome}
use mamio.TxPool.Index.Added.{add_new_spends}
use mamio.TxPool.Calls.{
  Errno, ok, err_not_found, err_already_have, err_sys_storage_error, err_transaction_invalid,
  err_transaction_conflicting_input, err_verify, Chain, TxPool, view_of, with_view, exists,
  get_sequence_number, prev_outputs, insert_tx, pooled_tx, check_new, admit, add_new, found_again,
  push,
}

prev_outputs-unspent :
    (os : List OutPoint) (v : TxPoolView) (outs : List TxOut) (out : OutPoint)
    → prev_outputs os v ≡ some outs
    → is_input out os ≡ true
    → is_spent out v ≡ false
unfolding prev_outputs
prev_outputs-unspent [] v outs out e h = absurd cc
prev_outputs-unspent (o ∷ os) v outs out e h = elim (Bool-cases (is_spent o v)) [
  | inl spent ↦ absurd (ground (arith, rw (prev_outputs, spent) at e))
  | inr free ↦ elim (Option-cases (prev_outputs os v)) [
    | inl stop ↦ absurd (ground (arith, rw (prev_outputs, free, stop) at e))
    | inr (rest, go) ↦ elim (Bool-cases (out_eq o out)) [
      | inl same ↦ ap (λ x. is_spent x v) (sym ((out_eq_iff o out).0 same)) ∙ free
      | inr other ↦ prev_outputs-unspent os v rest out go (ground (arith, h, other))
    ]
  ]
]

-- When the checks pass, no input is spent.
check_new-unspent :
    (c : Chain) (v : TxPoolView) (tx : Transaction) (fork : ℕ) (height : ℤ) (last : ℕ)
    (out : OutPoint)
    → (check_new c v tx fork height last).0 ≡ ok
    → is_input out tx.inputs ≡ true
    → is_spent out v ≡ false
unfolding check_new
check_new-unspent c v tx fork height last out e h = elim (Option-cases (prev_outputs tx.inputs v)) [
  | inl spent ↦ absurd (ground (arith, rw (check_new, spent) at e))
  | inr (outs, free) ↦ prev_outputs-unspent tx.inputs v outs out free h
]

-- What AddNew leaves when it returns OK.
record Admitted (fuel : ℕ) (v : TxPoolView) (txid : ℕ) (txs : Txs) (fork : ℕ) (pool : TxPool)
    : Type 0 where
  outcome : Outcome
  run : Index.add_new fuel txid v txs ≡ some outcome
  done : outcome.success ≡ true
  view : view_of fork pool ≡ outcome.view

some_pair :
    {A B : Type 0} (a c : A) (b d : B)
    → ◌≡◌ {A = Option (A × B)} (some (a, b)) (some (c, d))
    → b ≡ d
some_pair a c b d e = cc

view_of-with_view :
    (fork : ℕ) (v : TxPoolView) (views : List (ℕ × TxPoolView))
    → (elim (OrdMap.find fork (OrdMap.put fork v views)) [ none ↦ View.empty_view | some w ↦ w ])
      ≡ v
view_of-with_view fork v views = ground (arith, find-put fork fork v views)

admit-Admitted :
    (fuel : ℕ) (c : Chain) (v : TxPoolView) (txid : ℕ) (tx : Transaction) (fork : ℕ)
    (pool new : TxPool) (e : Errno × Destination × ℤ)
    → admit fuel c v txid tx fork pool e ≡ some (ok, new)
    → (e.0 ≡ ok)
      × Admitted fuel v txid
          (insert_tx txid
            (pooled_tx c tx (negsuc 0) (get_sequence_number pool).0 e.1 e.2)
            pool.map_tx)
          fork
          new
unfolding admit
admit-Admitted fuel c v txid tx fork pool new (ok, d, s) run =
    let (sequence, last) = get_sequence_number pool in
    let txs = insert_tx txid (pooled_tx c tx (negsuc 0) sequence d s) pool.map_tx in
    elim (Option-cases (Index.add_new fuel txid v txs)) [
      | inl stop ↦ absurd (ground (arith, rw (admit, stop) at run))
      | inr (r, go) ↦ elim (Bool-cases r.success) [
        | inr failed ↦ absurd (ground (arith, rw (admit, go, failed) at run))
        | inl done ↦
            let left : TxPool =
              with_view fork r.view r.txs (record pool { last_sequence_number = last }) in
            let same = some_pair ok ok left new (rw (admit, go, done) at run) in
            (
              refl,
              record {
                outcome = r;
                run = go;
                done = done;
                view =
                    ap (view_of fork) (sym same) ∙ view_of-with_view fork r.view pool.map_pool_view;
              },
            )
      ]
    ]
admit-Admitted fuel c v txid tx fork pool new (err_not_found, d, s) run =
    absurd (ground (arith, run))
admit-Admitted fuel c v txid tx fork pool new (err_already_have, d, s) run =
    absurd (ground (arith, run))
admit-Admitted fuel c v txid tx fork pool new (err_sys_storage_error, d, s) run =
    absurd (ground (arith, run))
admit-Admitted fuel c v txid tx fork pool new (err_transaction_invalid, d, s) run =
    absurd (ground (arith, run))
admit-Admitted fuel c v txid tx fork pool new (err_transaction_conflicting_input, d, s) run =
    absurd (ground (arith, run))
admit-Admitted fuel c v txid tx fork pool new (err_verify n, d, s) run =
    absurd (ground (arith, run))

found_again-ok :
    (txid fork : ℕ) (pool new : TxPool) (e : Errno)
    → found_again txid fork (e, pool) ≡ (ok, new)
    → (e ≡ ok) × (pool ≡ new)
unfolding found_again
found_again-ok txid fork pool new ok run =
    elim (Option-cases (View.get txid (view_of fork pool) pool.map_tx)) [
      | inl gone ↦ absurd (ground (arith, rw (found_again, gone) at run))
      | inr (p, there) ↦ (
        refl,
        some_pair ok ok pool new
            (ap (λ (r : Errno × TxPool). some r) (rw (found_again, there) at run)),
      )
    ]
found_again-ok txid fork pool new err_not_found run = absurd (ground (arith, run))
found_again-ok txid fork pool new err_already_have run = absurd (ground (arith, run))
found_again-ok txid fork pool new err_sys_storage_error run = absurd (ground (arith, run))
found_again-ok txid fork pool new err_transaction_invalid run = absurd (ground (arith, run))
found_again-ok txid fork pool new err_transaction_conflicting_input run =
    absurd (ground (arith, run))
found_again-ok txid fork pool new (err_verify n) run = absurd (ground (arith, run))

found_again-done :
    (txid fork : ℕ) (new : TxPool) (o : Option (Errno × TxPool))
    → Option.map (found_again txid fork) o ≡ some (ok, new)
    → o ≡ some (ok, new)
found_again-done txid fork new none run = absurd cc
found_again-done txid fork new (some (e, pool)) run =
    let again : found_again txid fork (e, pool) ≡ (ok, new) = cc in
    let (same, pools) = found_again-ok txid fork pool new e again in rw (same, pools) refl

-- When Push returns OK, AddNew did, for the view of the genesis fork and a transaction that the pool
-- did not have.
pushed :
    (fuel : ℕ) (c : Chain) (tx : Transaction) (pool new : TxPool) (location : ℕ × ℤ)
    → c.get_block_location c.genesis_block_hash ≡ some location
    → push fuel c tx pool ≡ some (ok, new)
    → (exists (c.hash tx) pool ≡ false)
      × (last : ℕ × ℤ) × (add_new fuel c
            (view_of location.0 pool)
            (c.hash tx)
            tx
            location.0
            last.1
            last.0
            pool
          ≡ some (ok, new))
unfolding push
pushed fuel c tx pool new location here run = elim (Bool-cases (exists (c.hash tx) pool)) [
  | inl there ↦ absurd (ground (arith, rw (push, there) at run))
  | inr fresh ↦ elim (Bool-cases (is_mint_tx tx)) [
    | inl mint ↦ absurd (ground (arith, rw (push, fresh, mint) at run))
    | inr plain ↦ elim (Option-cases (c.get_last_block location.0)) [
      | inl lost ↦ absurd (ground (arith, rw (push, fresh, plain, here, lost) at run))
      | inr (block, at_end) ↦
          let added =
            add_new fuel c (view_of location.0 pool) (c.hash tx) tx location.0 block.1 block.0
              pool in
          let ends : Option.map (found_again (c.hash tx) location.0) added ≡ some (ok, new) =
            rw (push, fresh, plain, here, at_end) at run in
          (fresh, block, found_again-done (c.hash tx) location.0 new added ends)
    ]
  ]
]

insert_tx-find :
    (txid : ℕ) (p : PooledTx) (txs : Txs)
    → OrdMap.find txid txs ≡ none
    → OrdMap.find txid (insert_tx txid p txs) ≡ some p
unfolding insert_tx
insert_tx-find txid p txs e = rw (e, insert_tx) (ground (arith, find-put txid txid p txs))

exists-none :
    (txid : ℕ) (pool : TxPool) → exists txid pool ≡ false → OrdMap.find txid pool.map_tx ≡ none
unfolding exists
exists-none txid pool h = ground (arith, h)

-- No double spending: for a transaction whose hash is not 0 and that does not spend from itself,
-- when Push returns OK for the view of the fork that the chain names, then no output that its inputs
-- name was spent in the view, each is spent by it afterwards, the other outputs but its own are
-- spent by what they were spent by, and the transaction is in the view.
pub push-spends :
    (fuel : ℕ) (c : Chain) (tx : Transaction) (pool new : TxPool) (location : ℕ × ℤ)
    (out : OutPoint)
    → c.get_block_location c.genesis_block_hash ≡ some location
    → push fuel c tx pool ≡ some (ok, new)
    → ¬ (c.hash tx ≡ 0)
    → ¬ (out.hash ≡ c.hash tx)
    → (is_input out tx.inputs && is_spent out (view_of location.0 pool) ≡ false)
      × (get_spent out (view_of location.0 new) ≡ (
          if is_input out tx.inputs
          then (true, some (c.hash tx))
          else get_spent out (view_of location.0 pool)))
      × (View.exists (c.hash tx) (view_of location.0 new) ≡ true)
unfolding add_new
push-spends fuel c tx pool new location out here run pos other =
    let v = view_of location.0 pool in
    let (fresh, last, added) = pushed fuel c tx pool new location here run in
    let checks = check_new c v tx location.0 last.1 last.0 in
    let (passed, a) = admit-Admitted fuel c v (c.hash tx) tx location.0 pool new checks added in
    let p = pooled_tx c tx (negsuc 0) (get_sequence_number pool).0 checks.1 checks.2 in
    let entry = insert_tx-find (c.hash tx) p pool.map_tx (exists-none (c.hash tx) pool fresh) in
    let (inside, spends) =
      add_new_spends fuel (c.hash tx) v _ p a.outcome out entry a.run a.done pos other in
    (
      ground (arith, check_new-unspent c v tx location.0 last.1 last.0 out passed),
      ap (get_spent out) a.view ∙ spends,
      ap (View.exists (c.hash tx)) a.view ∙ inside,
    )
