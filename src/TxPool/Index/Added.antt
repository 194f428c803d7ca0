-- ===== src/TxPool/Index/Added.antt =====
-- src/minemon/txpool.cpp, CTxPoolView::AddNew: a transaction that it adds is in the view and spends
-- the outputs that its inputs name.
use mamio.Base.{
  ℕ, ◌≡◌, refl, ap, sym, ◌∙◌, inl, inr, true, not, ◌||◌, List, [], ◌∷◌, Option, none, some, ◌==◌,
  if◌then◌else◌, if_cases, arith, Option-cases, Bool-cases, nat_key,
}
use mamio.Base.OrdMap
use mamio.TxPool.{
  OutPoint, out_point, AssembledTx, PooledTx, Txs, inputs_of, get_output, is_null_output,
}
use mamio.TxPool.View.{TxPoolView, exists, get_spent, set_spent, put_spent, spent_by, unspent}
use mamio.TxPool.View.Spending.{is_input, has_link, exists-has_link, get_spent-put_spent}
use mamio.TxPool.Index.{
  Outcome, add_tx_index, spend_inputs, add_output, enter, previous, previous_loop, add_new,
}
use mamio.TxPool.Index.Effect.{
  assembled_at, Indexed, add_tx_index-Indexed, IfDone, Ordered, previous_loop-Ordered,
}

get_spent-map_spent :
    (out : OutPoint) (v w : TxPoolView)
    → v.map_spent ≡ w.map_spent
    → get_spent out v ≡ get_spent out w
unfolding get_spent
get_spent-map_spent out v w e = rw e refl

get_spent-spend_inputs :
    (os : List OutPoint) (txid : ℕ) (out : OutPoint) (v : TxPoolView)
    → get_spent out (spend_inputs os txid v)
      ≡ (if is_input out os then (not (txid == 0), some txid) else get_spent out v)
unfolding spend_inputs set_spent
get_spent-spend_inputs [] txid out v = refl
get_spent-spend_inputs (o ∷ os) txid out v = ground (
  arith,
  get_spent-spend_inputs os txid out (set_spent o txid v),
  get_spent-put_spent o out (spent_by txid) v,
)

get_spent-add_output :
    (n txid : ℕ) (p : PooledTx) (out : OutPoint) (v : TxPoolView)
    → ¬ (out.hash ≡ txid)
    → get_spent out (add_output n txid p v) ≡ get_spent out v
unfolding add_output
get_spent-add_output n txid p out v h =
    let e = get_spent-put_spent (out_point txid n) out (unspent (get_output n p.assembled)) v in
    if_cases (λ w. get_spent out w ≡ get_spent out v)
      (not (is_null_output (get_output n p.assembled))) (λ t. ground (arith, e, h)) (λ t. refl)

get_spent-enter :
    (txid : ℕ) (p : PooledTx) (out : OutPoint) (v : TxPoolView)
    → ¬ (out.hash ≡ txid)
    → get_spent out (enter txid p v)
      ≡ (if is_input out (inputs_of p) then (not (txid == 0), some txid) else get_spent out v)
get_spent-enter txid p out v h =
    let spent = spend_inputs (inputs_of p) txid v in
    get_spent-add_output 1 txid p out (add_output 0 txid p spent) h
    ∙ get_spent-add_output 0 txid p out spent h
    ∙ get_spent-spend_inputs (inputs_of p) txid out v

links-spend_inputs :
    (os : List OutPoint) (txid : ℕ) (v : TxPoolView) → (spend_inputs os txid v).links ≡ v.links
unfolding spend_inputs set_spent put_spent
links-spend_inputs [] txid v = refl
links-spend_inputs (o ∷ os) txid v = links-spend_inputs os txid (set_spent o txid v)

links-add_output :
    (n txid : ℕ) (p : PooledTx) (v : TxPoolView) → (add_output n txid p v).links ≡ v.links
unfolding add_output put_spent
links-add_output n txid p v =
    if_cases (λ (w : TxPoolView). w.links ≡ v.links)
      (not (is_null_output (get_output n p.assembled))) (λ t. refl) (λ t. refl)

links-enter : (txid : ℕ) (p : PooledTx) (v : TxPoolView) → (enter txid p v).links ≡ v.links
links-enter txid p v =
    let spent = spend_inputs (inputs_of p) txid v in
    links-add_output 1 txid p (add_output 0 txid p spent)
    ∙ links-add_output 0 txid p spent
    ∙ links-spend_inputs (inputs_of p) txid v

-- The entry of a transaction after AddTxIndex has the inputs that it had.
same_inputs :
    (txid : ℕ) (txs txs' : Txs) (p q : PooledTx)
    → assembled_at txid txs' ≡ assembled_at txid txs
    → OrdMap.find txid txs ≡ some p
    → OrdMap.find txid txs' ≡ some q
    → q.assembled ≡ p.assembled
same_inputs txid txs txs' p q h e f = cc

-- The end of AddNew, behind AddTxIndex, for what its loop leaves.
entered :
    (txid : ℕ) (v : TxPoolView) (txs : Txs) (p q : PooledTx) (s r : Outcome) (out : OutPoint)
    → Indexed txid v txs s
    → s.success ≡ true
    → q.assembled ≡ p.assembled
    → Ordered (enter txid q s.view) s.txs r
    → r.success ≡ true
    → ¬ (txid ≡ 0)
    → ¬ (out.hash ≡ txid)
    → (exists txid r.view ≡ true)
      × (get_spent out r.view
          ≡ (if is_input out (inputs_of p) then (true, some txid) else get_spent out v))
entered txid v txs p q s r out i done same o success pos other =
    let here : has_link txid s.view.links ≡ true = ground (arith, i.added done txid) in
    let entered_here : has_link txid (enter txid q s.view).links ≡ true =
      ap (has_link txid) (links-enter txid q s.view) ∙ here in
    let inputs : inputs_of q ≡ inputs_of p = ap (λ (a : AssembledTx). a.tx.inputs) same in
    let not_zero : not (txid == 0) ≡ true = ground (arith, pos) in
    (
      exists-has_link txid r.view ∙ o.kept success txid entered_here,
      get_spent-map_spent out r.view (enter txid q s.view) o.spent
          ∙ get_spent-enter txid q out s.view other
          ∙ ap (λ b. if is_input out (inputs_of q) then (b, some txid) else get_spent out s.view)
              not_zero
          ∙ ap (λ os. if is_input out os then (true, some txid) else get_spent out s.view) inputs
          ∙ ap (λ g. if is_input out (inputs_of p) then (true, some txid) else g)
              (get_spent-map_spent out s.view v i.spent),
    )

-- What AddNew keeps in any case: the transactions, and that nothing but its own gets into the view.
pub record Kept (txid : ℕ) (v : TxPoolView) (txs : Txs) (r : Outcome) : Type 0 where
  pub same : (x : ℕ) → assembled_at x r.txs ≡ assembled_at x txs
  pub within : (x : ℕ) → has_link x r.view.links ≡ true → (txid == x || has_link x v.links) ≡ true

loop-Kept :
    (txid : ℕ) (v : TxPoolView) (txs : Txs) (p : PooledTx) (s : Outcome) (o : Option Outcome)
    → Indexed txid v txs s
    → IfDone (Ordered (enter txid p s.view) s.txs) o
    → IfDone (Kept txid v txs) o
loop-Kept txid v txs p s none i h = tt
loop-Kept txid v txs p s (some r) i h = record {
  same = λ x. h.same x ∙ i.same x;
  within = λ x k. i.within x (ap (has_link x) (sym (links-enter txid p s.view)) ∙ h.within x k);
}

pub add_new-Kept :
    (fuel txid : ℕ) (v : TxPoolView) (txs : Txs)
    → IfDone (Kept txid v txs) (add_new fuel txid v txs)
unfolding add_new
add_new-Kept fuel txid v txs =
    let s = add_tx_index txid v txs in
    let i = add_tx_index-Indexed txid v txs in
    elim (Bool-cases s.success) [
      | inr failed ↦ rw (failed, add_new) (record { same = i.same; within = i.within })
      | inl done ↦ elim (Option-cases (OrdMap.find txid s.txs)) [
        | inl gone ↦ rw (done, gone, add_new) (record { same = i.same; within = i.within })
        | inr (p, there) ↦
            rw (done, there, add_new)
              (loop-Kept txid v txs p s _ i
                (previous_loop-Ordered fuel (previous p) (enter txid p s.view) s.txs))
      ]
    ]

-- A result that is there is the one that was reached.
same_some : {A : Type 0} (a b : A) → some a ≡ some b → a ≡ b
same_some a b e = cc

-- For a transaction of mapTx whose hash is not 0: when AddNew returns true, the transaction is in
-- the view, and of the outputs that are not its own just those that its inputs name have a new
-- spender, which is it.
pub add_new_spends :
    (fuel txid : ℕ) (v : TxPoolView) (txs : Txs) (p : PooledTx) (r : Outcome) (out : OutPoint)
    → OrdMap.find txid txs ≡ some p
    → add_new fuel txid v txs ≡ some r
    → r.success ≡ true
    → ¬ (txid ≡ 0)
    → ¬ (out.hash ≡ txid)
    → (exists txid r.view ≡ true)
      × (get_spent out r.view
          ≡ (if is_input out (inputs_of p) then (true, some txid) else get_spent out v))
unfolding add_new
add_new_spends fuel txid v txs p r out e run done pos other =
    let s = add_tx_index txid v txs in
    let i = add_tx_index-Indexed txid v txs in
    elim (Bool-cases s.success) [
      | inr failed ↦
          let q = same_some s r (rw (failed, add_new) at run) in
          absurd (ground (arith, done, failed, ap (λ (o : Outcome). o.success) q))
      | inl indexed ↦ elim (Option-cases (OrdMap.find txid s.txs)) [
        | inl gone ↦ absurd (ground (arith, i.same txid, gone, e))
        | inr (q, there) ↦
            let loop = previous_loop-Ordered fuel (previous q) (enter txid q s.view) s.txs in
            let reached : previous_loop fuel (previous q) (enter txid q s.view) s.txs ≡ some r =
              rw (indexed, there, add_new) at run in
            entered txid v txs p q s r out i indexed
              (same_inputs txid txs s.txs p q (i.same txid) e there) (rw reached at loop) done pos
              other
      ]
    ]
