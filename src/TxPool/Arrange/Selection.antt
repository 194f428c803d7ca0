-- ===== src/TxPool/Arrange/Selection.antt =====
-- src/minemon/txpool.cpp, CTxPoolView::ArrangeBlockTx: which transactions it selects.
use mamio.Base.{
  ℕ, ◌+◌, ◌%◌, ◌^◌, ◌≤◌, ◌<◌, ◌≡◌, refl, ap, ◌∙◌, inl, inr, Bool, true, false, not, ◌&&◌, List, [],
  ◌∷◌, ◌++◌, map, ltb, leb, if◌then◌else◌, arith, Bool-cases, ltb→le, nat_key,
}
use mamio.Base.OrdSet
use mamio.Base.Int.{ℤ, ◌+ℤ◌}
use mamio.TxPool.{Transaction, get_tx_time, PooledTx, Txs, inputs_of}
use mamio.TxPool.View.{TxPoolView}
use mamio.TxPool.Arrange.{
  Arranged, nothing_arranged, misses_prev, add_arrange_block_tx, arrange_loop, entries,
  arrange_block_tx,
}

abbrev pub sizes : List (ℕ × PooledTx) → ℕ
sizes [] = 0
sizes ((t, p) ∷ es) = p.serialize_size + sizes es

abbrev pub fees : ℤ → List (ℕ × PooledTx) → ℤ
fees sum [] = sum
fees sum ((t, p) ∷ es) = fees (sum +ℤ p.assembled.tx.tx_fee) es

-- Adding any of the sizes to what fits does not wrap.
abbrev pub AreSizes : ℕ → List (ℕ × PooledTx) → Type 0
AreSizes max_size [] = Unit {0}
AreSizes max_size ((t, p) ∷ es) = (max_size + p.serialize_size < 2 ^ 64) × AreSizes max_size es

abbrev pub tx_of : ℕ × PooledTx → Transaction
tx_of e = e.1.assembled.tx

-- What may go into the block: not what is too late, nor what spends from a transaction left out.
unfoldable pub eligible : ℕ → List ℕ → List (ℕ × PooledTx) → List (ℕ × PooledTx)
eligible block_time un_tx [] = []
eligible block_time un_tx ((t, p) ∷ es) =
    if leb (get_tx_time p.assembled.tx) block_time && not (misses_prev (inputs_of p) un_tx)
    then (t, p) ∷ eligible block_time un_tx es
    else eligible block_time (OrdSet.insert t un_tx) es

-- The longest part from the front whose sizes fit.
unfoldable pub fitting : ℕ → ℕ → List (ℕ × PooledTx) → List (ℕ × PooledTx)
fitting max_size total [] = []
fitting max_size total ((t, p) ∷ es) =
    if ltb max_size (total + p.serialize_size)
    then []
    else (t, p) ∷ fitting max_size (total + p.serialize_size) es

abbrev pub selected : ℕ → ℕ → List (ℕ × PooledTx) → List (ℕ × PooledTx)
selected block_time max_size es = fitting max_size 0 (eligible block_time [] es)

-- What the loop leaves when it takes these transactions in.
abbrev pub IsTaken : ℕ → Arranged → List (ℕ × PooledTx) → Arranged → Type 0
IsTaken max_size a chosen r =
    (r.vtx ≡ a.vtx ++ map tx_of chosen)
    × (r.total_tx_fee ≡ fees a.total_tx_fee chosen)
    × (r.total_size ≡ a.total_size + sizes chosen)
    × (r.total_size ≤ max_size)

append-nil : {A : Type 0} (xs : List A) → xs ≡ xs ++ []
append-nil [] = refl
append-nil (x ∷ xs) = ap (λ ys. x ∷ ys) (append-nil xs)

-- The loop goes on with what a round leaves, or ends with it.
abbrev after : ℕ → ℕ → List (ℕ × PooledTx) → Bool × Arranged → Arranged
after block_time max_size es r = elim r.0 [
  | true ↦ arrange_loop block_time max_size es r.1
  | false ↦ r.1
]

arrange_loop_on :
    (block_time max_size t : ℕ) (p : PooledTx) (es : List (ℕ × PooledTx)) (a b : Arranged)
    → add_arrange_block_tx block_time max_size t p a ≡ (true, b)
    → arrange_loop block_time max_size ((t, p) ∷ es) a ≡ arrange_loop block_time max_size es b
unfolding arrange_loop
arrange_loop_on block_time max_size t p es a b e = ap (after block_time max_size es) e

arrange_loop_end :
    (block_time max_size t : ℕ) (p : PooledTx) (es : List (ℕ × PooledTx)) (a b : Arranged)
    → add_arrange_block_tx block_time max_size t p a ≡ (false, b)
    → arrange_loop block_time max_size ((t, p) ∷ es) a ≡ b
unfolding arrange_loop
arrange_loop_end block_time max_size t p es a b e = ap (after block_time max_size es) e

append-cons : {A : Type 0} (xs ys : List A) (x : A) → (xs ++ x ∷ []) ++ ys ≡ xs ++ x ∷ ys
append-cons [] ys x = refl
append-cons (z ∷ xs) ys x = ap (λ l. z ∷ l) (append-cons xs ys x)

-- A transaction that is taken comes before those that the rest of the loop takes.
IsTaken-cons :
    (max_size t : ℕ) (p : PooledTx) (a r : Arranged) (chosen : List (ℕ × PooledTx))
    → IsTaken max_size
        (record {
          vtx = a.vtx ++ p.assembled.tx ∷ [];
          total_tx_fee = a.total_tx_fee +ℤ p.assembled.tx.tx_fee;
          total_size = a.total_size + p.serialize_size;
          un_tx = a.un_tx;
        })
        chosen
        r
    → IsTaken max_size a ((t, p) ∷ chosen) r
IsTaken-cons max_size t p a r chosen (txs, fee, size, fits) =
    (txs ∙ append-cons a.vtx (map tx_of chosen) p.assembled.tx, fee, omega (arith, size), fits)

arrange_loop-IsTaken :
    (block_time max_size : ℕ) (es : List (ℕ × PooledTx)) (a : Arranged)
    → AreSizes max_size es
    → a.total_size ≤ max_size
    → IsTaken max_size a
        (fitting max_size a.total_size (eligible block_time a.un_tx es))
        (arrange_loop block_time max_size es a)
unfolding arrange_loop add_arrange_block_tx eligible fitting
arrange_loop-IsTaken block_time max_size [] a w h = (append-nil a.vtx, refl, omega arith, h)
arrange_loop-IsTaken block_time max_size ((t, p) ∷ es) a w h =
    let total : (a.total_size + p.serialize_size) % 2 ^ 64 ≡ a.total_size + p.serialize_size =
      omega (arith, w.0, h) in
    let left_out : Arranged = record a { un_tx = OrdSet.insert t a.un_tx } in
    let taken : Arranged = record {
      vtx = a.vtx ++ p.assembled.tx ∷ [];
      total_tx_fee = a.total_tx_fee +ℤ p.assembled.tx.tx_fee;
      total_size = a.total_size + p.serialize_size;
      un_tx = a.un_tx;
    } in
    elim (Bool-cases (leb (get_tx_time p.assembled.tx) block_time)) [
      | inr late ↦
          let e = arrange_loop_on block_time max_size t p es a left_out (rw late refl) in
          rw (late, e) (arrange_loop-IsTaken block_time max_size es left_out w.1 h)
      | inl on_time ↦ elim (Bool-cases (misses_prev (inputs_of p) a.un_tx)) [
        | inl miss ↦
            let e =
              arrange_loop_on block_time max_size t p es a left_out (rw (on_time, miss) refl) in
            rw (on_time, miss, e) (arrange_loop-IsTaken block_time max_size es left_out w.1 h)
        | inr here ↦ elim (Bool-cases (ltb max_size (a.total_size + p.serialize_size))) [
          | inl full ↦
              let e =
                arrange_loop_end block_time max_size t p es a a
                  (rw (on_time, here, total, full) refl) in
              rw (on_time, here, full, e) (append-nil a.vtx, refl, omega arith, h)
          | inr fits ↦
              let e =
                arrange_loop_on block_time max_size t p es a taken
                  (rw (on_time, here, total, fits) refl) in
              rw (on_time, here, fits, e)
                (IsTaken-cons max_size t p a (arrange_loop block_time max_size es taken) _
                  (arrange_loop-IsTaken block_time max_size es taken w.1 (ltb→le _ _ fits)))
        ]
      ]
    ]

-- What ArrangeBlockTx does, for sizes whose sums with the limit do not wrap: the transactions are
-- the longest part, from the lowest sequence number, of the eligible ones whose sizes fit the
-- limit; the fee and the size are the sums of theirs.
pub arrange_block_tx-selected :
    (block_time max_size : ℕ) (v : TxPoolView) (txs : Txs)
    → AreSizes max_size (entries txs v.links)
    → IsTaken max_size nothing_arranged
        (selected block_time max_size (entries txs v.links))
        (arrange_block_tx block_time max_size v txs)
unfolding arrange_block_tx
arrange_block_tx-selected block_time max_size v txs w =
    arrange_loop-IsTaken block_time max_size (entries txs v.links) nothing_arranged w (omega arith)
