-- ===== src/TxPool/Index/Effect.antt =====
-- src/minemon/txpool.cpp, CTxPoolView::AddTxIndex and AddNew: what they do to the spent outputs, to
-- the set of transactions and to the transactions themselves.
use mathlib.Core.Option
use mamio.Base.{
  ℕ, zero, suc, ◌≡◌, refl, ap, sym, ◌∙◌, inl, inr, true, false, ◌||◌, List, [], ◌∷◌, ◌++◌, Option,
  none, some, ltb, ◌==◌, if_cases, arith, Option-cases, Bool-cases, ==_iff, nat_key,
}
use mamio.Base.OrdMap
use mamio.Base.OrdMap.{find-put}
use mamio.TxPool.{AssembledTx, PooledTx, Txs}
use mamio.TxPool.View.{TxPoolView, get, erase_tx, erase_link, find_hash}
use mamio.TxPool.View.Spending.{has_link, get-has_link, has_link-erase_link, has_link-place_link}
use mamio.TxPool.Index.{
  Outcome, outcome, min_next, number_tx, set_sequence, set_next_sequence, root_of, insert_link,
  add_tx_index, previous_loop, previous_at, link_of, handed_out, before, idle_below,
}

-- A transaction without the numbers that the pool gives it.
abbrev pub assembled_at : ℕ → Txs → Option AssembledTx
assembled_at x txs = Option.map (λ (p : PooledTx). p.assembled) (OrdMap.find x txs)

assembled_at-set_sequence :
    (txid seq x : ℕ) (txs : Txs) → assembled_at x (set_sequence txid seq txs) ≡ assembled_at x txs
unfolding set_sequence
assembled_at-set_sequence txid seq x txs = elim (Option-cases (OrdMap.find txid txs)) [
  | inl e ↦ rw (e, set_sequence) refl
  | inr (p, e) ↦
      rw (e, set_sequence)
        (ground (arith, find-put txid x (record p { sequence_number = seq }) txs))
]

assembled_at-set_next :
    (txid seq x : ℕ) (txs : Txs)
    → assembled_at x (set_next_sequence txid seq txs) ≡ assembled_at x txs
unfolding set_next_sequence
assembled_at-set_next txid seq x txs = elim (Option-cases (OrdMap.find txid txs)) [
  | inl e ↦ rw (e, set_next_sequence) refl
  | inr (p, e) ↦
      rw (e, set_next_sequence)
        (ground (arith, find-put txid x (record p { next_sequence_number = seq }) txs))
]

assembled_at-number_tx :
    (txid x : ℕ) (v : TxPoolView) (txs : Txs) (least : Option (ℕ × PooledTx))
    → assembled_at x (number_tx txid v txs least).1 ≡ assembled_at x txs
unfolding number_tx
assembled_at-number_tx txid x v txs none = elim (Option-cases (OrdMap.find txid txs)) [
  | inl e ↦ rw (e, number_tx) refl
  | inr (p, e) ↦ rw (e, number_tx) refl
]
assembled_at-number_tx txid x v txs (some (least, p)) =
    elim (Option-cases (root_of least p v txs)) [
      | inl e ↦ elim (Option-cases (idle_below v p.sequence_number)) [
        | inl f ↦ rw (e, number_tx, f) refl
        | inr (idle, f) ↦ rw (e, number_tx, f) (assembled_at-set_sequence txid idle x txs)
      ]
      | inr ((root, q), e) ↦
          rw (e, number_tx)
            (assembled_at-set_sequence txid (handed_out q) x
                (set_next_sequence root (before (handed_out q)) txs)
              ∙ assembled_at-set_next root (before (handed_out q)) x txs)
    ]

-- What AddTxIndex keeps: mapSpent and the transactions; and, where it succeeds, it adds its own.
pub record Indexed (txid : ℕ) (v : TxPoolView) (txs : Txs) (r : Outcome) : Type 0 where
  pub spent : r.view.map_spent ≡ v.map_spent
  pub same : (x : ℕ) → assembled_at x r.txs ≡ assembled_at x txs
  pub added :
      r.success ≡ true → (x : ℕ) → has_link x r.view.links ≡ (txid == x || has_link x v.links)
  pub within : (x : ℕ) → has_link x r.view.links ≡ true → (txid == x || has_link x v.links) ≡ true

failure-Indexed :
    (txid : ℕ) (v : TxPoolView) (txs txs' : Txs)
    → ((x : ℕ) → assembled_at x txs' ≡ assembled_at x txs)
    → Indexed txid v txs (outcome false (erase_tx txid v) txs')
unfolding erase_tx
failure-Indexed txid v txs txs' h = record {
  spent = refl;
  same = h;
  added = λ e. cc;
  within = λ x e. ground (arith, e, has_link-erase_link txid x v.links);
}

insert_link-Indexed :
    (txid : ℕ) (v : TxPoolView) (txs txs' : Txs)
    → ((x : ℕ) → assembled_at x txs' ≡ assembled_at x txs)
    → Indexed txid v txs (insert_link txid (erase_tx txid v) txs')
unfolding insert_link erase_tx
insert_link-Indexed txid v txs txs' h = elim (Option-cases (OrdMap.find txid txs')) [
  | inl e ↦ rw (e, insert_link) (failure-Indexed txid v txs txs' h)
  | inr (p, e) ↦ elim (Option-cases (find_hash txid (erase_link txid v.links))) [
    | inr (l, f) ↦ rw (e, insert_link, f) (failure-Indexed txid v txs txs' h)
    | inl f ↦
        rw (e, insert_link, f)
          (record {
            spent = refl;
            same = h;
            added = λ s x. ground (
              arith,
              has_link-place_link (link_of txid p) x (erase_link txid v.links),
              has_link-erase_link txid x v.links,
            );
            within = λ x s. ground (
              arith,
              s,
              has_link-place_link (link_of txid p) x (erase_link txid v.links),
              has_link-erase_link txid x v.links,
            );
          })
  ]
]

pub add_tx_index-Indexed :
    (txid : ℕ) (v : TxPoolView) (txs : Txs) → Indexed txid v txs (add_tx_index txid v txs)
unfolding add_tx_index
add_tx_index-Indexed txid v txs = elim (Option-cases (min_next txid (erase_tx txid v) txs)) [
  | inl e ↦ rw (e, add_tx_index) (failure-Indexed txid v txs txs (λ x. refl))
  | inr (least, e) ↦
      let same = λ (x : ℕ). assembled_at-number_tx txid x (erase_tx txid v) txs least in
      let txs' = (number_tx txid (erase_tx txid v) txs least).1 in
      rw (e, add_tx_index)
        (if_cases (Indexed txid v txs) (number_tx txid (erase_tx txid v) txs least).0
          (λ h. insert_link-Indexed txid v txs txs' same)
          (λ h. failure-Indexed txid v txs txs' same))
]

-- The loop over the previous transactions keeps mapSpent, the transactions and, where it succeeds,
-- what is in the view.
pub record Ordered (v : TxPoolView) (txs : Txs) (r : Outcome) : Type 0 where
  pub spent : r.view.map_spent ≡ v.map_spent
  pub same : (x : ℕ) → assembled_at x r.txs ≡ assembled_at x txs
  pub kept : r.success ≡ true → (x : ℕ) → has_link x v.links ≡ true → has_link x r.view.links ≡ true
  pub within : (x : ℕ) → has_link x r.view.links ≡ true → has_link x v.links ≡ true

abbrev pub IfDone : (Outcome → Type 0) → Option Outcome → Type 0
IfDone P none = Unit {0}
IfDone P (some r) = P r

seen_before :
    (txid x : ℕ) (v : TxPoolView)
    → has_link txid v.links ≡ true
    → (txid == x || has_link x v.links) ≡ true
    → has_link x v.links ≡ true
seen_before txid x v here h = elim (Bool-cases (txid == x)) [
  | inl same ↦ ap (λ z. has_link z v.links) (sym ((==_iff txid x).0 same)) ∙ here
  | inr other ↦ ground (arith, h, other)
]

after_Indexed :
    (txid : ℕ) (v : TxPoolView) (txs : Txs) (r : Outcome) (o : Option Outcome)
    → has_link txid v.links ≡ true
    → r.success ≡ true
    → Indexed txid v txs r
    → IfDone (Ordered r.view r.txs) o
    → IfDone (Ordered v txs) o
after_Indexed txid v txs r none here s i h = tt
after_Indexed txid v txs r (some q) here s i h = record {
  spent = h.spent ∙ i.spent;
  same = λ x. h.same x ∙ i.same x;
  kept = λ t x k. h.kept t x (ground (arith, i.added s x));
  within = λ x k. seen_before txid x v here (i.within x (h.within x k));
}

pub previous_loop-Ordered :
    (fuel : ℕ) (pending : List (ℕ × ℕ)) (v : TxPoolView) (txs : Txs)
    → IfDone (Ordered v txs) (previous_loop fuel pending v txs)
unfolding previous_loop
previous_loop-Ordered fuel [] v txs = record {
  spent = refl;
  same = λ x. refl;
  kept = λ s x k. k;
  within = λ x k. k;
}
previous_loop-Ordered zero (e ∷ pending) v txs = tt
previous_loop-Ordered (suc fuel) ((txid, seq) ∷ pending) v txs =
    elim (Option-cases (get txid v txs)) [
      | inl e ↦ rw (e, previous_loop) (previous_loop-Ordered fuel pending v txs)
      | inr (p, e) ↦ elim (Bool-cases (ltb seq p.sequence_number)) [
        | inr behind ↦ rw (e, previous_loop, behind) (previous_loop-Ordered fuel pending v txs)
        | inl ahead ↦
            let r = add_tx_index txid v txs in
            let i = add_tx_index-Indexed txid v txs in
            elim (Bool-cases r.success) [
              | inr failed ↦
                  rw (e, previous_loop, ahead, failed)
                    (record {
                      spent = i.spent;
                      same = i.same;
                      kept = λ s x k. ground (arith, failed, s);
                      within =
                          λ x k. seen_before txid x v (get-has_link txid v txs p e) (i.within x k);
                    })
              | inl done ↦
                  rw (e, previous_loop, ahead, done)
                    (after_Indexed txid v txs r _ (get-has_link txid v txs p e) done i
                      (previous_loop-Ordered fuel (pending ++ previous_at txid r.txs) r.view r.txs))
            ]
      ]
    ]
