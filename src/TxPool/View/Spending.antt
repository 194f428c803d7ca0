-- ===== src/TxPool/View/Spending.antt =====
-- src/minemon/txpool.h, CTxPoolView: what the operations do to the relation of outputs and the
-- transactions that spend them, and to which transactions are in the pool.
use mamio.Base.{
  ℕ, ◌≡◌, refl, sym, ◌∙◌, inl, inr, Bool, true, false, not, ◌&&◌, ◌||◌, List, [], ◌∷◌, none, some,
  ◌==◌, if◌then◌else◌, arith, Option-cases, nat_key,
}
use mamio.Base.OrdMap.{find-put, find-erase}
use mamio.TxPool.{OutPoint, out_key, out_eq, PooledTx, PooledTxLink, Txs, inputs_of, get_output}
use mamio.TxPool.View.{
  Spent, unspent, has_next, TxPoolView, find_hash, erase_link, place_link, exists, get, is_spent,
  get_spent, put_spent, erase_spent, set_unspent, free_inputs, erase_tx, remove,
}

-- Whether an out point is one of the inputs.
abbrev pub is_input : OutPoint → List OutPoint → Bool
is_input out [] = false
is_input out (o ∷ os) = out_eq o out || is_input out os

-- Whether a hash is that of a link.
abbrev pub has_link : ℕ → List PooledTxLink → Bool
has_link txid [] = false
has_link txid (l ∷ ls) = l.hash_tx == txid || has_link txid ls

find_hash-has_link :
    (txid : ℕ) (ls : List PooledTxLink)
    → (elim (find_hash txid ls) [ none ↦ false | some l ↦ true ]) ≡ has_link txid ls
unfolding find_hash
find_hash-has_link txid [] = refl
find_hash-has_link txid (l ∷ ls) = ground (arith, find_hash-has_link txid ls)

pub exists-has_link : (txid : ℕ) (v : TxPoolView) → exists txid v ≡ has_link txid v.links
unfolding exists
exists-has_link txid v = find_hash-has_link txid v.links

pub get-has_link :
    (x : ℕ) (v : TxPoolView) (txs : Txs) (p : PooledTx)
    → get x v txs ≡ some p
    → has_link x v.links ≡ true
unfolding get exists
get-has_link x v txs p e = elim (Option-cases (find_hash x v.links)) [
  | inl none_there ↦ absurd (ground (arith, rw (get, none_there) at e))
  | inr (l, there) ↦ sym (exists-has_link x v) ∙ rw (there, exists) refl
]

pub has_link-erase_link :
    (txid x : ℕ) (ls : List PooledTxLink)
    → has_link x (erase_link txid ls) ≡ (not (txid == x) && has_link x ls)
unfolding erase_link
has_link-erase_link txid x [] = ground arith
has_link-erase_link txid x (l ∷ ls) = ground (arith, has_link-erase_link txid x ls)

pub has_link-place_link :
    (k : PooledTxLink) (x : ℕ) (ls : List PooledTxLink)
    → has_link x (place_link k ls) ≡ (k.hash_tx == x || has_link x ls)
unfolding place_link
has_link-place_link k x [] = ground arith
has_link-place_link k x (l ∷ ls) = ground (arith, has_link-place_link k x ls)

pub get_spent-put_spent :
    (o out : OutPoint) (s : Spent) (v : TxPoolView)
    → get_spent out (put_spent o s v)
      ≡ (if out_eq o out then (has_next s, some s.txid_next_tx) else get_spent out v)
unfolding get_spent put_spent
get_spent-put_spent o out s v = ground (arith, find-put o out s v.map_spent)

pub is_spent-get_spent : (out : OutPoint) (v : TxPoolView) → is_spent out v ≡ (get_spent out v).0
unfolding get_spent is_spent
is_spent-get_spent out v = ground arith

is_spent-set_unspent :
    (o out : OutPoint) (v : TxPoolView) (txs : Txs)
    → is_spent out (set_unspent o v txs) ≡ (not (out_eq o out) && is_spent out v)
unfolding set_unspent is_spent put_spent erase_spent
is_spent-set_unspent o out v txs = elim (Option-cases (get o.hash v txs)) [
  | inl e ↦ rw (e, is_spent, set_unspent) (ground (arith, find-erase o out v.map_spent))
  | inr (p, e) ↦
      rw (e, is_spent, set_unspent)
        (ground (arith, find-put o out (unspent (get_output o.n p.assembled)) v.map_spent))
]

links-set_unspent :
    (o : OutPoint) (v : TxPoolView) (txs : Txs) → (set_unspent o v txs).links ≡ v.links
unfolding set_unspent put_spent erase_spent
links-set_unspent o v txs = ground arith

pub links-free_inputs :
    (os : List OutPoint) (v : TxPoolView) (txs : Txs) → (free_inputs os v txs).links ≡ v.links
unfolding free_inputs
links-free_inputs [] v txs = refl
links-free_inputs (o ∷ os) v txs =
    links-free_inputs os (set_unspent o v txs) txs ∙ links-set_unspent o v txs

is_spent-free_inputs :
    (os : List OutPoint) (out : OutPoint) (v : TxPoolView) (txs : Txs)
    → is_spent out (free_inputs os v txs) ≡ (not (is_input out os) && is_spent out v)
unfolding free_inputs
is_spent-free_inputs [] out v txs = ground arith
is_spent-free_inputs (o ∷ os) out v txs =
    ground (
      arith,
      is_spent-free_inputs os out (set_unspent o v txs) txs,
      is_spent-set_unspent o out v txs,
    )

remove-some :
    (txid : ℕ) (v : TxPoolView) (txs : Txs) (p : PooledTx)
    → get txid v txs ≡ some p
    → remove txid v txs ≡ erase_tx txid (free_inputs (inputs_of p) v txs)
unfolding remove
remove-some txid v txs p e = rw (e, remove) refl

has_link-erase_tx : (txid : ℕ) (v : TxPoolView) → has_link txid (erase_tx txid v).links ≡ false
unfolding erase_tx
has_link-erase_tx txid v = ground (arith, has_link-erase_link txid txid v.links)

is_spent-erase_tx :
    (txid : ℕ) (out : OutPoint) (v : TxPoolView) → is_spent out (erase_tx txid v) ≡ is_spent out v
unfolding erase_tx is_spent
is_spent-erase_tx txid out v = refl

-- For a transaction that is in the pool, Remove takes it out, and of all outputs just those that its
-- inputs name are no longer spent.
pub remove_frees :
    (txid : ℕ) (v : TxPoolView) (txs : Txs) (p : PooledTx) (out : OutPoint)
    → get txid v txs ≡ some p
    → (exists txid (remove txid v txs) ≡ false)
      × (is_spent out (remove txid v txs) ≡ (not (is_input out (inputs_of p)) && is_spent out v))
remove_frees txid v txs p out e =
    let freed = free_inputs (inputs_of p) v txs in
    rw (remove-some txid v txs p e) (
      exists-has_link txid (erase_tx txid freed) ∙ has_link-erase_tx txid freed,
      is_spent-erase_tx txid out freed ∙ is_spent-free_inputs (inputs_of p) out v txs,
    )
