-- ===== src/TxPool.antt =====
-- src/common/transaction.h and src/minemon/txpool.h: transactions, outputs and the pooled
-- transaction. Hashes are natural numbers, 0 is no hash; amounts are signed integers, within the
-- range of int64. The children model the views of the pool, the pool itself and its caches.
pub mod View
pub mod Index
pub mod Invalidate
pub mod Arrange
pub mod Caches
pub mod Calls
pub mod Queries
pub mod Confirm
pub mod Sync
pub mod Load
pub mod CertTxs
use Prim.Native.Nat.{ℕ}
use mamio.Base.{
  zero, suc, ◌≡◌, ◌↔◌, Bool, true, not, ◌&&◌, ◌||◌, List, ltb, leb, ◌==◌, ◌/◌, ◌%◌, ◌^◌, Key, arith,
  if◌then◌else◌,
}
use mamio.Base.Int.{ℤ, pos, leb_ℤ, ◌-ℤ◌}

-- CDestination: a prefix, 0 for none, and 256 bits.
pub record Destination : Type 0 where
  pub prefix : ℕ
  pub content : ℕ

abbrev pub no_destination : Destination
no_destination = record { prefix = 0; content = 0 }

abbrev pub is_null : Destination → Bool
is_null d = d.prefix == 0

abbrev pub same_destination : Destination → Destination → Bool
same_destination d e = d.prefix == e.prefix && d.content == e.content

pub record OutPoint : Type 0 where
  pub hash : ℕ
  pub n : ℕ

abbrev pub out_point : ℕ → ℕ → OutPoint
out_point hash n = record { hash = hash; n = n }

abbrev pub out_lt : OutPoint → OutPoint → Bool
out_lt a b = ltb a.hash b.hash || (a.hash == b.hash && ltb a.n b.n)

abbrev pub out_eq : OutPoint → OutPoint → Bool
out_eq a b = a.hash == b.hash && a.n == b.n

pub out_eq_iff : (a b : OutPoint) → (out_eq a b ≡ true) ↔ (a ≡ b)
out_eq_iff a b = ground arith

instance abbrev pub out_key : Key OutPoint
out_key = record { before = out_lt; same = out_eq; same_iff = out_eq_iff }

pub record Transaction : Type 0 where
  pub version : ℕ
  pub tx_type : ℕ
  pub time_stamp : ℕ
  pub lock_until : ℕ
  pub inputs : List OutPoint
  pub send_to : Destination
  pub amount : ℤ
  pub tx_fee : ℤ
  pub content : List ℕ
  pub signature : List ℕ

abbrev pub is_mint_tx : Transaction → Bool
is_mint_tx tx = tx.tx_type == 256 || (tx.tx_type == 512 || tx.tx_type == 768)

abbrev pub get_tx_time : Transaction → ℕ
get_tx_time tx = tx.time_stamp

unfoldable pub get_lock_until : ℕ → Transaction → ℕ
get_lock_until n tx = if n == tx.lock_until / 2 ^ 31 then tx.lock_until % 2 ^ 31 else 0

pub record TxOut : Type 0 where
  pub dest_to : Destination
  pub amount : ℤ
  pub tx_time : ℕ
  pub lock_until : ℕ

abbrev pub null_output : TxOut
null_output = record { dest_to = no_destination; amount = pos 0; tx_time = 0; lock_until = 0 }

abbrev pub is_null_output : TxOut → Bool
is_null_output o = is_null o.dest_to || leb_ℤ o.amount (pos 0)

-- CAssembledTx: a transaction with what its inputs bring in.
pub record AssembledTx : Type 0 where
  pub tx : Transaction
  pub dest_in : Destination
  pub value_in : ℤ
  pub block_height : ℤ

unfoldable pub get_change : AssembledTx → ℤ
get_change a = a.value_in -ℤ a.tx.amount -ℤ a.tx.tx_fee

unfoldable pub get_output : ℕ → AssembledTx → TxOut
get_output zero a = record {
  dest_to = a.tx.send_to;
  amount = a.tx.amount;
  tx_time = a.tx.time_stamp;
  lock_until = get_lock_until 0 a.tx;
}
get_output (suc zero) a = record {
  dest_to = a.dest_in;
  amount = get_change a;
  tx_time = a.tx.time_stamp;
  lock_until = get_lock_until 1 a.tx;
}
get_output (suc (suc n)) a = null_output

-- CTxUnspent
pub record TxUnspent : Type 0 where
  pub point : OutPoint
  pub output : TxOut
  pub tx_type : ℤ
  pub height : ℤ

pub record PooledTx : Type 0 where
  pub assembled : AssembledTx
  pub sequence_number : ℕ
  pub serialize_size : ℕ
  pub next_sequence_number : ℕ

-- CPooledTxLink; its pointer is to the entry of mapTx under the hash.
pub record PooledTxLink : Type 0 where
  pub hash_tx : ℕ
  pub sequence_number : ℕ
  pub tx_type : ℕ

-- mapTx
abbrev pub Txs : Type 0
Txs = List (ℕ × PooledTx)

abbrev pub inputs_of : PooledTx → List OutPoint
inputs_of p = p.assembled.tx.inputs
