-- ===== src/Schedule/Inv.antt =====
-- src/network/proto.h, class CInv: what an inventory entry names.
use mamio.Base.{ℕ, ◌≡◌, ◌↔◌, Bool, true, ◌&&◌, ◌||◌, arith, ltb, ◌==◌, Key}

pub record Inv : Type 0 where
  pub type : ℕ
  pub hash : ℕ

abbrev pub msg_tx : ℕ
msg_tx = 1

abbrev pub msg_block : ℕ
msg_block = 2

abbrev pub inv_lt : Inv → Inv → Bool
inv_lt a b = ltb a.type b.type || a.type == b.type && ltb a.hash b.hash

abbrev pub inv_eq : Inv → Inv → Bool
inv_eq a b = a.type == b.type && a.hash == b.hash

pub inv_eq_iff : (a b : Inv) → (inv_eq a b ≡ true) ↔ (a ≡ b)
inv_eq_iff a b = ground arith

instance abbrev pub inv_key : Key Inv
inv_key = record { before = inv_lt; same = inv_eq; same_iff = inv_eq_iff }

abbrev pub tx_inv : ℕ → Inv
tx_inv hash = record { type = msg_tx; hash = hash }

abbrev pub block_inv : ℕ → Inv
block_inv hash = record { type = msg_block; hash = hash }
