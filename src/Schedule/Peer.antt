-- ===== src/Schedule/Peer.antt =====
-- src/minemon/schedule.h, class CInvPeer: what the scheduler knows of one peer. The array of two
-- states is two fields. The callers pass MSG_TX or MSG_BLOCK only; another type, which would index
-- outside the array, is read as MSG_BLOCK here.
use mamio.Base.{
  ℕ, ◌+◌, ◌/◌, ◌%◌, ◌^◌, Bool, not, ◌&&◌, ◌||◌, List, [], ◌∷◌, ◌++◌, map, none, some, leb, ◌==◌,
  if◌then◌else◌, length, nat_key,
}
use mamio.Base.Int.{ℤ, pos, negsuc, ◌-ℤ◌, leb_ℤ}
use mamio.Base.OrdSet
use mamio.Base.OrdMap
use mamio.Schedule.Inv.{Inv, msg_tx, msg_block, tx_inv, block_inv}

-- `list_known` is in the order of its sequenced index; its other index keeps the hashes distinct.
pub record InvPeerState : Type 0 where
  pub list_known : List ℕ
  pub assigned : List ℕ
  pub next_get_blocks_time : ℕ
  pub repeated : List (ℕ × List ℕ)

pub record InvPeer : Type 0 where
  pub inv_known_tx : InvPeerState
  pub inv_known_block : InvPeerState
  pub block_locator_depth : ℕ
  pub inv_height : ℤ
  pub inv_block : ℕ

abbrev pub new_state : InvPeerState
new_state = record { list_known = []; assigned = []; next_get_blocks_time = 0; repeated = [] }

abbrev pub new_peer : InvPeer
new_peer = record {
  inv_known_tx = new_state;
  inv_known_block = new_state;
  block_locator_depth = 0;
  inv_height = pos 0;
  inv_block = 0;
}

-- CBlock::GetBlockHeightByHash: the top word of the hash.
unfoldable pub block_height_by_hash : ℕ → ℕ
block_height_by_hash hash = hash / 2 ^ 224 % 2 ^ 32

abbrev pub inv_known : ℕ → InvPeer → InvPeerState
inv_known type p = if type == msg_tx then p.inv_known_tx else p.inv_known_block

abbrev pub set_inv_known : ℕ → InvPeerState → InvPeer → InvPeer
set_inv_known type s p =
    if type == msg_tx then record p { inv_known_tx = s } else record p { inv_known_block = s }

abbrev pub get_known_list : ℕ → InvPeer → List ℕ
get_known_list type p = (inv_known type p).list_known

abbrev pub is_empty : ℕ → InvPeer → Bool
is_empty type p = length (get_known_list type p) == 0

abbrev pub get_count : ℕ → InvPeer → ℕ
get_count type p = length (get_known_list type p)

unfoldable pub get_known_inv : InvPeer → List Inv
get_known_inv p = map block_inv p.inv_known_block.list_known ++ map tx_inv p.inv_known_tx.list_known

-- An entry that is already listed moves to the end.
unfoldable pub add_new_inv : Inv → InvPeer → InvPeer
add_new_inv inv p =
    let s = inv_known inv.type p in
    set_inv_known inv.type
      (record s { list_known = OrdSet.erase inv.hash s.list_known ++ inv.hash ∷ [] }) p

-- The set of a height loses the hash, and goes if nothing is left in it.
abbrev pub forget_repeat : ℕ → List (ℕ × List ℕ) → List (ℕ × List ℕ)
forget_repeat hash m = elim (OrdMap.find (block_height_by_hash hash) m) [
  | none ↦ m
  | some hashes ↦
      if length (OrdSet.erase hash hashes) == 0
      then OrdMap.erase (block_height_by_hash hash) m
      else OrdMap.put (block_height_by_hash hash) (OrdSet.erase hash hashes) m
]

unfoldable pub remove_inv : Inv → InvPeer → InvPeer
remove_inv inv p =
    let s = inv_known inv.type p in
    set_inv_known inv.type
      (record s {
        list_known = OrdSet.erase inv.hash s.list_known;
        assigned = OrdSet.erase inv.hash s.assigned;
        repeated = if inv.type == msg_block then forget_repeat inv.hash s.repeated else s.repeated;
      })
      p

abbrev pub known_inv_exists : Inv → InvPeer → Bool
known_inv_exists inv p = OrdSet.contains inv.hash (get_known_list inv.type p)

unfoldable pub assign : Inv → InvPeer → InvPeer
assign inv p =
    let s = inv_known inv.type p in
    set_inv_known inv.type (record s { assigned = OrdSet.insert inv.hash s.assigned }) p

unfoldable pub completed : Inv → InvPeer → InvPeer
completed inv p =
    let s = inv_known inv.type p in
    set_inv_known inv.type (record s { assigned = OrdSet.erase inv.hash s.assigned }) p

unfoldable pub is_assigned : InvPeer → Bool
is_assigned p =
    not (length p.inv_known_tx.assigned == 0) || not (length p.inv_known_block.assigned == 0)

-- The height and the hash that the caller's reference then holds.
unfoldable pub get_locator_inv_block_hash : InvPeer → ℕ → ℤ × ℕ
get_locator_inv_block_hash p hash =
    if leb_ℤ p.inv_height (pos 0) || p.inv_block == 0
    then (negsuc 0, hash)
    else (p.inv_height, p.inv_block)

unfoldable pub set_locator_inv_block_hash : ℤ → ℕ → ℕ → InvPeer → InvPeer
set_locator_inv_block_hash height block next p =
    if leb_ℤ p.inv_height height
    then record p { inv_height = height; inv_block = block }
    else if next == 0 && p.inv_block == 0
    then record p { inv_height = height; inv_block = block }
    else record p { inv_height = p.inv_height -ℤ pos 1; inv_block = 0 }

unfoldable pub set_next_get_blocks_time : ℕ → ℕ → InvPeer → InvPeer
set_next_get_blocks_time now wait p = record p {
  inv_known_block = record (p.inv_known_block) { next_get_blocks_time = now + wait };
}

unfoldable pub check_next_get_blocks_time : ℕ → InvPeer → Bool
check_next_get_blocks_time now p = leb p.inv_known_block.next_get_blocks_time now

abbrev repeated_at : ℕ → List (ℕ × List ℕ) → List ℕ
repeated_at height m = elim (OrdMap.find height m) [ none ↦ [] | some hashes ↦ hashes ]

-- The new peer, and how many known blocks of this height have been reported as repeated.
unfoldable pub add_repeat_block : ℕ → InvPeer → InvPeer × ℕ
add_repeat_block hash p =
    if known_inv_exists (block_inv hash) p
    then (let m = p.inv_known_block.repeated in
        let hashes = OrdSet.insert hash (repeated_at (block_height_by_hash hash) m) in
        (
          record p {
            inv_known_block = record (p.inv_known_block) {
              repeated = OrdMap.put (block_height_by_hash hash) hashes m;
            };
          },
          length hashes,
        ))
    else (p, 0)
