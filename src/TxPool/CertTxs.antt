-- ===== src/TxPool/CertTxs.antt =====
-- src/minemon/txpool.h and txpool.cpp, CCertTxDestCache: the enrolment transactions of each
-- destination with the time of their arrival. The time of a call is an argument, in seconds, and
-- does not run backwards. No part of the program has such a cache at present.
use mamio.Base.{
  ℕ, ◌-◌, ◌*◌, ◌≡◌, ◌↔◌, Bool, true, false, not, ◌&&◌, ◌||◌, List, [], ◌∷◌, Option, none, some, ltb,
  leb, ◌==◌, Key, arith, if◌then◌else◌, length, nat_key,
}
use mamio.Base.OrdMap
use mamio.Base.OrdSet
use mamio.TxPool.{Destination, same_destination}

abbrev pub destination_lt : Destination → Destination → Bool
destination_lt a b = ltb a.prefix b.prefix || (a.prefix == b.prefix && ltb a.content b.content)

pub same_destination_iff : (a b : Destination) → (same_destination a b ≡ true) ↔ (a ≡ b)
same_destination_iff a b = ground arith

instance abbrev pub destination_key : Key Destination
destination_key = record {
  before = destination_lt;
  same = same_destination;
  same_iff = same_destination_iff;
}

abbrev pub max_cache_certtx_count : ℕ
max_cache_certtx_count = 60

abbrev pub cache_certtx_timeout : ℕ
cache_certtx_timeout = 3600 * 24

pub record CertTxDestCache : Type 0 where
  pub set_delegate : List Destination
  pub map_cert_tx_dest : List (Destination × List (ℕ × ℕ))

unfoldable pub add_delegate : Destination → CertTxDestCache → CertTxDestCache
add_delegate dest c = record c { set_delegate = OrdSet.insert dest c.set_delegate }

-- Both branches, the new entry and the new time of an old one, put the time at the hash.
unfoldable pub add_cert_tx : ℕ → Destination → ℕ → CertTxDestCache → CertTxDestCache
add_cert_tx now dest txid c =
    if not (OrdSet.contains dest c.set_delegate)
    then elim (OrdMap.find dest c.map_cert_tx_dest) [
      | none ↦ c
      | some m ↦ record c {
        map_cert_tx_dest = OrdMap.put dest (OrdMap.put txid now m) c.map_cert_tx_dest;
      }
    ]
    else c

unfoldable pub remove_cert_tx : Destination → ℕ → CertTxDestCache → CertTxDestCache
remove_cert_tx dest txid c = elim (OrdMap.find dest c.map_cert_tx_dest) [
  | none ↦ c
  | some m ↦
      let left = OrdMap.erase txid m in
      if length left == 0
      then record c { map_cert_tx_dest = OrdMap.erase dest c.map_cert_tx_dest }
      else record c { map_cert_tx_dest = OrdMap.put dest left c.map_cert_tx_dest }
]

-- The loop of GetTimeoutCertTx, with nMinTime, 0 for none, and txid.
unfoldable pub timeout_loop : ℕ → ℕ × ℕ → List (ℕ × ℕ) → ℕ × ℕ
timeout_loop now best [] = best
timeout_loop now best ((txid, time) ∷ m) =
    if leb cache_certtx_timeout (now - time) && (best.0 == 0 || ltb time best.0)
    then timeout_loop now (time, txid) m
    else timeout_loop now best m

-- The transaction that GetTimeoutCertTx gives when it returns true.
unfoldable pub get_timeout_cert_tx : ℕ → Destination → CertTxDestCache → Option ℕ
get_timeout_cert_tx now dest c = elim (OrdMap.find dest c.map_cert_tx_dest) [
  | none ↦ none
  | some m ↦
      let (min_time, txid) = timeout_loop now (0, 0) m in
      if not (min_time == 0) then some txid else none
]

unfoldable pub is_over_max_cert_count : Destination → CertTxDestCache → Bool
is_over_max_cert_count dest c = elim (OrdMap.find dest c.map_cert_tx_dest) [
  | none ↦ true
  | some m ↦ if leb max_cache_certtx_count (length m) then false else true
]
