-- ===== src/TxPool/Caches.antt =====
-- src/minemon/txpool.h, CTxCache: what was arranged for the blocks of the latest heights. The highest
-- 32 bits of a block's hash are its height. Heights are 32-bit, the interval is 64-bit.
pub mod Window
use mamio.Base.{
  ℕ, ◌+◌, ◌-◌, ◌/◌, ◌%◌, ◌^◌, Bool, true, false, not, List, [], ◌∷◌, Option, none, some, ltb,
  if◌then◌else◌, nat_key,
}
use mamio.Base.OrdMap
use mamio.TxPool.{Transaction}

pub record TxCache : Type 0 where
  pub height_interval : ℕ
  pub map_cache : List (ℕ × List Transaction)

abbrev pub new_cache : ℕ → TxCache
new_cache interval = record { height_interval = interval; map_cache = [] }

-- CBlock::GetBlockHeightByHash
abbrev pub height_of : ℕ → ℕ
height_of hash = hash / 2 ^ 224 % 2 ^ 32

unfoldable pub exists : ℕ → TxCache → Bool
exists hash c = elim (OrdMap.find hash c.map_cache) [ none ↦ false | some vtx ↦ true ]

-- mapCache.rbegin()->first; the map has an entry where it is read.
unfoldable pub highest : ℕ → List (ℕ × List Transaction) → ℕ
highest hash [] = hash
highest hash ((h, vtx) ∷ m) = highest h m

unfoldable pub lower_height : ℕ → ℕ → ℕ
lower_height upper interval = (upper + 2 ^ 64 - (interval + 2 ^ 64 - 1) % 2 ^ 64) % 2 ^ 64 % 2 ^ 32

-- The loop that erases what is below a height.
unfoldable pub erase_below : ℕ → List (ℕ × List Transaction) → List (ℕ × List Transaction)
erase_below lower [] = []
erase_below lower ((h, vtx) ∷ m) =
    if ltb (height_of h) lower then erase_below lower m else (h, vtx) ∷ erase_below lower m

unfoldable pub add_new : ℕ → List Transaction → TxCache → TxCache
add_new hash vtx c =
    let m = OrdMap.put hash vtx c.map_cache in
    let upper = height_of (highest hash m) in
    if ltb c.height_interval upper
    then record c { map_cache = erase_below (lower_height upper c.height_interval) m }
    else record c { map_cache = m }

unfoldable pub retrieve : ℕ → TxCache → Option (List Transaction)
retrieve hash c = OrdMap.find hash c.map_cache

unfoldable pub remove : ℕ → TxCache → TxCache
remove hash c = record c { map_cache = OrdMap.erase hash c.map_cache }

unfoldable pub clear : TxCache → TxCache
clear c = record c { map_cache = [] }
