-- ===== src/TxPool/Caches/Window.antt =====
-- src/minemon/txpool.h, CTxCache: which blocks the cache remembers.
use mamio.Base.{
  ℕ, ◌+◌, ◌-◌, ◌^◌, ◌≤◌, ◌<◌, ◌≡◌, ap, ◌∙◌, inl, inr, ◌&&◌, List, [], ◌∷◌, none, some, ltb, leb,
  ltb→lt, ◌==◌, if◌then◌else◌, arith, Bool-cases, nat_key, ==_iff,
}
use mamio.Base.OrdMap
use mamio.Base.OrdMap.{find-put}
use mamio.TxPool.{Transaction}
use mamio.TxPool.Caches.{TxCache, height_of, highest, lower_height, erase_below, add_new, retrieve}

find-erase_below :
    (lower hash : ℕ) (m : List (ℕ × List Transaction))
    → OrdMap.find hash (erase_below lower m)
      ≡ (if ltb (height_of hash) lower then none else OrdMap.find hash m)
unfolding erase_below OrdMap.find
find-erase_below lower hash [] = ground arith
find-erase_below lower hash ((h, vtx) ∷ m) =
    ground (arith, find-erase_below lower hash m, ==_iff h hash, ap height_of)

lower_height_lem :
    (upper interval : ℕ)
    → 1 ≤ interval
    → interval < upper
    → upper < 2 ^ 32
    → lower_height upper interval ≡ upper + 1 - interval
unfolding lower_height
lower_height_lem upper interval one lt small = omega arith

height_small : (hash : ℕ) → height_of hash < 2 ^ 32
height_small hash = omega arith

below_window :
    (upper interval height : ℕ)
    → 1 ≤ interval
    → interval < upper
    → upper < 2 ^ 32
    → ltb height (lower_height upper interval) ≡ leb (height + interval) upper
below_window upper interval height one lt small =
    ground (arith, lower_height_lem upper interval one lt small)

-- For an interval that is not 0, and the height of the highest block that the cache has with the
-- new one: what AddNew keeps are the blocks of the latest heights, as many as the interval, and all
-- blocks while the height is not above the interval; among them the new block has its new value and
-- the others have theirs.
pub retrieve-add_new_window :
    (hash x : ℕ) (vtx : List Transaction) (c : TxCache)
    → 1 ≤ c.height_interval
    → let upper = height_of (highest hash (OrdMap.put hash vtx c.map_cache)) in
      retrieve x (add_new hash vtx c) ≡ (
        if ltb c.height_interval upper && leb (height_of x + c.height_interval) upper
        then none
        else if hash == x
        then some vtx
        else retrieve x c)
unfolding retrieve add_new
retrieve-add_new_window hash x vtx c one =
    let m = OrdMap.put hash vtx c.map_cache in
    let upper = height_of (highest hash m) in
    elim (Bool-cases (ltb c.height_interval upper)) [
      | inr low ↦ rw (low, add_new) (find-put hash x vtx c.map_cache)
      | inl high ↦
          let window =
            below_window upper c.height_interval (height_of x) one
              (ltb→lt c.height_interval upper high) (height_small (highest hash m)) in
          rw (high, add_new)
            (find-erase_below (lower_height upper c.height_interval) x m
              ∙ ap (λ b. if b then none else OrdMap.find x m) window
              ∙ ap (λ o. if leb (height_of x + c.height_interval) upper then none else o)
                  (find-put hash x vtx c.map_cache))
    ]
