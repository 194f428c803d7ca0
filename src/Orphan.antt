-- ===== src/Orphan.antt =====
-- src/minemon/schedule.h and schedule.cpp, class COrphan: the orphans that wait for a predecessor.
-- The multimap from predecessor to orphan is a list of pairs in the order of the keys; pairs with
-- one key stand in the order of insertion. Hashes are numbers below 2 ^ 256.
pub mod Loop
pub mod Lookup
pub mod Branch
use mamio.Base.{
  ℕ, zero, suc, ◌+◌, ◌≡◌, nat_key, Bool, true, false, List, [], ◌∷◌, ◌++◌, Option, none, some, ltb,
  ◌==◌, if◌then◌else◌, ◌||◌, ◌&&◌, length,
}
use mamio.Base.OrdSet

abbrev pub Orphans : Type 0
Orphans = List (ℕ × ℕ)

pub get_size : Orphans → ℕ
get_size m = length m

-- A new pair goes behind those of its key.
unfoldable pub add_new : ℕ → ℕ → Orphans → Orphans
add_new prev hash [] = (prev, hash) ∷ []
add_new prev hash ((p, h) ∷ m) =
    if ltb prev p then (prev, hash) ∷ (p, h) ∷ m else (p, h) ∷ add_new prev hash m

unfoldable pub remove : ℕ → Orphans → Orphans
remove hash [] = []
remove hash ((p, h) ∷ m) = if h == hash then remove hash m else (p, h) ∷ remove hash m

unfoldable pub get_next : ℕ → Orphans → List ℕ → List ℕ
get_next prev [] next = next
get_next prev ((p, h) ∷ m) next = get_next prev m (if p == prev then next ++ h ∷ [] else next)

-- The output vector and the set of what was put out.
abbrev pub Found : Type 0
Found = List ℕ × List ℕ

abbrev pub take_new : ℕ → Found → Found
take_new h (next, seen) =
    if OrdSet.contains h seen then (next, seen) else (next ++ h ∷ [], OrdSet.insert h seen)

unfoldable pub get_next_new : ℕ → Orphans → Found → Found
get_next_new prev [] f = f
get_next_new prev ((p, h) ∷ m) f = get_next_new prev m (if p == prev then take_new h f else f)

unfoldable pub remove_next : ℕ → Orphans → Orphans
remove_next prev [] = []
remove_next prev ((p, h) ∷ m) =
    if p == prev then remove_next prev m else (p, h) ∷ remove_next prev m

-- The loop of RemoveBranch at index i: `visited` is vBranch up to i, `pending` the rest.
unfoldable pub branch_loop : ℕ → List ℕ → Found → Orphans → Option (List ℕ × Orphans)
branch_loop fuel visited ([], seen) m = some (visited, m)
branch_loop zero visited (hash ∷ pending, seen) m = none
branch_loop (suc fuel) visited (hash ∷ pending, seen) m =
    branch_loop fuel (visited ++ hash ∷ []) (get_next_new hash m (pending, seen))
      (remove_next hash m)

-- RemoveBranch with the caller's vector; `none` means that the fuel ran out.
unfoldable pub remove_branch : ℕ → List ℕ → Orphans → Option (List ℕ × Orphans)
remove_branch root branch m =
    branch_loop (length branch + length m) [] (get_next_new root m (branch, []))
      (remove_next root m)

-- Whether the pair (prev, hash) is in the multimap.
abbrev pub linked : Orphans → ℕ → ℕ → Bool
linked [] prev hash = false
linked ((p, h) ∷ m) prev hash = (p == prev && h == hash) || linked m prev hash

-- What waits for `root`, directly or through other orphans.
pub data Descends (m : Orphans) (root : ℕ) : ℕ → Type 0 where
  direct : (h : ℕ) → linked m root h ≡ true → Descends m root h
  onward : (p h : ℕ) → Descends m root p → linked m p h ≡ true → Descends m root h
