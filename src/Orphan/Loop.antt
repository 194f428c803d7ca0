-- ===== src/Orphan/Loop.antt =====
-- The loop of COrphan::RemoveBranch ends.
use mamio.Base.{
  ℕ, zero, suc, ◌+◌, ◌≤◌, ◌≡◌, refl, nat_key, List, [], ◌∷◌, ◌++◌, some, arith, length,
  length-append,
}
use mamio.Base.OrdSet.{insert}
use mamio.Orphan.{Orphans, Found, get_next_new, remove_next, branch_loop, remove_branch}

-- Each hash that is put out costs a pair that is then erased.
pub length-get_next_new :
    (prev : ℕ) (m : Orphans) (f : Found)
    → length (get_next_new prev m f).0 + length (remove_next prev m) ≤ length f.0 + length m
unfolding get_next_new remove_next
length-get_next_new prev [] f = omega arith
length-get_next_new prev ((p, h) ∷ m) (next, seen) = ground (
  arith,
  length-append next (h ∷ []),
  length-get_next_new prev m (next, seen),
  length-get_next_new prev m (next ++ h ∷ [], insert h seen),
)

pub branch_loop-total :
    (fuel : ℕ) (visited : List ℕ) (f : Found) (m : Orphans)
    → length f.0 + length m ≤ fuel
    → (r : List ℕ × Orphans) × (branch_loop fuel visited f m ≡ some r)
unfolding branch_loop
branch_loop-total fuel visited ([], seen) m h = ((visited, m), refl)
branch_loop-total zero visited (hash ∷ pending, seen) m h = absurd (omega arith)
branch_loop-total (suc fuel) visited (hash ∷ pending, seen) m h =
    branch_loop-total fuel _ _ _ (omega (arith, length-get_next_new hash m (pending, seen)))

-- RemoveBranch ends with a result, on every map and from every vector.
pub remove_branch-total :
    (root : ℕ) (branch : List ℕ) (m : Orphans)
    → (r : List ℕ × Orphans) × (remove_branch root branch m ≡ some r)
unfolding remove_branch
remove_branch-total root branch m =
    branch_loop-total _ [] _ _ (length-get_next_new root m (branch, []))
