-- ===== src/Examples/Orphans.antt =====
-- src/minemon/schedule.cpp, class COrphan, on a small multimap.
use mamio.Base.{ℕ, nat_key, ◌≡◌, refl, ◌↔◌, true, not, ◌&&◌, ◌||◌, ◌==◌, List, [], ◌∷◌, some}
use mamio.Base.OrdSet.{contains, insert}
use mamio.Orphan.{
  Orphans, linked, Descends, add_new, get_next, remove, remove_next, get_next_new, branch_loop,
  remove_branch,
}
use mamio.Orphan.Branch.{remove_branch_exact}
use mamio.Orphan.Lookup.{orphan_relation}

-- 2 and 3 wait for 1, 4 for 3, and 9 for 8.
abbrev family : Orphans
family = (1, 2) ∷ (1, 3) ∷ (3, 4) ∷ (8, 9) ∷ []

add_new_test : add_new 1 5 family ≡ (1, 2) ∷ (1, 3) ∷ (1, 5) ∷ (3, 4) ∷ (8, 9) ∷ []
unfolding add_new
add_new_test = refl

get_next_test : get_next 1 family (7 ∷ []) ≡ 7 ∷ 2 ∷ 3 ∷ []
unfolding get_next
get_next_test = refl

remove_test : remove 3 family ≡ (1, 2) ∷ (3, 4) ∷ (8, 9) ∷ []
unfolding remove
remove_test = refl

remove_branch_test : remove_branch 1 [] family ≡ some (2 ∷ 3 ∷ 4 ∷ [], (8, 9) ∷ [])
unfolding remove_branch branch_loop get_next_new remove_next contains insert
remove_branch_test = refl

remove_branch_exact_example :
    (branch : List ℕ) × (rest : Orphans) × (remove_branch 1 [] family ≡ some (branch, rest))
    × ((h : ℕ) → (contains h branch ≡ true) ↔ Descends family 1 h)
    × ((p h : ℕ) → linked rest p h ≡ (linked family p h && not (1 == p || contains p branch)))
remove_branch_exact_example = remove_branch_exact 1 family

orphan_relation_example :
    (linked (add_new 1 3 family) 1 2 ≡ (1 == 1 && 3 == 2 || linked family 1 2))
    × (linked (remove 3 family) 1 2 ≡ (not (3 == 2) && linked family 1 2))
    × (linked (remove_next 1 family) 1 2 ≡ (not (1 == 1) && linked family 1 2))
    × (contains {K = ℕ} 2 (get_next 1 family (7 ∷ []))
        ≡ (contains {K = ℕ} 2 (7 ∷ []) || linked family 1 2))
orphan_relation_example = orphan_relation family 1 3 1 2 (7 ∷ [])
