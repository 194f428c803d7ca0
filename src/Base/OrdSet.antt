-- ===== src/Base/OrdSet.antt =====
-- std::set: a list in the order of its keys, without repeated keys.
use mathlib.Core.Path.{◌≡◌, refl}
use mathlib.Core.Bool.{Bool, false, ◌||◌, ◌&&◌, not}
use mathlib.Core.List.{List, [], ◌∷◌}
use native.Mathlib.Omega.{arith}
use mamio.Base.Tests.{if◌then◌else◌}
use mamio.Base.Keys.{Key}

module _ {K : Type 0} ⦃k : Key K⦄ where
  unfoldable pub contains : K → List K → Bool
  contains a [] = false
  contains a (x ∷ xs) = k.same x a || contains a xs

  unfoldable pub insert : K → List K → List K
  insert a [] = a ∷ []
  insert a (x ∷ xs) =
      if k.before a x then a ∷ x ∷ xs else if k.same x a then x ∷ xs else x ∷ insert a xs

  unfoldable pub erase : K → List K → List K
  erase a [] = []
  erase a (x ∷ xs) = if k.same x a then erase a xs else x ∷ erase a xs

  -- insert(first, last) of another set.
  unfoldable pub insert_all : List K → List K → List K
  insert_all [] s = s
  insert_all (x ∷ xs) s = insert_all xs (insert x s)

  pub contains-insert :
      (a b : K) (s : List K) → contains b (insert a s) ≡ (k.same a b || contains b s)
  unfolding contains insert
  contains-insert a b [] = refl
  contains-insert a b (x ∷ xs) = ground (arith, contains-insert a b xs, k.same_iff x a)

  pub contains-erase :
      (a b : K) (s : List K) → contains b (erase a s) ≡ (not (k.same a b) && contains b s)
  unfolding contains erase
  contains-erase a b [] = ground arith
  contains-erase a b (x ∷ xs) =
      ground (arith, contains-erase a b xs, k.same_iff x a, k.same_iff x b, k.same_iff a b)
