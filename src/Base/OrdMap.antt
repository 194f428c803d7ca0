-- ===== src/Base/OrdMap.antt =====
-- std::map: a list of key and value in the order of the keys.
use mathlib.Core.Path.{◌≡◌, refl}
use mathlib.Core.Option.{Option, none, some}
use mathlib.Core.List.{List, [], ◌∷◌}
use native.Mathlib.Omega.{arith}
use mamio.Base.Tests.{if◌then◌else◌}
use mamio.Base.Keys.{Key}

module _ {K V : Type 0} ⦃k : Key K⦄ where
  unfoldable pub find : K → List (K × V) → Option V
  find a [] = none
  find a ((x, v) ∷ m) = if k.same x a then some v else find a m

  -- operator[] with a new value: replaces the entry, or adds one in its place.
  unfoldable pub put : K → V → List (K × V) → List (K × V)
  put a v [] = (a, v) ∷ []
  put a v ((x, w) ∷ m) =
      if k.before a x
      then (a, v) ∷ (x, w) ∷ m
      else if k.same x a
      then (x, v) ∷ m
      else (x, w) ∷ put a v m

  unfoldable pub erase : K → List (K × V) → List (K × V)
  erase a [] = []
  erase a ((x, v) ∷ m) = if k.same x a then erase a m else (x, v) ∷ erase a m

  pub find-put :
      (a b : K) (v : V) (m : List (K × V))
      → find b (put a v m) ≡ (if k.same a b then some v else find b m)
  unfolding find put
  find-put a b v [] = refl
  find-put a b v ((x, w) ∷ m) =
      ground (arith, find-put a b v m, k.same_iff x a, k.same_iff x b, k.same_iff a b)

  pub find-erase :
      (a b : K) (m : List (K × V)) → find b (erase a m) ≡ (if k.same a b then none else find b m)
  unfolding find erase
  find-erase a b [] = ground arith
  find-erase a b ((x, w) ∷ m) =
      ground (arith, find-erase a b m, k.same_iff x a, k.same_iff x b, k.same_iff a b)
