-- ===== src/Cache.antt =====
-- src/xengine/cache.h, class CCache: a map that forgets its oldest entry when it has too many. The
-- container is the list of its entries in the sequenced order, oldest first; its ordered index keeps
-- the keys distinct. Each method holds rwAccess throughout, so a call is one step.
pub mod Bound
use mamio.Base.{
  ℕ, Bool, true, false, not, ◌&&◌, List, [], ◌∷◌, ◌++◌, Option, none, some, ltb, ◌==◌,
  if◌then◌else◌, length, Key,
}

pub record Cache (K V : Type 0) : Type 0 where
  pub max_count : ℕ
  pub entries : List (K × V)

module _ {K V : Type 0} ⦃k : Key K⦄ where
  unfoldable pub find : K → List (K × V) → Option V
  find a [] = none
  find a ((x, v) ∷ m) = if k.same x a then some v else find a m

  unfoldable pub assign : K → V → List (K × V) → List (K × V)
  assign a v [] = []
  assign a v ((x, w) ∷ m) = if k.same x a then (x, v) ∷ m else (x, w) ∷ assign a v m

  unfoldable pub erase : K → List (K × V) → List (K × V)
  erase a [] = []
  erase a ((x, v) ∷ m) = if k.same x a then m else (x, v) ∷ erase a m

  abbrev pub pop_front : List (K × V) → List (K × V)
  pop_front [] = []
  pop_front (e ∷ m) = m

  unfoldable pub exists : K → Cache K V → Bool
  exists a c = elim (find a c.entries) [ none ↦ false | some v ↦ true ]

  unfoldable pub retrieve : K → Cache K V → Option V
  retrieve a c = find a c.entries

  -- insert() changes nothing when the key is there; the value is then assigned in its place.
  abbrev pub inserted : K → V → List (K × V) → List (K × V)
  inserted a v m = elim (find a m) [ none ↦ m ++ (a, v) ∷ [] | some w ↦ assign a v m ]

  unfoldable pub add_new : K → V → Cache K V → Cache K V
  add_new a v c =
      let m = inserted a v c.entries in
      if not (c.max_count == 0) && ltb c.max_count (length m)
      then record c { entries = pop_front m }
      else record c { entries = m }

  unfoldable pub remove : K → Cache K V → Cache K V
  remove a c = record c { entries = erase a c.entries }

  unfoldable pub clear : Cache K V → Cache K V
  clear c = record c { entries = [] }
