-- ===== src/Orphan/Lookup.antt =====
-- The operations of COrphan, seen through which pairs are in the multimap.
use mamio.Base.{ℕ, nat_key, ◌≡◌, refl, not, ◌&&◌, ◌||◌, List, [], ◌∷◌, ◌++◌, arith, ◌==◌, ==_iff}
use mamio.Base.OrdSet.{contains, insert, contains-insert}
use mamio.Orphan.{Orphans, Found, linked, add_new, remove, get_next, get_next_new, remove_next}

pub contains-append :
    (a : ℕ) (xs ys : List ℕ) → contains a (xs ++ ys) ≡ (contains a xs || contains a ys)
unfolding contains
contains-append a [] ys = refl
contains-append a (x ∷ xs) ys = ground (arith, contains-append a xs ys)

pub linked-add_new :
    (prev hash p h : ℕ) (m : Orphans)
    → linked (add_new prev hash m) p h ≡ (prev == p && hash == h || linked m p h)
unfolding add_new
linked-add_new prev hash p h [] = refl
linked-add_new prev hash p h ((q, g) ∷ m) = ground (arith, linked-add_new prev hash p h m)

pub linked-remove :
    (hash p h : ℕ) (m : Orphans) → linked (remove hash m) p h ≡ (not (hash == h) && linked m p h)
unfolding remove
linked-remove hash p h [] = ground arith
linked-remove hash p h ((q, g) ∷ m) = ground (arith, linked-remove hash p h m)

pub linked-remove_next :
    (prev p h : ℕ) (m : Orphans)
    → linked (remove_next prev m) p h ≡ (not (prev == p) && linked m p h)
unfolding remove_next
linked-remove_next prev p h [] = ground arith
linked-remove_next prev p h ((q, g) ∷ m) = ground (arith, linked-remove_next prev p h m)

-- GetNext puts out what waits for `prev`, behind what the vector held.
pub contains-get_next :
    (prev h : ℕ) (m : Orphans) (next : List ℕ)
    → contains h (get_next prev m next) ≡ (contains h next || linked m prev h)
unfolding get_next contains
contains-get_next prev h [] next = ground arith
contains-get_next prev h ((q, g) ∷ m) next = ground (
  arith,
  contains-append h next (g ∷ []),
  contains-get_next prev h m next,
  contains-get_next prev h m (next ++ g ∷ []),
)

-- The set holds what it held and what waits for `prev`.
pub seen-get_next_new :
    (prev h : ℕ) (m : Orphans) (f : Found)
    → contains h (get_next_new prev m f).1 ≡ (contains h f.1 || linked m prev h)
unfolding get_next_new
seen-get_next_new prev h [] f = ground arith
seen-get_next_new prev h ((q, g) ∷ m) (next, seen) = ground (
  arith,
  ==_iff g h,
  contains-insert g h seen,
  seen-get_next_new prev h m (next, seen),
  seen-get_next_new prev h m (next ++ g ∷ [], insert g seen),
)

-- The vector gets exactly what is new to the set.
pub next-get_next_new :
    (prev h : ℕ) (m : Orphans) (f : Found)
    → contains h (get_next_new prev m f).0
      ≡ (contains h f.0 || linked m prev h && not (contains h f.1))
unfolding get_next_new contains
next-get_next_new prev h [] f = ground arith
next-get_next_new prev h ((q, g) ∷ m) (next, seen) = ground (
  arith,
  ==_iff g h,
  contains-insert g h seen,
  contains-append h next (g ∷ []),
  next-get_next_new prev h m (next, seen),
  next-get_next_new prev h m (next ++ g ∷ [], insert g seen),
)

-- AddNew adds one pair to the relation of predecessors and orphans, Remove takes out the pairs of one
-- orphan, RemoveNext those of one predecessor, and GetNext puts out the orphans of a predecessor
-- behind what the vector held.
pub orphan_relation :
    (m : Orphans) (a b p h : ℕ) (next : List ℕ)
    → (linked (add_new a b m) p h ≡ (a == p && b == h || linked m p h))
      × (linked (remove b m) p h ≡ (not (b == h) && linked m p h))
      × (linked (remove_next a m) p h ≡ (not (a == p) && linked m p h))
      × (contains h (get_next a m next) ≡ (contains h next || linked m a h))
orphan_relation m a b p h next = (
  linked-add_new a b p h m,
  linked-remove b p h m,
  linked-remove_next a p h m,
  contains-get_next a h m next,
)
