-- ===== src/Cache/Bound.antt =====
-- What CCache promises: its size, and what a key retrieves.
use mamio.Base.{
  ◌+◌, ◌≤◌, ◌<◌, ◌≡◌, refl, inl, inr, ◌⊎◌, List, [], ◌∷◌, ◌++◌, none, some, arith, length,
  length-append, Key, Option-cases, if◌then◌else◌,
}
use mamio.Cache.{Cache, find, assign, inserted, pop_front, add_new, retrieve}

module _ {K V : Type 0} ⦃k : Key K⦄ where
  length-assign : (a : K) (v : V) (m : List (K × V)) → length (assign a v m) ≡ length m
  unfolding assign
  length-assign a v [] = refl
  length-assign a v ((x, w) ∷ m) = ground (arith, length-assign a v m)

  find-assign :
      (a b : K) (v w : V) (m : List (K × V))
      → find a m ≡ some w
      → find b (assign a v m) ≡ (if k.same a b then some v else find b m)
  unfolding find assign
  find-assign a b v w [] e = cc
  find-assign a b v w ((x, u) ∷ m) e =
      ground (arith, find-assign a b v w m, k.same_iff x a, k.same_iff x b, k.same_iff a b)

  find-append :
      (a b : K) (v : V) (m : List (K × V))
      → find a m ≡ none
      → find b (m ++ (a, v) ∷ []) ≡ (if k.same a b then some v else find b m)
  unfolding find
  find-append a b v [] e = refl
  find-append a b v ((x, u) ∷ m) e =
      ground (arith, find-append a b v m, k.same_iff x a, k.same_iff x b, k.same_iff a b)

  find-inserted :
      (a b : K) (v : V) (m : List (K × V))
      → find b (inserted a v m) ≡ (if k.same a b then some v else find b m)
  find-inserted a b v m = elim (Option-cases (find a m)) [
    | inl e ↦ rw (e, inserted) (find-append a b v m e)
    | inr (w, e) ↦ rw (e, inserted) (find-assign a b v w m e)
  ]

  length-inserted : (a : K) (v : V) (m : List (K × V)) → length (inserted a v m) ≤ length m + 1
  length-inserted a v m = elim (Option-cases (find a m)) [
    | inl e ↦ rw (e, inserted) (omega (arith, length-append m ((a, v) ∷ [])))
    | inr (w, e) ↦ rw (e, inserted) (omega (arith, length-assign a v m))
  ]

  length-pop_front_lt : (m : List (K × V)) → 0 < length m → length (pop_front m) + 1 ≡ length m
  length-pop_front_lt [] h = absurd (omega arith)
  length-pop_front_lt (x ∷ m) h = omega arith

  -- When a cache has a limit and is within it, it is within it after AddNew.
  pub length-add_new :
      (a : K) (v : V) (c : Cache K V)
      → 0 < c.max_count
      → length c.entries ≤ c.max_count
      → length (add_new a v c).entries ≤ c.max_count
  unfolding add_new
  length-add_new a v c pos h =
      ground (arith, length-inserted a v c.entries, length-pop_front_lt (inserted a v c.entries))

  -- While the cache has room, or no limit, AddNew is an insertion: the key gets the value, and every
  -- other key keeps its own.
  pub retrieve-add_new :
      (a b : K) (v : V) (c : Cache K V)
      → (c.max_count ≡ 0) ⊎ (length c.entries < c.max_count)
      → retrieve b (add_new a v c) ≡ (if k.same a b then some v else retrieve b c)
  unfolding retrieve add_new
  retrieve-add_new a b v c h =
      ground (arith, find-inserted a b v c.entries, length-inserted a v c.entries)
