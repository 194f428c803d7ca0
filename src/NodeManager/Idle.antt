-- ===== src/NodeManager/Idle.antt =====
-- The multimap of idle nodes: its order, and the times at which an address may be tried.
use mamio.Base.{ℕ, ◌+◌, ◌≤◌, ◌≡◌, List, [], ◌∷◌, arith, length, ltb, Key, Bool-cases, inl, inr}
use mamio.NodeManager.{insert_idle, insert_all_idle, ban_loop, erase_first}

module _ {E : Type 0} where
  -- Every time is at least `t`.
  abbrev pub From : ℕ → List (ℕ × E) → Type 0
  From t [] = Unit {0}
  From t ((u, e) ∷ m) = (t ≤ u) × From t m

  abbrev pub IsSorted : List (ℕ × E) → Type 0
  IsSorted [] = Unit {0}
  IsSorted ((t, e) ∷ m) = From t m × IsSorted m

  pub From-insert_idle :
      (t u : ℕ) (e : E) (m : List (ℕ × E)) → t ≤ u → From t m → From t (insert_idle u e m)
  unfolding insert_idle
  From-insert_idle t u e [] h v = (h, tt)
  From-insert_idle t u e ((w, f) ∷ m) h v = ground (arith, From-insert_idle t u e m h v.1)

  pub From-mono : (t u : ℕ) (m : List (ℕ × E)) → t ≤ u → From u m → From t m
  From-mono t u [] h v = tt
  From-mono t u ((w, f) ∷ m) h v = (omega (arith, v.0), From-mono t u m h v.1)

  pub insert_idle-IsSorted :
      (t : ℕ) (e : E) (m : List (ℕ × E)) → IsSorted m → IsSorted (insert_idle t e m)
  unfolding insert_idle
  insert_idle-IsSorted t e [] v = (tt, tt)
  insert_idle-IsSorted t e ((u, f) ∷ m) v = elim (Bool-cases (ltb t u)) [
    | inl h ↦ let l : t ≤ u = ground arith in rw (h, insert_idle) ((l, From-mono t u m l v.0), v)
    | inr h ↦
        let l : u ≤ t = ground arith in
        rw (h, insert_idle) (From-insert_idle u t e m l v.0, insert_idle-IsSorted t e m v.1)
  ]

  pub insert_all_idle-IsSorted :
      (t : ℕ) (es : List E) (m : List (ℕ × E)) → IsSorted m → IsSorted (insert_all_idle t es m)
  unfolding insert_all_idle
  insert_all_idle-IsSorted t [] m v = v
  insert_all_idle-IsSorted t (e ∷ es) m v =
      insert_all_idle-IsSorted t es _ (insert_idle-IsSorted t e m v)

  pub length-insert_idle :
      (t : ℕ) (e : E) (m : List (ℕ × E)) → length (insert_idle t e m) ≡ length m + 1
  unfolding insert_idle
  length-insert_idle t e [] = omega arith
  length-insert_idle t e ((u, f) ∷ m) = ground (arith, length-insert_idle t e m)

  pub length-insert_all_idle :
      (t : ℕ) (es : List E) (m : List (ℕ × E))
      → length (insert_all_idle t es m) ≡ length m + length es
  unfolding insert_all_idle
  length-insert_all_idle t [] m = omega arith
  length-insert_all_idle t (e ∷ es) m =
      omega (arith, length-insert_all_idle t es (insert_idle t e m), length-insert_idle t e m)

module _ {E : Type 0} ⦃ke : Key E⦄ where
  pub From-erase_first : (t : ℕ) (e : E) (m : List (ℕ × E)) → From t m → From t (erase_first e m)
  unfolding erase_first
  From-erase_first t e [] v = tt
  From-erase_first t e ((u, f) ∷ m) v = ground (arith, From-erase_first t e m v.1)

  pub erase_first-IsSorted : (e : E) (m : List (ℕ × E)) → IsSorted m → IsSorted (erase_first e m)
  unfolding erase_first
  erase_first-IsSorted e [] v = tt
  erase_first-IsSorted e ((u, f) ∷ m) v =
      ground (arith, From-erase_first u e m v.0, erase_first-IsSorted e m v.1)

  pub length-erase_first : (e : E) (m : List (ℕ × E)) → length (erase_first e m) ≤ length m
  unfolding erase_first
  length-erase_first e [] = omega arith
  length-erase_first e ((u, f) ∷ m) = ground (arith, length-erase_first e m)

module _ {E A : Type 0} ⦃ka : Key A⦄ (address : E → A) where
  pub From-ban_loop :
      (t : ℕ) (a : A) (ban_to : ℕ) (m : List (ℕ × E))
      → From t m
      → From t (ban_loop address a ban_to m).1
  unfolding ban_loop
  From-ban_loop t a b [] v = tt
  From-ban_loop t a b ((u, e) ∷ m) v = ground (arith, From-ban_loop t a b m v.1)

  pub ban_loop-IsSorted :
      (a : A) (ban_to : ℕ) (m : List (ℕ × E))
      → IsSorted m
      → IsSorted (ban_loop address a ban_to m).1
  unfolding ban_loop
  ban_loop-IsSorted a b [] v = tt
  ban_loop-IsSorted a b ((u, e) ∷ m) v =
      ground (arith, From-ban_loop u a b m v.0, ban_loop-IsSorted a b m v.1)

  pub length-ban_loop :
      (a : A) (ban_to : ℕ) (m : List (ℕ × E))
      → length (ban_loop address a ban_to m).0 + length (ban_loop address a ban_to m).1 ≡ length m
  unfolding ban_loop
  length-ban_loop a b [] = omega arith
  length-ban_loop a b ((u, e) ∷ m) = ground (arith, length-ban_loop a b m)
