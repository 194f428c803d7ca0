-- ===== src/NodeManager/Ban.antt =====
-- What Ban does to the nodes that Employ may give next.
use mamio.Base.{ℕ, ◌≤◌, ◌≡◌, true, List, [], ◌∷◌, arith, leb, ltb, Key, Bool-cases, inl, inr}
use mamio.NodeManager.{insert_idle, insert_all_idle, ban_loop}
use mamio.NodeManager.Idle.{From, IsSorted}

module _ {E A : Type 0} ⦃ka : Key A⦄ (address : E → A) (a : A) where
  -- No node of the address may be tried before the time.
  abbrev pub Late : ℕ → List (ℕ × E) → Type 0
  Late ban_to [] = Unit {0}
  Late ban_to ((t, e) ∷ m) = (ka.same a (address e) ≡ true → ban_to ≤ t) × Late ban_to m

  From-Late : (ban_to t : ℕ) (m : List (ℕ × E)) → ban_to ≤ t → From t m → Late ban_to m
  From-Late ban_to t [] h v = tt
  From-Late ban_to t ((u, e) ∷ m) h v = (λ _. omega (arith, v.0), From-Late ban_to t m h v.1)

  pub ban_loop-Late :
      (ban_to : ℕ) (m : List (ℕ × E)) → IsSorted m → Late ban_to (ban_loop address a ban_to m).1
  unfolding ban_loop
  ban_loop-Late ban_to [] v = tt
  ban_loop-Late ban_to ((t, e) ∷ m) v = elim (Bool-cases (leb t ban_to)) [
    | inl early ↦ elim (Bool-cases (ka.same a (address e))) [
      | inl here ↦ rw (early, ban_loop) (rw (here, ban_loop) (ban_loop-Late ban_to m v.1))
      | inr other ↦
          rw (early, ban_loop) (rw (other, ban_loop) ((λ h. cc), ban_loop-Late ban_to m v.1))
    ]
    | inr late ↦
        let l : ban_to ≤ t = ground arith in
        rw (late, ban_loop) ((λ _. l), From-Late ban_to t m l v.0)
  ]

  pub insert_idle-Late :
      (ban_to : ℕ) (e : E) (m : List (ℕ × E)) → Late ban_to m → Late ban_to (insert_idle ban_to e m)
  unfolding insert_idle
  insert_idle-Late ban_to e [] v = ((λ _. omega arith), tt)
  insert_idle-Late ban_to e ((t, f) ∷ m) v = elim (Bool-cases (ltb ban_to t)) [
    | inl h ↦ rw (h, insert_idle) ((λ _. omega arith), v)
    | inr h ↦ rw (h, insert_idle) (v.0, insert_idle-Late ban_to e m v.1)
  ]

  pub insert_all_idle-Late :
      (ban_to : ℕ) (es : List E) (m : List (ℕ × E))
      → Late ban_to m
      → Late ban_to (insert_all_idle ban_to es m)
  unfolding insert_all_idle
  insert_all_idle-Late ban_to [] m v = v
  insert_all_idle-Late ban_to (e ∷ es) m v =
      insert_all_idle-Late ban_to es _ (insert_idle-Late ban_to e m v)
