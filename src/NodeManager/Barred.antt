-- ===== src/NodeManager/Barred.antt =====
-- How long the nodes of an address stay out of reach: each call of CNodeManager keeps the idle nodes
-- of an address late, unless it makes one of them idle earlier.
pub mod Calls
use mathlib.Core.List.{reverse, reverse-cons, reverse-reverse}
use mamio.Base.{
  ℕ, ◌≤◌, ◌≡◌, ap, sym, ◌∙◌, true, List, [], ◌∷◌, ◌++◌, none, some, arith, leb, ltb, Key,
  Bool-cases, inl, inr,
}
use mamio.Base.OrdMap
use mamio.Base.OrdMap.{find-put, find-erase}
use mamio.NodeManager.{Node, insert_idle, erase_first, ban_loop, insert_all_idle}
use mamio.NodeManager.Ban.{Late}

module _ {E D : Type 0} ⦃ke : Key E⦄ where
  -- Every node is stored under its endpoint.
  abbrev pub Keyed : List (E × Node E D) → Type 0
  Keyed nodes = (e : E) (n : Node E D) → OrdMap.find e nodes ≡ some n → n.ep ≡ e

  pub Keyed-empty : Keyed []
  unfolding OrdMap.find
  Keyed-empty e n found = absurd (ground arith)

  pub Keyed-put :
      (e : E) (n : Node E D) (nodes : List (E × Node E D))
      → n.ep ≡ e
      → Keyed nodes
      → Keyed (OrdMap.put e n nodes)
  Keyed-put e n nodes p v f l h = elim (Bool-cases (ke.same e f)) [
    | inl here ↦
        let q : some n ≡ some l = sym (rw here at (find-put e f n nodes)) ∙ h in
        let r : n ≡ l = cc in
        let s : e ≡ f = (ke.same_iff e f).0 here in ap (λ (x : Node E D). x.ep) (sym r) ∙ p ∙ s
    | inr other ↦ v f l (sym (rw other at (find-put e f n nodes)) ∙ h)
  ]

  pub Keyed-erase :
      (e : E) (nodes : List (E × Node E D)) → Keyed nodes → Keyed (OrdMap.erase e nodes)
  Keyed-erase e nodes v f l h = elim (Bool-cases (ke.same e f)) [
    | inl here ↦
        let q : none ≡ some l = sym (rw here at (find-erase e f nodes)) ∙ h in absurd (ground arith)
    | inr other ↦ v f l (sym (rw other at (find-erase e f nodes)) ∙ h)
  ]

module _ {E A : Type 0} ⦃ka : Key A⦄ (address : E → A) (a : A) (until : ℕ) where
  pub insert_idle-Late :
      (t : ℕ) (e : E) (m : List (ℕ × E))
      → (ka.same a (address e) ≡ true → until ≤ t)
      → Late address a until m
      → Late address a until (insert_idle t e m)
  unfolding insert_idle
  insert_idle-Late t e [] h v = (h, tt)
  insert_idle-Late t e ((u, f) ∷ m) h v = elim (Bool-cases (ltb t u)) [
    | inl less ↦ rw (less, insert_idle) (h, v)
    | inr more ↦ rw (more, insert_idle) (v.0, insert_idle-Late t e m h v.1)
  ]

  Late-front : (xs ys : List (ℕ × E)) → Late address a until (xs ++ ys) → Late address a until xs
  Late-front [] ys v = tt
  Late-front ((t, e) ∷ xs) ys v = (v.0, Late-front xs ys v.1)

  pub Late-reverse :
      (m rest : List (ℕ × E)) (t : ℕ) (f : E)
      → reverse m ≡ (t, f) ∷ rest
      → Late address a until m
      → Late address a until (reverse rest)
  Late-reverse m rest t f h v =
      let e : m ≡ reverse rest ++ ((t, f) ∷ []) =
        sym (reverse-reverse m) ∙ ap reverse h ∙ reverse-cons (t, f) rest in
      Late-front (reverse rest) ((t, f) ∷ []) (rw e at v)

  -- What Ban takes out and puts back, for an address and an end of its own.
  abbrev pub AllIn : A → ℕ → List E → Type 0
  AllIn b ban_to [] = Unit {0}
  AllIn b ban_to (e ∷ es) = (ka.same a (address e) ≡ true → until ≤ ban_to) × AllIn b ban_to es

  pub ban_other-Late :
      (b : A) (ban_to : ℕ) (m : List (ℕ × E))
      → Late address a until m
      → AllIn b ban_to (ban_loop address b ban_to m).0
        × Late address a until (ban_loop address b ban_to m).1
  unfolding ban_loop
  ban_other-Late b ban_to [] v = (tt, tt)
  ban_other-Late b ban_to ((t, e) ∷ m) v =
      let (taken, left) = ban_other-Late b ban_to m v.1 in
      elim (Bool-cases (leb t ban_to)) [
        | inl early ↦ elim (Bool-cases (ka.same b (address e))) [
          | inl here ↦
              rw (early, ban_loop)
                (rw (here, ban_loop) ((λ same. let le = v.0 same in ground arith, taken), left))
          | inr other ↦ rw (early, ban_loop) (rw (other, ban_loop) (taken, (v.0, left)))
        ]
        | inr late ↦ rw (late, ban_loop) (tt, v)
      ]

  pub insert_others-Late :
      (b : A) (ban_to : ℕ) (es : List E) (m : List (ℕ × E))
      → AllIn b ban_to es
      → Late address a until m
      → Late address a until (insert_all_idle ban_to es m)
  unfolding insert_all_idle
  insert_others-Late b ban_to [] m h v = v
  insert_others-Late b ban_to (e ∷ es) m h v =
      insert_others-Late b ban_to es _ h.1 (insert_idle-Late ban_to e m h.0 v)

module _ {E A : Type 0} ⦃ke : Key E⦄ ⦃ka : Key A⦄ (address : E → A) (a : A) (until : ℕ) where
  pub erase_first-Late :
      (e : E) (m : List (ℕ × E)) → Late address a until m → Late address a until (erase_first e m)
  unfolding erase_first
  erase_first-Late e [] v = tt
  erase_first-Late e ((u, f) ∷ m) v = elim (Bool-cases (ke.same f e)) [
    | inl here ↦ rw (here, erase_first) v.1
    | inr other ↦ rw (other, erase_first) (v.0, erase_first-Late e m v.1)
  ]
