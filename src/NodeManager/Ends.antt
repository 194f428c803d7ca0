-- ===== src/NodeManager/Ends.antt =====
-- Histories that name no seed: each of their calls ends.
use text.Mathlib.Text.{◌==◌ as same_name}
use Prim.Native.String.{String}
use mamio.Base.{
  ℕ, ◌≡◌, refl, false, List, [], ◌∷◌, Option, some, arith, Key, Option-cases, inl, inr,
}
use mamio.Base.OrdMap
use mamio.Base.OrdMap.{find-put, find-erase}
use mamio.NodeManager.{
  NodeManager, Node, name_of, dnseed, add_new, remove, clear, employ, ban, empty, put_node,
}
use mamio.NodeManager.Removal.{Kept}
use mamio.NodeManager.Keeps.{remove-Kept, set_data-Kept, employ-Kept, ban-Kept}
use mamio.NodeManager.Run.{Call, step, run}
use mamio.NodeManager.SeedFree.{
  SeedFree, Ends, put-SeedFree, add_idle_node-Ends, dismiss-Ends, remove-SeedFree,
  set_data-SeedFree, employ-SeedFree,
}

module _ {E A D : Type 0} ⦃ke : Key E⦄ ⦃ka : Key A⦄ (address : E → A) where
  -- A call does not name a seed.
  abbrev pub Plain : Call E A D → Type 0
  Plain (Call.added now e name content) = same_name name dnseed ≡ false
  Plain (Call.removed e) = Unit {0}
  Plain (Call.stored e content) = Unit {0}
  Plain Call.cleared = Unit {0}
  Plain (Call.employed now) = Unit {0}
  Plain (Call.dismissed now e force_retry reset) = Unit {0}
  Plain (Call.banned a ban_to) = Unit {0}

  abbrev pub AllPlain : List (Call E A D) → Type 0
  AllPlain [] = Unit {0}
  AllPlain (c ∷ cs) = Plain c × AllPlain cs

  add_new-Ends :
      (now : ℕ) (e : E) (name : String) (content : Option D) (m : NodeManager E A D)
      → same_name name dnseed ≡ false
      → Kept m
      → SeedFree m
      → Ends (add_new address now e name content m)
  unfolding add_new
  add_new-Ends now e name content m plain k v = elim (Option-cases (OrdMap.find e m.map_node)) [
    | inl missing ↦
        let n : Node E D = record { ep = e; name = name; content = content; retries = 0 } in
        let (left, ends, kept, free) =
          add_idle_node-Ends now 0 e (put_node e n m) k (put-SeedFree e n m plain v) in
        rw (missing, add_new, ends, plain) (left, refl, kept, free)
    | inr (n, found) ↦ rw (found, add_new) (m, refl, k, v)
  ]

  step-Ends :
      (c : Call E A D) (m : NodeManager E A D)
      → Plain c
      → Kept m
      → SeedFree m
      → Ends (step address c m)
  unfolding step clear ban name_of OrdMap.find
  step-Ends (Call.added now e name content) m p k v = add_new-Ends now e name content m p k v
  step-Ends (Call.removed e) m p k v = (remove e m, refl, remove-Kept e m k, remove-SeedFree e m v)
  step-Ends (Call.stored e content) m p k v =
      (_, refl, set_data-Kept e content m k, set_data-SeedFree e content m v)
  step-Ends Call.cleared m p k v = (clear m, refl, (omega arith, tt), λ e. refl)
  step-Ends (Call.employed now) m p k v = elim (Option-cases (employ now m)) [
    | inl nothing ↦ rw (nothing, step) (m, refl, k, v)
    | inr ((e, left), taken) ↦
        rw (taken, step)
          (left, refl, employ-Kept now m left e k taken, employ-SeedFree now m left e v taken)
  ]
  step-Ends (Call.dismissed now e force_retry reset) m p k v =
      dismiss-Ends now e force_retry reset m k v
  step-Ends (Call.banned a ban_to) m p k v = (_, refl, ban-Kept address a ban_to m k, v)

  run_from-Ends :
      (cs : List (Call E A D)) (m : NodeManager E A D)
      → AllPlain cs
      → Kept m
      → SeedFree m
      → (left : NodeManager E A D) × (run address cs m ≡ some left)
  unfolding run
  run_from-Ends [] m p k v = (m, refl)
  run_from-Ends (c ∷ cs) m p k v =
      let (next, ends, kept, free) = step-Ends c m p.0 k v in
      let (left, rest) = run_from-Ends cs next p.1 kept free in (left, rw (ends, run) rest)

  -- A history of calls that adds no node under the name of a seed always ends.
  pub run-ends :
      (cs : List (Call E A D))
      → AllPlain cs
      → (left : NodeManager E A D) × (run address cs empty ≡ some left)
  unfolding name_of OrdMap.find
  run-ends cs p = run_from-Ends cs empty p (omega arith, tt) (λ e. refl)
