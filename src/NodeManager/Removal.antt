-- ===== src/NodeManager/Removal.antt =====
-- How the idle nodes stay within their limit: AddIdleNode and RemoveInactiveNodes.
use mathlib.Core.List.{reverse, reverse-cons, reverse-reverse}
use text.Mathlib.Text.{◌==◌ as same_name}
use mamio.Base.{
  ℕ, zero, suc, ◌+◌, ◌≤◌, ◌<◌, ◌≡◌, refl, ap, sym, ◌∙◌, true, false, List, [], ◌∷◌, ◌++◌, none,
  some, arith, length, length-append, ltb, if◌then◌else◌, Key, Bool-cases, inl, inr,
}
use mamio.Base.OrdMap
use mamio.NodeManager.{
  NodeManager, Node, insert_idle, remove_loop, remove_inactive_nodes, add_idle_node, name_of,
  dnseed, max_idle_nodes, max_idle_time,
}
use mamio.NodeManager.Idle.{From, IsSorted, length-insert_idle, insert_idle-IsSorted}

module _ {E : Type 0} where
  From-front : (t : ℕ) (xs ys : List (ℕ × E)) → From t (xs ++ ys) → From t xs
  From-front t [] ys v = tt
  From-front t ((u, e) ∷ xs) ys v = (v.0, From-front t xs ys v.1)

  IsSorted-front : (xs ys : List (ℕ × E)) → IsSorted (xs ++ ys) → IsSorted xs
  IsSorted-front [] ys v = tt
  IsSorted-front ((t, e) ∷ xs) ys v = (From-front t xs ys v.0, IsSorted-front xs ys v.1)

  length-reverse : (m : List (ℕ × E)) → length (reverse m) ≡ length m
  length-reverse [] = refl
  length-reverse (x ∷ m) =
      ap length (reverse-cons x m)
      ∙ omega (arith, length-append (reverse m) (x ∷ []), length-reverse m)

  -- A list that is not empty has a last entry, and a sorted one is sorted before it.
  pub latest :
      (m : List (ℕ × E))
      → 0 < length m
      → IsSorted m
      → (t : ℕ) × (f : E) × (rest : List (ℕ × E)) × (reverse m ≡ (t, f) ∷ rest)
        × IsSorted (reverse rest)
        × (length m ≡ length (reverse rest) + 1)
  latest m pos v = go (reverse m) refl
    where
      go :
          (r : List (ℕ × E))
          → reverse m ≡ r
          → (t : ℕ) × (f : E) × (rest : List (ℕ × E)) × (reverse m ≡ (t, f) ∷ rest)
            × IsSorted (reverse rest)
            × (length m ≡ length (reverse rest) + 1)
      go [] h = absurd (omega (arith, length-reverse m, ap length h))
      go ((t, f) ∷ rest) h =
          let e : m ≡ reverse rest ++ ((t, f) ∷ []) =
            sym (reverse-reverse m) ∙ ap reverse h ∙ reverse-cons (t, f) rest in
          (
            t,
            f,
            rest,
            h,
            IsSorted-front (reverse rest) ((t, f) ∷ []) (rw e at v),
            omega (arith, ap length e, length-append (reverse rest) ((t, f) ∷ [])),
          )

module _ {E D : Type 0} ⦃ke : Key E⦄ where
  -- A seed that is the latest idle node when one has to go keeps RemoveInactiveNodes in its loop: no
  -- number of rounds is enough.
  pub remove_loop_seed :
      (fuel inactive limit t : ℕ) (e : E) (idle : List (ℕ × E)) (nodes : List (E × Node E D))
      → 0 < limit
      → same_name (name_of e nodes) dnseed ≡ true
      → remove_loop fuel inactive limit 0 ((t, e) ∷ idle) nodes ≡ none
  unfolding remove_loop
  remove_loop_seed zero inactive limit t e idle nodes pos seed = refl
  remove_loop_seed (suc fuel) inactive limit t e idle nodes pos seed =
      ground (arith, seed, remove_loop_seed fuel inactive limit t e idle nodes pos seed)

  remove_loop_node :
      (fuel inactive t : ℕ) (e : E) (idle : List (ℕ × E)) (nodes : List (E × Node E D))
      → 2 ≤ fuel
      → same_name (name_of e nodes) dnseed ≡ false
      → remove_loop fuel inactive 1 0 ((t, e) ∷ idle) nodes ≡ some (idle, OrdMap.erase e nodes)
  unfolding remove_loop
  remove_loop_node zero inactive t e idle nodes h node = absurd (omega arith)
  remove_loop_node (suc zero) inactive t e idle nodes h node = absurd (omega arith)
  remove_loop_node (suc (suc fuel)) inactive t e [] nodes h node = ground arith
  remove_loop_node (suc (suc fuel)) inactive t e ((u, f) ∷ idle) nodes h node = ground arith

  -- With one node to remove the loop takes the latest one out, unless that is a seed.
  remove_loop_one :
      (fuel inactive t : ℕ) (e : E) (idle : List (ℕ × E)) (nodes : List (E × Node E D))
      → 2 ≤ fuel
      → remove_loop fuel inactive 1 0 ((t, e) ∷ idle) nodes
        ≡ (if same_name (name_of e nodes) dnseed then none else some (idle, OrdMap.erase e nodes))
  remove_loop_one fuel inactive t e idle nodes h =
      elim (Bool-cases (same_name (name_of e nodes) dnseed)) [
        | inl seed ↦ rw seed (remove_loop_seed fuel inactive 1 t e idle nodes (omega arith) seed)
        | inr node ↦ rw node (remove_loop_node fuel inactive t e idle nodes h node)
      ]

module _ {E A D : Type 0} ⦃ke : Key E⦄ ⦃ka : Key A⦄ where
  -- A node beyond the limit costs the latest idle node its place, the new one too, when that is not
  -- a seed, and AddIdleNode then ends. When it is a seed, the call does not end. The idle nodes are
  -- as many as the limit.
  pub add_idle_node_full :
      (now interval t : ℕ) (e f : E) (m : NodeManager E A D) (rest : List (ℕ × E))
      → length m.map_idle ≡ max_idle_nodes
      → reverse (insert_idle (now + interval) e m.map_idle) ≡ (t, f) ∷ rest
      → add_idle_node now interval e m ≡ (
          if same_name (name_of f m.map_node) dnseed
          then none
          else some (record m { map_idle = reverse rest; map_node = OrdMap.erase f m.map_node }))
  unfolding add_idle_node remove_inactive_nodes
  add_idle_node_full now interval t e f m rest full last =
      let size : length (insert_idle (now + interval) e m.map_idle) ≡ 513 =
        omega (arith, length-insert_idle (now + interval) e m.map_idle) in
      let one = remove_loop_one 514 (now + max_idle_time) t f rest m.map_node (omega arith) in
      let more : ltb max_idle_nodes (length (insert_idle (now + interval) e m.map_idle)) ≡ true =
        ground arith in
      rw (more, size, last, one)
        (elim (Bool-cases (same_name (name_of f m.map_node) dnseed)) [
          | inl seed ↦ rw seed refl
          | inr node ↦ rw node refl
        ])

  -- The idle nodes stand in the order of their times, and are no more than the limit.
  abbrev pub Kept : NodeManager E A D → Type 0
  Kept m = (length m.map_idle ≤ max_idle_nodes) × IsSorted m.map_idle

  pub add_idle_node_fits :
      (now interval : ℕ) (e : E) (m : NodeManager E A D)
      → ltb max_idle_nodes (length (insert_idle (now + interval) e m.map_idle)) ≡ false
      → add_idle_node now interval e m
        ≡ some (record m { map_idle = insert_idle (now + interval) e m.map_idle })
  unfolding add_idle_node
  add_idle_node_fits now interval e m fits = rw fits refl

  pub some-Kept : (m m' : NodeManager E A D) → Kept m → some m ≡ some m' → Kept m'
  some-Kept m m' v h = let p : m ≡ m' = cc in rw p at v

  pub add_idle_node-Kept :
      (now interval : ℕ) (e : E) (m m' : NodeManager E A D)
      → Kept m
      → add_idle_node now interval e m ≡ some m'
      → Kept m'
  add_idle_node-Kept now interval e m m' v h =
      elim (Bool-cases (ltb max_idle_nodes (length (insert_idle (now + interval) e m.map_idle)))) [
        | inl more ↦
            let (t, f, rest, last, sorted, size) =
              latest (insert_idle (now + interval) e m.map_idle) (ground arith)
                (insert_idle-IsSorted (now + interval) e m.map_idle v.1) in
            let (few, _) = v in
            let n : length m.map_idle ≡ max_idle_nodes =
              ground (arith, length-insert_idle (now + interval) e m.map_idle) in
            let full = add_idle_node_full now interval t e f m rest n last in
            elim (Bool-cases (same_name (name_of f m.map_node) dnseed)) [
              | inl seed ↦ absurd (ground (arith, full))
              | inr node ↦
                  some-Kept _ m'
                    (omega (arith, size, length-insert_idle (now + interval) e m.map_idle), sorted)
                    (sym (rw node at full) ∙ h)
            ]
        | inr fits ↦
            some-Kept _ m' (ground arith, insert_idle-IsSorted (now + interval) e m.map_idle v.1)
              (sym (add_idle_node_fits now interval e m fits) ∙ h)
      ]
