-- ===== src/NodeManager/SeedFree.antt =====
-- Calls that end, and leave no seed, on a node manager that knows no seed.
use text.Mathlib.Text.{◌==◌ as same_name}
use mamio.Base.{
  ℕ, ◌+◌, ◌*◌, ◌^◌, ◌≡◌, refl, sym, Bool, false, List, [], ◌∷◌, Option, none, some, arith, length,
  ltb, leb, if◌then◌else◌, Key, Bool-cases, Option-cases, inl, inr,
}
use mamio.Base.OrdMap
use mamio.Base.OrdMap.{find-put, find-erase}
use mamio.NodeManager.{
  NodeManager, Node, insert_idle, add_idle_node, name_of, dnseed, remove, set_data, employ, dismiss,
  put_node, max_retries, retry_interval_base, max_idle_nodes,
}
use mamio.NodeManager.Idle.{insert_idle-IsSorted, length-insert_idle}
use mamio.NodeManager.Removal.{
  Kept, add_idle_node-Kept, add_idle_node_full, add_idle_node_fits, latest,
}

module _ {E D : Type 0} ⦃ke : Key E⦄ where
  name_of-put :
      (e f : E) (n : Node E D) (nodes : List (E × Node E D))
      → name_of f (OrdMap.put e n nodes) ≡ (if ke.same e f then n.name else name_of f nodes)
  unfolding name_of
  name_of-put e f n nodes =
      rw (find-put e f n nodes, name_of)
        (elim (Bool-cases (ke.same e f)) [ inl same ↦ rw same refl | inr other ↦ rw other refl ])

  name_of-erase :
      (e f : E) (nodes : List (E × Node E D))
      → name_of f (OrdMap.erase e nodes) ≡ (if ke.same e f then "" else name_of f nodes)
  unfolding name_of
  name_of-erase e f nodes =
      rw (find-erase e f nodes, name_of)
        (elim (Bool-cases (ke.same e f)) [ inl same ↦ rw same refl | inr other ↦ rw other refl ])

module _ {E A D : Type 0} ⦃ke : Key E⦄ ⦃ka : Key A⦄ where
  -- No node that the manager knows is a seed.
  abbrev pub SeedFree : NodeManager E A D → Type 0
  SeedFree m = (e : E) → same_name (name_of e m.map_node) dnseed ≡ false

  pub put-SeedFree :
      (e : E) (n : Node E D) (m : NodeManager E A D)
      → same_name n.name dnseed ≡ false
      → SeedFree m
      → SeedFree (put_node e n m)
  put-SeedFree e n m plain v f =
      rw (name_of-put e f n m.map_node)
        (elim (Bool-cases (ke.same e f)) [ inl same ↦ rw same plain | inr other ↦ rw other (v f) ])

  erase-SeedFree :
      (e : E) (m : NodeManager E A D)
      → SeedFree m
      → SeedFree (record m { map_node = OrdMap.erase e m.map_node })
  erase-SeedFree e m v f =
      rw (name_of-erase e f m.map_node)
        (elim (Bool-cases (ke.same e f)) [ inl same ↦ rw same refl | inr other ↦ rw other (v f) ])

  -- A call that ended, and what it left.
  abbrev pub Ends : Option (NodeManager E A D) → Type 0
  Ends r = (m : NodeManager E A D) × (r ≡ some m) × Kept m × SeedFree m

  pub add_idle_node-Ends :
      (now interval : ℕ) (e : E) (m : NodeManager E A D)
      → Kept m
      → SeedFree m
      → Ends (add_idle_node now interval e m)
  add_idle_node-Ends now interval e m k v =
      elim (Bool-cases (ltb max_idle_nodes (length (insert_idle (now + interval) e m.map_idle)))) [
        | inl more ↦
            let (t, f, rest, last, sorted, size) =
              latest (insert_idle (now + interval) e m.map_idle) (ground arith)
                (insert_idle-IsSorted (now + interval) e m.map_idle k.1) in
            let (few, _) = k in
            let n : length m.map_idle ≡ max_idle_nodes =
              ground (arith, length-insert_idle (now + interval) e m.map_idle) in
            let full = rw (v f) at (add_idle_node_full now interval t e f m rest n last) in
            (_, full, add_idle_node-Kept now interval e m _ k full, erase-SeedFree f m v)
        | inr fits ↦
            let rest = add_idle_node_fits now interval e m fits in
            (_, rest, add_idle_node-Kept now interval e m _ k rest, v)
      ]

  -- A node that is known keeps its name.
  found_plain :
      (e : E) (n : Node E D) (m : NodeManager E A D)
      → OrdMap.find e m.map_node ≡ some n
      → SeedFree m
      → same_name n.name dnseed ≡ false
  unfolding name_of
  found_plain e n m found v = rw (found, name_of) at (v e)

  pub dismiss-Ends :
      (now : ℕ) (e : E) (force_retry reset : Bool) (m : NodeManager E A D)
      → Kept m
      → SeedFree m
      → Ends (dismiss now e force_retry reset m)
  unfolding dismiss
  dismiss-Ends now e force_retry reset m k v = elim (Option-cases (OrdMap.find e m.map_node)) [
    | inl missing ↦ rw (missing, dismiss) (m, refl, k, v)
    | inr (n, found) ↦
        let plain = found_plain e n m found v in
        let retries = if force_retry then 0 else n.retries + 1 in
        elim (Bool-cases reset) [
          | inl again ↦
              rw (found, dismiss, again) (add_idle_node-Ends now retry_interval_base n.ep m k v)
          | inr normal ↦
              rw (found, dismiss, normal, plain)
                (elim (Bool-cases (leb retries max_retries)) [
                  | inl again ↦ rw again (
                      add_idle_node-Ends now (retry_interval_base * 2 ^ retries) n.ep
                        (put_node e (record n { retries = retries }) m) k
                        (put-SeedFree e (record n { retries = retries }) m plain v))
                  | inr over ↦ rw over (_, refl, k, erase-SeedFree e m v)
                ])
        ]
  ]

  pub remove-SeedFree : (e : E) (m : NodeManager E A D) → SeedFree m → SeedFree (remove e m)
  unfolding remove
  remove-SeedFree e m v = elim (Option-cases (OrdMap.find e m.map_node)) [
    | inl missing ↦ rw (missing, remove) v
    | inr (n, found) ↦ rw (found, remove) (erase-SeedFree e m v)
  ]

  pub set_data-SeedFree :
      (e : E) (content : Option D) (m : NodeManager E A D)
      → SeedFree m
      → SeedFree (set_data e content m).0
  unfolding set_data
  set_data-SeedFree e content m v = elim (Option-cases (OrdMap.find e m.map_node)) [
    | inl missing ↦ rw (missing, set_data) v
    | inr (n, found) ↦
        rw (found, set_data)
          (put-SeedFree e (record n { content = content }) m (found_plain e n m found v) v)
  ]

  pub employ-SeedFree :
      (now : ℕ) (m m' : NodeManager E A D) (e : E)
      → SeedFree m
      → employ now m ≡ some (e, m')
      → SeedFree m'
  unfolding employ
  employ-SeedFree now m m' e v h =
      let p : m'.map_node ≡ m.map_node = go m.map_idle h in rw (sym p) at v
    where
      go :
          (idle : List (ℕ × E))
          → elim idle as (λ _. Option (E × NodeManager E A D)) [
            | [] ↦ none
            | (t, e) ∷ rest ↦ if leb t now then some (e, record m { map_idle = rest }) else none
          ]
            ≡ some (e, m')
          → m'.map_node ≡ m.map_node
      go [] p = cc
      go ((t, f) ∷ rest) p = ground (arith, p)
