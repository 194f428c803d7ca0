-- ===== src/EndpointManager/Fetch.antt =====
-- FetchOutBound comes to an end: each round that gives nothing moves a node into the future.
use mamio.Base.{
  ℕ, zero, suc, ◌+◌, ◌≤◌, ◌<◌, ◌≡◌, ◌⊎◌, refl, ap, sym, ◌∙◌, true, false, List, [], ◌∷◌, Option,
  none, some, arith, length, leb, if◌then◌else◌, Key, Bool-cases, Option-cases, inl, inr,
}
use mamio.Base.OrdMap
use mamio.NodeManager.{
  NodeManager, Node, insert_idle, employ, dismiss, max_idle_nodes, retry_interval_base,
}
use mamio.NodeManager.Idle.{length-insert_idle}
use mamio.NodeManager.Removal.{add_idle_node_fits}
use mamio.EndpointManager.Calls.{
  EndpointManager, nothing, taken, again, fetch_round, fetch_loop, fetch_out_bound, try_connection,
}

module _ {E : Type 0} where
  -- How many nodes may be tried now.
  abbrev due : ℕ → List (ℕ × E) → ℕ
  due now [] = 0
  due now ((t, e) ∷ m) = (if leb t now then 1 else 0) + due now m

  due-insert_idle :
      (now t : ℕ) (e : E) (m : List (ℕ × E)) → now < t → due now (insert_idle t e m) ≡ due now m
  unfolding insert_idle
  due-insert_idle now t e [] h = ground arith
  due-insert_idle now t e ((u, f) ∷ m) h = ground (arith, due-insert_idle now t e m h)

  due-length : (now : ℕ) (m : List (ℕ × E)) → due now m ≤ length m
  due-length now [] = omega arith
  due-length now ((t, e) ∷ m) = ground (arith, due-length now m)

module _ {E A D : Type 0} ⦃ke : Key E⦄ ⦃ka : Key A⦄ where
  -- What Employ takes is the first idle node, whose time has come.
  pub employ_first :
      (now : ℕ) (m m' : NodeManager E A D) (e : E)
      → employ now m ≡ some (e, m')
      → (t : ℕ) × (rest : List (ℕ × E)) × (m.map_idle ≡ (t, e) ∷ rest)
        × (leb t now ≡ true)
        × (m' ≡ record m { map_idle = rest })
  unfolding employ
  employ_first now m m' e h = go m.map_idle refl h
    where
      go :
          (idle : List (ℕ × E))
          → m.map_idle ≡ idle
          → elim idle as (λ _. Option (E × NodeManager E A D)) [
            | [] ↦ none
            | (t, e) ∷ rest ↦ if leb t now then some (e, record m { map_idle = rest }) else none
          ]
            ≡ some (e, m')
          → (t : ℕ) × (rest : List (ℕ × E)) × (m.map_idle ≡ (t, e) ∷ rest)
            × (leb t now ≡ true)
            × (m' ≡ record m { map_idle = rest })
      go [] q p = cc
      go ((t, f) ∷ rest) q p = elim (Bool-cases (leb t now)) [
        | inl due_now ↦ (t, rest, ground (arith, due_now), due_now, ground (arith, due_now))
        | inr later ↦ absurd (ground (arith, later))
      ]

  -- A node that is dismissed with a reset goes behind the nodes of the next 30 seconds.
  dismiss_reset :
      (now : ℕ) (e : E) (m : NodeManager E A D)
      → length m.map_idle < max_idle_nodes
      → (dismiss now e false true m ≡ some m)
        ⊎ ((n : Node E D) × (OrdMap.find e m.map_node ≡ some n)
            × (dismiss now e false true m
                ≡ some (record m {
                  map_idle = insert_idle (now + retry_interval_base) n.ep m.map_idle;
                })))
  unfolding dismiss
  dismiss_reset now e m room = elim (Option-cases (OrdMap.find e m.map_node)) [
    | inl missing ↦ inl (rw (missing, dismiss) refl)
    | inr (n, found) ↦ inr (
      n,
      found,
      rw (found, dismiss)
          (add_idle_node_fits now retry_interval_base n.ep m
            (ground (arith, length-insert_idle (now + retry_interval_base) n.ep m.map_idle))),
    )
  ]

  some_same : (m m' : NodeManager E A D) → some m ≡ some m' → m ≡ m'
  some_same m m' h = cc

  idle_of : (m m' : NodeManager E A D) → some m ≡ some m' → m.map_idle ≡ m'.map_idle
  idle_of m m' h = ap (λ (x : NodeManager E A D). x.map_idle) (some_same m m' h)

  dismiss_ends :
      (now : ℕ) (e : E) (m : NodeManager E A D)
      → length m.map_idle < max_idle_nodes
      → (m' : NodeManager E A D) × (dismiss now e false true m ≡ some m')
  dismiss_ends now e m room = elim (dismiss_reset now e m room) [
    | inl same ↦ (m, same)
    | inr (n, found, moved) ↦ (_, moved)
  ]

-- How a round goes on: nothing is due, a node is taken, or its address has a connection and the
-- node is dismissed.
module _ {E A D : Type 0} ⦃ke : Key E⦄ ⦃ka : Key A⦄ (address : E → A) where
  abbrev RoundGoes : ℕ → EndpointManager E A D → Type 0
  RoundGoes now m =
      (fetch_round address now m ≡ nothing m)
      ⊎ ((e : E) × (nodes : NodeManager E A D) × (employ now m.nodes ≡ some (e, nodes))
          × (((m' : EndpointManager E A D) × (fetch_round address now m ≡ taken e m'))
              ⊎ ((m' : EndpointManager E A D) × (fetch_round address now m ≡ again m')
                  × (dismiss now e false true nodes ≡ some m'.nodes))))

  round_goes :
      (now : ℕ) (m : EndpointManager E A D)
      → length m.nodes.map_idle ≤ max_idle_nodes
      → RoundGoes now m
  unfolding fetch_round
  round_goes now m few = elim (Option-cases (employ now m.nodes)) [
    | inl stop ↦ inl (rw (stop, fetch_round) refl)
    | inr ((e, nodes), took) ↦
        let (t, rest, front, _, left) = employ_first now m.nodes nodes e took in
        let room : length nodes.map_idle < max_idle_nodes =
          omega
            (arith, few, ap length front, ap (λ (x : NodeManager E A D). length x.map_idle) left) in
        inr (
          e,
          nodes,
          took,
          elim (Bool-cases (try_connection address e nodes m).1) [
            | inl ok ↦ inl ((try_connection address e nodes m).0, rw (took, fetch_round, ok) refl)
            | inr full ↦
                let (nodes', ends) = dismiss_ends now e nodes room in
                inr (
                  record (try_connection address e nodes m).0 { nodes = nodes' },
                  rw (took, fetch_round, full, ends) refl,
                  ends,
                )
          ],
        )
  ]

  -- A round that goes on leaves one node fewer that is due, and no more idle nodes.
  round_due :
      (now : ℕ) (e : E) (m nodes left : NodeManager E A D)
      → length m.map_idle ≤ max_idle_nodes
      → employ now m ≡ some (e, nodes)
      → dismiss now e false true nodes ≡ some left
      → (due now left.map_idle + 1 ≤ due now m.map_idle) × (length left.map_idle ≤ max_idle_nodes)
  round_due now e m nodes left few took ends =
      let (t, rest, front, came, p) = employ_first now m nodes e took in
      let idle : nodes.map_idle ≡ rest = ap (λ (x : NodeManager E A D). x.map_idle) p in
      let before : due now m.map_idle ≡ 1 + due now rest = rw (front, came) refl in
      let size : length nodes.map_idle < max_idle_nodes =
        omega (arith, few, ap length front, ap length idle) in
      let due_rest : due now nodes.map_idle ≡ due now rest = ap (due now) idle in
      elim (dismiss_reset now e nodes size) [
        | inl same ↦
            let q : left.map_idle ≡ nodes.map_idle = idle_of left nodes (sym ends ∙ same) in
            (omega (arith, before, due_rest, ap (due now) q), omega (arith, ap length q))
        | inr (n, found, moved) ↦
            let q : left.map_idle ≡ insert_idle (now + retry_interval_base) n.ep nodes.map_idle =
              idle_of left
                (record nodes {
                  map_idle = insert_idle (now + retry_interval_base) n.ep nodes.map_idle;
                })
                (sym ends ∙ moved) in
            (
              omega (
                arith,
                before,
                due_rest,
                ap (due now) q,
                due-insert_idle now (now + retry_interval_base) n.ep nodes.map_idle (omega arith),
              ),
              omega (
                arith,
                ap length q,
                length-insert_idle (now + retry_interval_base) n.ep nodes.map_idle,
              ),
            )
      ]

  fetch_loop_ends :
      (fuel now : ℕ) (m : EndpointManager E A D)
      → length m.nodes.map_idle ≤ max_idle_nodes
      → due now m.nodes.map_idle < fuel
      → (r : Option E × EndpointManager E A D) × (fetch_loop address fuel now m ≡ some r)
  unfolding fetch_loop
  fetch_loop_ends zero now m few enough = absurd (omega arith)
  fetch_loop_ends (suc fuel) now m few enough = elim (round_goes now m few) [
    | inl stop ↦ ((none, m), rw (stop, fetch_loop) refl)
    | inr (e, nodes, took, inl (m', goes)) ↦ ((some e, m'), rw (goes, fetch_loop) refl)
    | inr (e, nodes, took, inr (m', goes, ends)) ↦
        let (fewer, size) = round_due now e m.nodes nodes m'.nodes few took ends in
        let (r, p) = fetch_loop_ends fuel now m' size (omega (arith, fewer)) in
        (r, rw (goes, fetch_loop) p)
  ]

  -- FetchOutBound ends when there are at most MAX_IDLENODES idle nodes, as there are after any history
  -- of calls: a round for each of them, and one more, is enough.
  pub fetch_out_bound_ends :
      (now : ℕ) (m : EndpointManager E A D)
      → length m.nodes.map_idle ≤ max_idle_nodes
      → (r : Option E × EndpointManager E A D) × (fetch_out_bound address now m ≡ some r)
  unfolding fetch_out_bound
  fetch_out_bound_ends now m few =
      fetch_loop_ends (length m.nodes.map_idle + 1) now m few
        (omega (arith, due-length now m.nodes.map_idle))
