-- ===== src/EndpointManager/Barred.antt =====
-- Each call of CEndpointManager keeps the nodes of an address out of reach, unless it makes one of
-- them idle earlier.
use mamio.Base.{
  ℕ, zero, suc, ◌+◌, ◌≡◌, ◌⊎◌, ◌&&◌, refl, ap, ◌∙◌, true, false, List, [], ◌∷◌, Option, none, some,
  arith, ltb, Key, Bool-cases, Option-cases, inl, inr, if_cases,
}
use mamio.Base.Int.{ℤ, leb_ℤ}
use mamio.AddressStatus.{AddressStatus, remove_connection}
use mamio.NodeManager
use mamio.NodeManager.{NodeManager, employ, dismiss, add_new, set_data, is_dnseed_address}
use mamio.NodeManager.Keeps.{employ-Kept}
use mamio.NodeManager.Ban.{Late}
use mamio.NodeManager.Barred.{Keyed-empty}
use mamio.NodeManager.Barred.Calls.{
  Barred, Spares, remove-Barred, set_data-Barred, dismiss-Barred, add_new-Barred, ban-Barred,
}
use mamio.EndpointManager.Calls.{
  EndpointManager, nothing, taken, again, endless, fetch_round, fetch_loop, fetch_out_bound,
  try_connection, clear, add_new_out_bound, remove_out_bound, set_out_bound_data, accept_in_bound,
  reward_endpoint, close_endpoint, after_close, set_ban, network_error,
}
use mamio.EndpointManager.Fetch.{employ_first}
use mamio.EndpointManager.Run.{Call, step, run}

module _ {E A D : Type 0} ⦃ke : Key E⦄ ⦃ka : Key A⦄ (address : E → A) (a : A) (until : ℕ) where
  abbrev pub Out : EndpointManager E A D → Type 0
  Out m = Barred address a until m.nodes

  -- What Employ gives is no node of the address, or the time is over.
  employ-Barred :
      (now : ℕ) (e : E) (m m' : NodeManager E A D)
      → Barred address a until m
      → employ now m ≡ some (e, m')
      → Barred address a until m' × Spares address a until now e
  employ-Barred now e m m' v h =
      let (t, rest, front, came, p) = employ_first now m m' e h in
      let late : Late address a until ((t, e) ∷ rest) = rw front at v.late in
      let idle : m'.map_idle ≡ rest = ap (λ (x : NodeManager E A D). x.map_idle) p in
      let same_nodes : m'.map_node ≡ m.map_node = ap (λ (x : NodeManager E A D). x.map_node) p in
      (
        record {
          kept = employ-Kept now m m' e v.kept h;
          keyed = rw same_nodes v.keyed;
          late = rw idle late.1;
        },
        λ same. let le = late.0 same in ground (arith, came),
      )

  -- A round gives a node that Employ gave, or it goes on from the nodes that Dismiss leaves.
  abbrev Goes : ℕ → EndpointManager E A D → Type 0
  Goes now m =
      (fetch_round address now m ≡ nothing m)
      ⊎ ((fetch_round address now m ≡ endless)
          ⊎ ((e : E) × (nodes : NodeManager E A D) × (employ now m.nodes ≡ some (e, nodes))
              × (m' : EndpointManager E A D) × (((fetch_round address now m ≡ taken e m')
                    × (m'.nodes ≡ nodes))
                  ⊎ ((fetch_round address now m ≡ again m')
                      × (dismiss now e false true nodes ≡ some m'.nodes)))))

  goes : (now : ℕ) (m : EndpointManager E A D) → Goes now m
  unfolding fetch_round
  goes now m = elim (Option-cases (employ now m.nodes)) [
    | inl stop ↦ inl (rw (stop, fetch_round) refl)
    | inr ((e, nodes), took) ↦ elim (Bool-cases (try_connection address e nodes m).1) [
      | inl ok ↦ inr (
          inr (
            e,
            nodes,
            took,
            (try_connection address e nodes m).0,
            inl (rw (took, fetch_round, ok) refl, refl),
          ))
      | inr full ↦ elim (Option-cases (dismiss now e false true nodes)) [
        | inl stuck ↦ inr (inl (rw (took, fetch_round, full, stuck) refl))
        | inr (nodes', ends) ↦ inr (
            inr (
              e,
              nodes,
              took,
              record (try_connection address e nodes m).0 { nodes = nodes' },
              inr (rw (took, fetch_round, full, ends) refl, ends),
            ))
      ]
    ]
  ]

  fetch_loop-Barred :
      (fuel now : ℕ) (m m' : EndpointManager E A D) (r : Option E)
      → Out m
      → fetch_loop address fuel now m ≡ some (r, m')
      → Out m' × ((e : E) → r ≡ some e → Spares address a until now e)
  unfolding fetch_loop
  fetch_loop-Barred zero now m m' r v h = cc
  fetch_loop-Barred (suc fuel) now m m' r v h = elim (goes now m) [
    | inl stop ↦
        let p : some (none, m) ≡ some (r, m') = rw (stop, fetch_loop) at h in
        let left : m ≡ m' = cc in
        let gave : none ≡ r = cc in (rw left at v, λ e q. absurd (ground (arith, gave ∙ q)))
    | inr (inl stuck) ↦ absurd (ground (arith, rw (stuck, fetch_loop) at h))
    | inr (inr (e, nodes, took, m1, inl (ok, same))) ↦
        let p : some (some e, m1) ≡ some (r, m') = rw (ok, fetch_loop) at h in
        let left : m1 ≡ m' = cc in
        let gave : some e ≡ r = cc in
        let (after, spares) = employ-Barred now e m.nodes nodes v took in
        let out : Out m1 = rw same after in
        (rw left at out, λ f q. let here : e ≡ f = cc in rw here at spares)
    | inr (inr (e, nodes, took, m1, inr (more, ends))) ↦
        let (after, spares) = employ-Barred now e m.nodes nodes v took in
        fetch_loop-Barred fuel now m1 m' r
          (dismiss-Barred address a until now e false true nodes m1.nodes spares after ends)
          (rw (more, fetch_loop) at h)
  ]

  -- FetchOutBound keeps the nodes of the address out of reach, and gives none of them too early.
  pub fetch_out_bound-Barred :
      (now : ℕ) (m m' : EndpointManager E A D) (r : Option E)
      → Out m
      → fetch_out_bound address now m ≡ some (r, m')
      → Out m' × ((e : E) → r ≡ some e → Spares address a until now e)
  unfolding fetch_out_bound
  fetch_out_bound-Barred now m m' r v h = fetch_loop-Barred _ now m m' r v h

  accept_in_bound-nodes :
      (now : ℕ) (e : E) (m : EndpointManager E A D)
      → (accept_in_bound address now e m).0.nodes ≡ m.nodes
  unfolding accept_in_bound
  accept_in_bound-nodes now e m = ground arith

  some_endpoints : (m m' : EndpointManager E A D) → Out m → some m ≡ some m' → Out m'
  some_endpoints m m' v h = let p : m ≡ m' = cc in rw p at v

  after_close-Barred :
      (now : ℕ) (b : A) (s : AddressStatus) (m : EndpointManager E A D) (nodes : NodeManager E A D)
      → Barred address a until nodes
      → Out (after_close address now b s m nodes)
  after_close-Barred now b s m nodes v =
      let until' = (remove_connection s).ban_to in
      if_cases (Barred address a until) (ltb now until')
        (λ t. ban-Barred address a until b until' nodes v) (λ t. v)

  close_endpoint-Barred :
      (now : ℕ) (e : E) (reason : ℤ) (m m' : EndpointManager E A D)
      → Spares address a until now e
      → Out m
      → close_endpoint address now e reason m ≡ some m'
      → Out m'
  unfolding close_endpoint
  close_endpoint-Barred now e reason m m' spares v h =
      let retry = leb_ℤ reason network_error && leb_ℤ network_error reason in
      elim (Option-cases (dismiss now e retry false m.nodes)) [
        | inl stuck ↦ absurd (ground (arith, rw (close_endpoint, stuck) at h))
        | inr (nodes, ends) ↦
            some_endpoints _ m'
              (after_close-Barred now (address e) _ m nodes
                (dismiss-Barred address a until now e retry false m.nodes nodes spares v ends))
              (rw (close_endpoint, ends) at h)
      ]

  pub set_ban-Barred :
      (now ban_time : ℕ) (addresses : List A) (m : EndpointManager E A D)
      → Out m
      → Out (set_ban address now addresses ban_time m)
  unfolding set_ban
  set_ban-Barred now ban_time [] m v = v
  set_ban-Barred now ban_time (b ∷ rest) m v =
      set_ban-Barred now ban_time rest _ (ban-Barred address a until b (now + ban_time) m.nodes v)

  -- A call that makes no node of the address idle before the time.
  abbrev pub CallSpares : Call E A D → Type 0
  CallSpares (Call.added now e name content) = Spares address a until now e
  CallSpares (Call.closed now e reason) = Spares address a until now e
  CallSpares _ = Unit {0}

  step-Barred :
      (c : Call E A D) (m m' : EndpointManager E A D)
      → CallSpares c
      → Out m
      → step address c m ≡ some m'
      → Out m'
  unfolding step clear NodeManager.clear add_new_out_bound remove_out_bound set_out_bound_data
      reward_endpoint
  step-Barred Call.cleared m m' s v h =
      some_endpoints (clear m) m'
        (record { kept = (omega arith, tt); keyed = Keyed-empty; late = tt }) h
  step-Barred (Call.added now e name content) m m' s v h =
      elim (Option-cases (add_new address now e name content m.nodes)) [
        | inl stuck ↦ absurd (ground (arith, rw (step, add_new_out_bound, stuck) at h))
        | inr (nodes, ends) ↦
            some_endpoints (record m { nodes = nodes }) m'
              (add_new-Barred address a until now e name content m.nodes nodes s v ends)
              (rw (ends) at h)
      ]
  step-Barred (Call.removed e) m m' s v h =
      some_endpoints (remove_out_bound e m) m' (remove-Barred address a until e m.nodes v) h
  step-Barred (Call.stored e content) m m' s v h =
      some_endpoints (set_out_bound_data e content m).0 m'
        (set_data-Barred address a until e content m.nodes v) h
  step-Barred (Call.fetched now) m m' s v h = elim (Option-cases (fetch_out_bound address now m)) [
    | inl stuck ↦ absurd (ground (arith, rw (step, stuck) at h))
    | inr ((r, left), ends) ↦
        some_endpoints left m' (fetch_out_bound-Barred now m left r v ends).0 (rw (step, ends) at h)
  ]
  step-Barred (Call.accepted now e) m m' s v h =
      some_endpoints (accept_in_bound address now e m).0 m' (rw (accept_in_bound-nodes now e m) v) h
  step-Barred (Call.rewarded now e bonus) m m' s v h =
      some_endpoints (reward_endpoint address now e bonus m) m' v h
  step-Barred (Call.closed now e reason) m m' s v h = close_endpoint-Barred now e reason m m' s v h
  step-Barred (Call.banned now addresses ban_time) m m' s v h =
      some_endpoints (set_ban address now addresses ban_time m) m'
        (set_ban-Barred now ban_time addresses m v) h
  step-Barred (Call.unbanned now addresses) m m' s v h = some_endpoints _ m' v h
  step-Barred (Call.all_unbanned now) m m' s v h = some_endpoints _ m' v h
  step-Barred (Call.scored b) m m' s v h = some_endpoints _ m' v h

  abbrev pub AllSpare : List (Call E A D) → Type 0
  AllSpare [] = Unit {0}
  AllSpare (c ∷ cs) = CallSpares c × AllSpare cs

  pub run-Barred :
      (cs : List (Call E A D)) (m m' : EndpointManager E A D)
      → AllSpare cs
      → Out m
      → run address cs m ≡ some m'
      → Out m'
  unfolding run
  run-Barred [] m m' s v h = some_endpoints m m' v h
  run-Barred (c ∷ cs) m m' s v h = elim (Option-cases (step address c m)) [
    | inl stuck ↦ absurd (ground (arith, rw (stuck, run) at h))
    | inr (left, ends) ↦
        run-Barred cs left m' s.1 (step-Barred c m left s.0 v ends) (rw (ends, run) at h)
  ]
