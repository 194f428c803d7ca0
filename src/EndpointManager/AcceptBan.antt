-- ===== src/EndpointManager/AcceptBan.antt =====
-- What SetBan means for AcceptInBound.
use text.Mathlib.Text.{◌==◌ as same_name}
use mamio.Base.{
  zero, suc, not, Option, none, some, Option-cases, ℕ, ◌≤◌, ◌+◌, ◌<◌, ◌≡◌, refl, true, false, List,
  [], ◌∷◌, arith, Key, Bool-cases, inl, inr,
}
use mamio.Base.OrdSet
use mamio.AddressStatus.{in_bound_attempt, add_connection}
use mamio.NodeManager.{employ, dismiss, is_dnseed_address, name_of, dnseed, add_new}
use mamio.EndpointManager.Addresses.{status_of, clear_banned, get_endpoint_score}
use mamio.EndpointManager.Calls.{
  EndpointManager, set_ban, accept_in_bound, Fetched, nothing, taken, again, endless, fetch_round,
  fetch_loop, fetch_out_bound, try_connection, add_new_out_bound, remove_out_bound,
  set_out_bound_data,
}
use mamio.EndpointManager.Run.{Call, step, run}
use mamio.EndpointManager.Ban.{
  attempt_ban_to, connection_ban_to, in_bound_attempt_banned, Holds, Holds-put, Holds-touch,
  clear_banned-Holds, set_ban-ban_to,
}

module _ {E A D : Type 0} ⦃ke : Key E⦄ ⦃ka : Key A⦄ (address : E → A) (a : A) (until : ℕ) where
  set_ban-Holds :
      (now ban_time : ℕ) (addresses : List A) (m : EndpointManager E A D)
      → (OrdSet.contains a addresses ≡ true → until ≤ now + ban_time)
      → Holds a until m.status
      → Holds a until (set_ban address now addresses ban_time m).status
  unfolding set_ban OrdSet.contains
  set_ban-Holds now ban_time [] m h v = v
  set_ban-Holds now ban_time (b ∷ rest) m h v =
      let s = record (status_of b m.status) { ban_to = now + ban_time; last_seen = now } in
      set_ban-Holds now ban_time rest _ (λ listed. h (ground arith))
        (Holds-put a until b s m.status (λ same. h (ground arith)) v)

  accept_in_bound-Holds :
      (now : ℕ) (e : E) (m : EndpointManager E A D)
      → Holds a until m.status
      → Holds a until (accept_in_bound address now e m).0.status
  unfolding accept_in_bound
  accept_in_bound-Holds now e m v =
      let b = address e in
      let s = status_of b m.status in
      let (s', allowed) = in_bound_attempt now s in
      let tried = attempt_ban_to now s in
      elim (Bool-cases (is_dnseed_address b m.nodes)) [
        | inl seed ↦ rw seed (
            Holds-touch a until b (add_connection true true s).0 m.status
              (omega (arith, connection_ban_to true true s)) v)
        | inr plain ↦ elim (Bool-cases allowed) [
          | inr refused ↦ rw (plain, refused) (Holds-touch a until b s' m.status tried v)
          | inl ok ↦
              rw (plain, ok)
                (Holds-touch a until b (add_connection true true s').0 m.status
                  (omega (arith, tried, connection_ban_to true true s')) v)
        ]
      ]

  -- What a round of FetchOutBound leaves.
  abbrev AfterRound : Fetched E A D → Type 0
  AfterRound (nothing m) = Holds a until m.status
  AfterRound (taken e m) = Holds a until m.status
  AfterRound (again m) = Holds a until m.status
  AfterRound endless = Unit {0}

  fetch_round-Holds :
      (now : ℕ) (m : EndpointManager E A D)
      → Holds a until m.status
      → AfterRound (fetch_round address now m)
  unfolding fetch_round
  fetch_round-Holds now m v = elim (Option-cases (employ now m.nodes)) [
    | inl stop ↦ rw (fetch_round, stop) v
    | inr ((e, nodes), took) ↦
        let limited = not (same_name (name_of e nodes.map_node) dnseed) in
        let b = address e in
        let s = status_of b m.status in
        let tried : Holds a until (try_connection address e nodes m).0.status =
          Holds-touch a until b (add_connection false limited s).0 m.status
            (omega (arith, connection_ban_to false limited s)) v in
        elim (Bool-cases (try_connection address e nodes m).1) [
          | inl ok ↦ rw (fetch_round, took, ok) tried
          | inr full ↦ elim (Option-cases (dismiss now e false true nodes)) [
            | inl stuck ↦ rw (fetch_round, took, full, stuck) tt
            | inr (nodes', ends) ↦ rw (fetch_round, took, full, ends) tried
          ]
        ]
  ]

  fetch_loop-Holds :
      (fuel now : ℕ) (m m' : EndpointManager E A D) (r : Option E)
      → Holds a until m.status
      → fetch_loop address fuel now m ≡ some (r, m')
      → Holds a until m'.status
  unfolding fetch_loop
  fetch_loop-Holds zero now m m' r v h = cc
  fetch_loop-Holds (suc fuel) now m m' r v h =
      go (fetch_round address now m) (fetch_round-Holds now m v)
        (λ m1 w q. fetch_loop-Holds fuel now m1 m' r w q) h
    where
      go :
          (f : Fetched E A D)
          → AfterRound f
          → ((m1 : EndpointManager E A D)
              → Holds a until m1.status
              → fetch_loop address fuel now m1 ≡ some (r, m')
              → Holds a until m'.status)
          → elim f as (λ _. Option (Option E × EndpointManager E A D)) [
            | nothing m1 ↦ some (none, m1)
            | taken e m1 ↦ some (some e, m1)
            | again m1 ↦ fetch_loop address fuel now m1
            | endless ↦ none
          ]
            ≡ some (r, m')
          → Holds a until m'.status
      go (nothing m1) w rest p = let q : m1 ≡ m' = cc in rw q at w
      go (taken e m1) w rest p = let q : m1 ≡ m' = cc in rw q at w
      go (again m1) w rest p = rest m1 w p
      go endless w rest p = cc

  -- A call that does not lift the ban: it does not clear the statuses or clean them, and a ban of the
  -- address that it sets or lifts is not an earlier one.
  abbrev pub CallHolds : Call E A D → Type 0
  CallHolds Call.cleared = ⊥
  CallHolds (Call.rewarded now e bonus) = ⊥
  CallHolds (Call.closed now e reason) = ⊥
  CallHolds (Call.banned now addresses ban_time) =
      OrdSet.contains a addresses ≡ true → until ≤ now + ban_time
  CallHolds (Call.unbanned now addresses) = OrdSet.contains a addresses ≡ false
  CallHolds (Call.all_unbanned now) = ⊥
  CallHolds _ = Unit {0}

  some-Holds :
      (m m' : EndpointManager E A D)
      → Holds a until m.status
      → some m ≡ some m'
      → Holds a until m'.status
  some-Holds m m' v h = let p : m ≡ m' = cc in rw p at v

  step-Holds :
      (c : Call E A D) (m m' : EndpointManager E A D)
      → CallHolds c
      → Holds a until m.status
      → step address c m ≡ some m'
      → Holds a until m'.status
  unfolding step add_new_out_bound remove_out_bound set_out_bound_data get_endpoint_score
      fetch_out_bound
  step-Holds Call.cleared m m' s v h = absurd s
  step-Holds (Call.added now e name content) m m' s v h =
      elim (Option-cases (add_new address now e name content m.nodes)) [
        | inl stuck ↦ absurd (ground (arith, rw (step, add_new_out_bound, stuck) at h))
        | inr (nodes, ends) ↦ some-Holds (record m { nodes = nodes }) m' v (rw (ends) at h)
      ]
  step-Holds (Call.removed e) m m' s v h = some-Holds (remove_out_bound e m) m' v h
  step-Holds (Call.stored e content) m m' s v h =
      some-Holds (set_out_bound_data e content m).0 m' v h
  step-Holds (Call.fetched now) m m' s v h = elim (Option-cases (fetch_out_bound address now m)) [
    | inl stuck ↦ absurd (ground (arith, rw (step, stuck) at h))
    | inr ((r, left), ends) ↦
        some-Holds left m' (fetch_loop-Holds _ now m left r v ends) (rw (step, ends) at h)
  ]
  step-Holds (Call.accepted now e) m m' s v h =
      some-Holds (accept_in_bound address now e m).0 m' (accept_in_bound-Holds now e m v) h
  step-Holds (Call.rewarded now e bonus) m m' s v h = absurd s
  step-Holds (Call.closed now e reason) m m' s v h = absurd s
  step-Holds (Call.banned now addresses ban_time) m m' s v h =
      some-Holds (set_ban address now addresses ban_time m) m'
        (set_ban-Holds now ban_time addresses m s v) h
  step-Holds (Call.unbanned now addresses) m m' s v h =
      some-Holds (record m { status = clear_banned now addresses m.status }) m'
        (clear_banned-Holds a until now addresses m.status s v) h
  step-Holds (Call.all_unbanned now) m m' s v h = absurd s
  step-Holds (Call.scored b) m m' s v h =
      some-Holds (record m { status = (get_endpoint_score b m.status).1 }) m'
        (Holds-touch a until b (status_of b m.status) m.status (omega arith) v) h

  abbrev pub AllHold : List (Call E A D) → Type 0
  AllHold [] = Unit {0}
  AllHold (c ∷ cs) = CallHolds c × AllHold cs

  run-Holds :
      (cs : List (Call E A D)) (m m' : EndpointManager E A D)
      → AllHold cs
      → Holds a until m.status
      → run address cs m ≡ some m'
      → Holds a until m'.status
  unfolding run
  run-Holds [] m m' s v h = some-Holds m m' v h
  run-Holds (c ∷ cs) m m' s v h = elim (Option-cases (step address c m)) [
    | inl stuck ↦ absurd (ground (arith, rw (stuck, run) at h))
    | inr (left, ends) ↦
        run-Holds cs left m' s.1 (step-Holds c m left s.0 v ends) (rw (ends, run) at h)
  ]

module _ {E A D : Type 0} ⦃ke : Key E⦄ ⦃ka : Key A⦄ (address : E → A) where
  -- After SetBan of an address and any history of calls without Clear, RewardEndpoint, CloseEndpoint
  -- and ClearAllBanned, in which no ClearBanned names the address and no SetBan of it ends earlier,
  -- AcceptInBound refuses every endpoint of the address before the end of the ban, unless the
  -- address is then that of a seed.
  pub accept_in_bound-set_ban :
      (after : List (Call E A D)) (now ban_time later : ℕ) (e : E) (addresses : List A)
      (m m' : EndpointManager E A D)
      → OrdSet.contains (address e) addresses ≡ true
      → AllHold address (address e) (now + ban_time) after
      → run address after (set_ban address now addresses ban_time m) ≡ some m'
      → is_dnseed_address (address e) m'.nodes ≡ false
      → later < now + ban_time
      → (accept_in_bound address later e m').1 ≡ false
  unfolding accept_in_bound
  accept_in_bound-set_ban after now ban_time later e addresses m m' listed hold ran plain early =
      let a = address e in
      let until = now + ban_time in
      let began : Holds a until (set_ban address now addresses ban_time m).status =
        omega (arith, set_ban-ban_to address now ban_time a addresses m listed) in
      let still = run-Holds address a until after _ m' hold began ran in
      let banned =
        in_bound_attempt_banned later (status_of a m'.status) (omega (arith, still, early)) in
      rw (plain, banned) refl
