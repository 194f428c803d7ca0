-- ===== src/EndpointManager/Calls.antt =====
-- The calls of CEndpointManager.
use text.Mathlib.Text.{◌==◌ as same_name}
use Prim.Native.String.{String}
use mathlib.Core.Option
use mamio.Base.{
  ℕ, zero, suc, ◌+◌, ◌-◌, Bool, true, false, not, ◌&&◌, ◌||◌, List, [], ◌∷◌, ◌++◌, map, Option,
  none, some, ltb, if◌then◌else◌, length, get_or, take, Key,
}
use mamio.Base.Int.{ℤ, pos, pos_part, ◌-ℤ◌, leb_ℤ, ltb_ℤ}
use mamio.Base.OrdMap
use mamio.AddressStatus.{
  AddressStatus, in_bound_attempt, add_connection, remove_connection, reward, penalize,
}
use mamio.NodeManager
use mamio.NodeManager.{NodeManager, Node, name_of, dnseed, employ, dismiss, is_dnseed_address}
use mamio.EndpointManager.Addresses.{status_of, clean_inactive_address}

pub record EndpointManager (E A D : Type 0) : Type 0 where
  pub status : List (A × AddressStatus)
  pub nodes : NodeManager E A D

pub record NodeAvail (E D : Type 0) : Type 0 where
  pub ep : E
  pub node_data : Option D
  pub time : ℕ

abbrev pub num_bonus : ℕ
num_bonus = 4

abbrev pub num_close_reasons : ℕ
num_close_reasons = 6

abbrev pub network_error : ℤ
network_error = pos 2

-- An index outside the table is taken for 0.
abbrev pub table_index : ℤ → ℕ → ℕ
table_index index size = if ltb_ℤ index (pos 0) || leb_ℤ (pos size) index then 0 else pos_part index

abbrev pub award : List ℕ
award = 1 ∷ 2 ∷ 3 ∷ 5 ∷ []

abbrev pub lost : List ℕ
lost = 0 ∷ 1 ∷ 2 ∷ 2 ∷ 10 ∷ 25 ∷ []

-- The multimap from the negated score: a new entry goes behind those of its key.
unfoldable pub insert_score :
    {E D : Type 0} → ℤ → NodeAvail E D → List (ℤ × NodeAvail E D) → List (ℤ × NodeAvail E D)
insert_score k n [] = (k, n) ∷ []
insert_score k n ((j, p) ∷ m) =
    if ltb_ℤ k j then (k, n) ∷ (j, p) ∷ m else (j, p) ∷ insert_score k n m

-- How a round of FetchOutBound goes on.
pub data Fetched (E A D : Type 0) : Type 0 where
  nothing : EndpointManager E A D → Fetched E A D
  taken : E → EndpointManager E A D → Fetched E A D
  again : EndpointManager E A D → Fetched E A D
  endless : Fetched E A D

module _ {E A D : Type 0} ⦃ke : Key E⦄ ⦃ka : Key A⦄ where
  abbrev pub put_status : A → AddressStatus → EndpointManager E A D → EndpointManager E A D
  put_status a s m = record m { status = OrdMap.put a s m.status }

  abbrev pub accept_connection :
      A → AddressStatus → EndpointManager E A D → EndpointManager E A D × Bool
  accept_connection a s m =
      let (s', allowed) = add_connection true true s in (put_status a s' m, allowed)

  unfoldable pub clear : EndpointManager E A D → EndpointManager E A D
  clear m = record { status = []; nodes = NodeManager.clear m.nodes }

  unfoldable pub remove_out_bound : E → EndpointManager E A D → EndpointManager E A D
  remove_out_bound e m = record m { nodes = NodeManager.remove e m.nodes }

  unfoldable pub get_out_bound_name : E → EndpointManager E A D → String
  get_out_bound_name e m = name_of e m.nodes.map_node

  unfoldable pub get_out_bound_data : E → EndpointManager E A D → Option D
  get_out_bound_data e m = NodeManager.get_data e m.nodes

  unfoldable pub set_out_bound_data :
      E → Option D → EndpointManager E A D → EndpointManager E A D × Bool
  set_out_bound_data e content m =
      let (nodes, done) = NodeManager.set_data e content m.nodes in
      (record m { nodes = nodes }, done)

  unfoldable pub get_candidate_node_count : EndpointManager E A D → ℕ
  get_candidate_node_count m = NodeManager.get_candidate_node_count m.nodes

module _ {E A D : Type 0} ⦃ke : Key E⦄ ⦃ka : Key A⦄ (address : E → A) where
  unfoldable pub set_ban : ℕ → List A → ℕ → EndpointManager E A D → EndpointManager E A D
  set_ban now [] ban_time m = m
  set_ban now (a ∷ rest) ban_time m = set_ban now rest ban_time (record {
    status =
        OrdMap.put a (record (status_of a m.status) { ban_to = now + ban_time; last_seen = now })
          m.status;
    nodes = NodeManager.ban address a (now + ban_time) m.nodes;
  })

  -- A node that Employ gave: whether its address may have another connection.
  abbrev pub try_connection :
      E → NodeManager E A D → EndpointManager E A D → EndpointManager E A D × Bool
  try_connection e nodes m =
      let limited = not (same_name (name_of e nodes.map_node) dnseed) in
      let (s, allowed) = add_connection false limited (status_of (address e) m.status) in
      (record { status = OrdMap.put (address e) s m.status; nodes = nodes }, allowed)

  unfoldable pub fetch_round : ℕ → EndpointManager E A D → Fetched E A D
  fetch_round now m = elim (employ now m.nodes) [
    | none ↦ nothing m
    | some (e, nodes) ↦
        let (m', allowed) = try_connection e nodes m in
        if allowed then taken e m' else elim (dismiss now e false true nodes) [
          | none ↦ endless
          | some nodes' ↦ again (record m' { nodes = nodes' })
        ]
  ]

  unfoldable pub fetch_loop :
      ℕ → ℕ → EndpointManager E A D → Option (Option E × EndpointManager E A D)
  fetch_loop zero now m = none
  fetch_loop (suc fuel) now m = elim (fetch_round now m) [
    | nothing m' ↦ some (none, m')
    | taken e m' ↦ some (some e, m')
    | again m' ↦ fetch_loop fuel now m'
    | endless ↦ none
  ]

  -- A round more than there are idle nodes is enough.
  unfoldable pub fetch_out_bound :
      ℕ → EndpointManager E A D → Option (Option E × EndpointManager E A D)
  fetch_out_bound now m = fetch_loop (length m.nodes.map_idle + 1) now m

  unfoldable pub accept_in_bound : ℕ → E → EndpointManager E A D → EndpointManager E A D × Bool
  accept_in_bound now e m =
      let a = address e in
      let s = status_of a m.status in
      let (s', allowed) = in_bound_attempt now s in
      if is_dnseed_address a m.nodes
      then accept_connection a s m
      else if not allowed
      then (put_status a s' m, false)
      else accept_connection a s' m

  unfoldable pub reward_endpoint : ℕ → E → ℤ → EndpointManager E A D → EndpointManager E A D
  reward_endpoint now e bonus m =
      let a = address e in
      let s =
        reward (pos (get_or award (table_index bonus num_bonus) 0)) now (status_of a m.status) in
      record m { status = clean_inactive_address now (OrdMap.put a s m.status) }

  -- The status and the nodes when CloseEndpoint has dismissed the node.
  abbrev pub after_close :
      ℕ → A → AddressStatus → EndpointManager E A D → NodeManager E A D → EndpointManager E A D
  after_close now a s m nodes =
      let s' = remove_connection s in
      record {
        status = clean_inactive_address now (OrdMap.put a s' m.status);
        nodes = if ltb now s'.ban_to then NodeManager.ban address a s'.ban_to nodes else nodes;
      }

  unfoldable pub close_endpoint : ℕ → E → ℤ → EndpointManager E A D → Option (EndpointManager E A D)
  close_endpoint now e reason m =
      let a = address e in
      let s = status_of a m.status in
      let points = pos (get_or lost (table_index reason num_close_reasons) 0) in
      let s' = if is_dnseed_address a m.nodes then s else penalize points now s in
      Option.map (after_close now a s' m)
        (dismiss now e (leb_ℤ reason network_error && leb_ℤ network_error reason) false m.nodes)

  -- A round of RetrieveGoodNode's first loop.
  unfoldable pub score_node :
      ℕ
      → ℕ
      → Node E D
      → List (A × AddressStatus)
      → List (ℤ × NodeAvail E D)
      → List (ℤ × NodeAvail E D)
  score_node now active_time n status good =
      if same_name n.name "connect" || same_name n.name dnseed
      then good
      else elim (OrdMap.find (address n.ep) status) [
        | none ↦ good
        | some s ↦
            if ltb now (s.last_seen + active_time) && leb_ℤ (pos 0) s.score
            then insert_score (pos 0 -ℤ s.score)
                (record { ep = n.ep; node_data = n.content; time = s.last_seen }) good
            else good
      ]

  unfoldable pub score_loop :
      ℕ
      → ℕ
      → List (Node E D)
      → List (A × AddressStatus)
      → List (ℤ × NodeAvail E D)
      → List (ℤ × NodeAvail E D)
  score_loop now active_time [] status good = good
  score_loop now active_time (n ∷ rest) status good =
      score_loop now active_time rest status (score_node now active_time n status good)

  -- What is added to the nodes that the caller's vector holds.
  unfoldable pub retrieve_good_node :
      List (NodeAvail E D) → ℕ → ℕ → ℕ → EndpointManager E A D → List (NodeAvail E D)
  retrieve_good_node good_node now active_time max_count m =
      good_node
      ++ take (max_count - length good_node) (
          map (λ (entry : ℤ × NodeAvail E D). entry.1)
            (score_loop now active_time (NodeManager.retrieve m.nodes) m.status []))

  unfoldable pub add_new_out_bound :
      ℕ → E → String → Option D → EndpointManager E A D → Option (EndpointManager E A D)
  add_new_out_bound now e name content m =
      Option.map (λ nodes. record m { nodes = nodes })
        (NodeManager.add_new address now e name content m.nodes)
