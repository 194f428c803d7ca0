-- ===== src/NodeManager.antt =====
-- src/xengine/peernet/nodemngr.h and nodemngr.cpp, class CNodeManager: the peers that the node knows
-- of, and the time from which each may be connected to. Endpoints E and addresses A of boost::asio
-- are parameters with their orders, D is what a boost::any holds. The multimap of idle nodes is a
-- list in the order of its times. `now` is GetTime(); `none` means that a call has not ended.
pub mod Idle
pub mod Ban
pub mod Removal
pub mod Barred
pub mod Keeps
pub mod Run
pub mod SeedFree
pub mod Ends
use text.Mathlib.Text.{◌==◌ as same_name}
use Prim.Native.String.{String}
use mathlib.Core.List.{reverse}
use mathlib.Core.Option
use mamio.Base.{
  ℕ, zero, suc, ◌+◌, ◌-◌, ◌*◌, ◌/◌, ◌^◌, Bool, true, false, not, ◌&&◌, ◌||◌, List, [], ◌∷◌, ◌++◌,
  map, Option, none, some, ltb, leb, ◌==◌, if◌then◌else◌, length, Key,
}
use mamio.Base.OrdMap
use mamio.Base.OrdSet

pub record Node (E D : Type 0) : Type 0 where
  pub ep : E
  pub name : String
  pub content : Option D
  pub retries : ℕ

pub record NodeManager (E A D : Type 0) : Type 0 where
  pub map_node : List (E × Node E D)
  pub map_idle : List (ℕ × E)
  pub dnseed_address : List A

abbrev pub max_idle_nodes : ℕ
max_idle_nodes = 512

abbrev pub remove_count : ℕ
remove_count = 16

abbrev pub retry_interval_base : ℕ
retry_interval_base = 30

abbrev pub max_retries : ℕ
max_retries = 16

abbrev pub max_idle_time : ℕ
max_idle_time = 28800

abbrev pub dnseed : String
dnseed = "dnseed"

-- How many idle nodes RemoveInactiveNodes takes out at most.
abbrev pub removal_limit : ℕ → ℕ
removal_limit size =
    if ltb remove_count (size - max_idle_nodes) then remove_count else size - max_idle_nodes

-- The retries of a seed start again after MAX_RETRIES / 2.
abbrev pub next_seed_retries : ℕ → ℕ
next_seed_retries retries = if leb (max_retries / 2) retries then 0 else retries + 1

module _ {E : Type 0} where
  -- A new entry goes behind those of its time.
  unfoldable pub insert_idle : ℕ → E → List (ℕ × E) → List (ℕ × E)
  insert_idle t e [] = (t, e) ∷ []
  insert_idle t e ((u, f) ∷ m) = if ltb t u then (t, e) ∷ (u, f) ∷ m else (u, f) ∷ insert_idle t e m

  unfoldable pub insert_all_idle : ℕ → List E → List (ℕ × E) → List (ℕ × E)
  insert_all_idle t [] m = m
  insert_all_idle t (e ∷ es) m = insert_all_idle t es (insert_idle t e m)

module _ {E A : Type 0} ⦃ka : Key A⦄ (address : E → A) where
  -- The walk of Ban up to the entries that are later than the end of the ban: the nodes it takes
  -- out, and what is left.
  unfoldable pub ban_loop : A → ℕ → List (ℕ × E) → List E × List (ℕ × E)
  ban_loop a ban_to [] = ([], [])
  ban_loop a ban_to ((t, e) ∷ m) =
      let (taken, left) = ban_loop a ban_to m in
      if leb t ban_to
      then (if ka.same a (address e) then (e ∷ taken, left) else (taken, (t, e) ∷ left))
      else ([], (t, e) ∷ m)

module _ {E : Type 0} ⦃ke : Key E⦄ where
  -- The first idle entry of the node that Remove takes out.
  unfoldable pub erase_first : E → List (ℕ × E) → List (ℕ × E)
  erase_first e [] = []
  erase_first e ((t, f) ∷ m) = if ke.same f e then m else (t, f) ∷ erase_first e m

module _ {E D : Type 0} ⦃ke : Key E⦄ where
  unfoldable pub name_of : E → List (E × Node E D) → String
  name_of e nodes = elim (OrdMap.find e nodes) [ none ↦ "" | some n ↦ n.name ]

  -- The loop of RemoveInactiveNodes over the idle nodes, the latest first. A dnseed node is neither
  -- erased nor passed over.
  unfoldable pub remove_loop :
      ℕ
      → ℕ
      → ℕ
      → ℕ
      → List (ℕ × E)
      → List (E × Node E D)
      → Option (List (ℕ × E) × List (E × Node E D))
  remove_loop zero inactive limit removed idle nodes = none
  remove_loop (suc fuel) inactive limit removed [] nodes = some ([], nodes)
  remove_loop (suc fuel) inactive limit removed ((t, e) ∷ idle) nodes =
      let again = remove_loop fuel inactive limit removed ((t, e) ∷ idle) nodes in
      let next = remove_loop fuel inactive limit (removed + 1) idle (OrdMap.erase e nodes) in
      if ltb removed limit && (ltb inactive t || removed == 0)
      then (if same_name (name_of e nodes) dnseed then again else next)
      else some ((t, e) ∷ idle, nodes)

module _ {E A D : Type 0} ⦃ke : Key E⦄ ⦃ka : Key A⦄ where
  abbrev pub empty : NodeManager E A D
  empty = record { map_node = []; map_idle = []; dnseed_address = [] }

  abbrev pub after_removal :
      NodeManager E A D → List (ℕ × E) × List (E × Node E D) → NodeManager E A D
  after_removal m (idle, nodes) = record m { map_idle = reverse idle; map_node = nodes }

  unfoldable pub remove_inactive_nodes : ℕ → NodeManager E A D → Option (NodeManager E A D)
  remove_inactive_nodes now m =
      let size = length m.map_idle in
      Option.map (after_removal m) (
        remove_loop (size + 1) (now + max_idle_time) (removal_limit size) 0 (reverse m.map_idle)
          m.map_node)

  unfoldable pub add_idle_node : ℕ → ℕ → E → NodeManager E A D → Option (NodeManager E A D)
  add_idle_node now interval e m =
      let m' = record m { map_idle = insert_idle (now + interval) e m.map_idle } in
      if ltb max_idle_nodes (length m'.map_idle) then remove_inactive_nodes now m' else some m'

  unfoldable pub remove : E → NodeManager E A D → NodeManager E A D
  remove e m = elim (OrdMap.find e m.map_node) [
    | none ↦ m
    | some n ↦ record m {
      map_node = OrdMap.erase e m.map_node;
      map_idle = erase_first e m.map_idle;
    }
  ]

  -- The data that the caller's reference then holds, and whether there was any.
  unfoldable pub get_data : E → NodeManager E A D → Option D
  get_data e m = elim (OrdMap.find e m.map_node) [ none ↦ none | some n ↦ n.content ]

  unfoldable pub set_data : E → Option D → NodeManager E A D → NodeManager E A D × Bool
  set_data e content m = elim (OrdMap.find e m.map_node) [
    | none ↦ (m, false)
    | some n ↦
        (record m { map_node = OrdMap.put e (record n { content = content }) m.map_node }, true)
  ]

  -- The addresses of the seeds stay.
  unfoldable pub clear : NodeManager E A D → NodeManager E A D
  clear m = record m { map_node = []; map_idle = [] }

  unfoldable pub employ : ℕ → NodeManager E A D → Option (E × NodeManager E A D)
  employ now m = elim m.map_idle [
    | [] ↦ none
    | (t, e) ∷ idle ↦ if leb t now then some (e, record m { map_idle = idle }) else none
  ]

  abbrev pub put_node : E → Node E D → NodeManager E A D → NodeManager E A D
  put_node e n m = record m { map_node = OrdMap.put e n m.map_node }

  -- Dismiss without a reset, of a node that is not a seed.
  abbrev pub dismiss_node : ℕ → E → Bool → Node E D → NodeManager E A D → Option (NodeManager E A D)
  dismiss_node now e force_retry n m =
      let retries = if force_retry then 0 else n.retries + 1 in
      let m' = put_node e (record n { retries = retries }) m in
      if leb retries max_retries
      then add_idle_node now (retry_interval_base * 2 ^ retries) n.ep m'
      else some (record m { map_node = OrdMap.erase e m.map_node })

  abbrev pub dismiss_seed : ℕ → E → Node E D → NodeManager E A D → Option (NodeManager E A D)
  dismiss_seed now e n m =
      let retries = next_seed_retries n.retries in
      add_idle_node now (retry_interval_base * 2 ^ retries) n.ep
        (put_node e (record n { retries = retries }) m)

  unfoldable pub dismiss : ℕ → E → Bool → Bool → NodeManager E A D → Option (NodeManager E A D)
  dismiss now e force_retry reset m = elim (OrdMap.find e m.map_node) [
    | none ↦ some m
    | some n ↦
        if reset
        then add_idle_node now retry_interval_base n.ep m
        else if same_name n.name dnseed
        then dismiss_seed now e n m
        else dismiss_node now e force_retry n m
  ]

  unfoldable pub retrieve : NodeManager E A D → List (Node E D)
  retrieve m = map (λ (entry : E × Node E D). entry.1) m.map_node

  unfoldable pub get_candidate_node_count : NodeManager E A D → ℕ
  get_candidate_node_count m = length m.map_node

  unfoldable pub is_dnseed_address : A → NodeManager E A D → Bool
  is_dnseed_address a m = OrdSet.contains a m.dnseed_address

module _ {E A D : Type 0} ⦃ke : Key E⦄ ⦃ka : Key A⦄ (address : E → A) where
  abbrev pub note_seed : E → String → NodeManager E A D → NodeManager E A D
  note_seed e name m =
      if same_name name dnseed
      then record m { dnseed_address = OrdSet.insert (address e) m.dnseed_address }
      else m

  unfoldable pub add_new :
      ℕ → E → String → Option D → NodeManager E A D → Option (NodeManager E A D)
  add_new now e name content m = elim (OrdMap.find e m.map_node) [
    | some n ↦ some m
    | none ↦ Option.map (note_seed e name) (
        add_idle_node now 0 e
          (put_node e (record { ep = e; name = name; content = content; retries = 0 }) m))
  ]

  unfoldable pub ban : A → ℕ → NodeManager E A D → NodeManager E A D
  ban a ban_to m =
      let (taken, left) = ban_loop address a ban_to m.map_idle in
      record m { map_idle = insert_all_idle ban_to taken left }
