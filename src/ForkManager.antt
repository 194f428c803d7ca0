-- ===== src/ForkManager.antt =====
-- src/minemon/forkmanager.h and forkmanager.cpp: CForkLink, CForkSchedule and CForkManager, which
-- forks are followed and which wait for the block they branch from. Hashes are natural numbers, 0 is
-- no hash. The multi-index of links is the list of them in the order of their insertion. What is
-- added to the caller's vectors is returned. The block chain is an interface, the record BlockChain.
pub mod Calls
pub mod Joints
pub mod Halted
pub mod Walk
use mathlib.Core.Option
use mamio.Base.{
  ℕ, zero, suc, ◌+◌, Bool, true, false, not, ◌&&◌, ◌||◌, List, [], ◌∷◌, ◌++◌, map, Option, none,
  some, ltb, ◌==◌, if◌then◌else◌, nat_key,
}
use mamio.Base.Int.{ℤ, pos, ltb_ℤ}
use mamio.Base.OrdMap
use mamio.Base.OrdSet
use mathlib.Core.List.{reverse}

-- CForkContext, as far as the manager reads it.
pub record ForkContext : Type 0 where
  pub hash_fork : ℕ
  pub hash_parent : ℕ
  pub hash_joint : ℕ
  pub joint_height : ℤ
  pub txid_embedded : ℕ

-- What the manager asks of IBlockChain.
pub record BlockChain : Type 0 where
  pub exists : ℕ → Bool
  pub get_fork_context : ℕ → Option ForkContext
  pub list_fork_context : Option (List ForkContext)
  pub get_tx_location : ℕ → Option (ℕ × ℤ)

pub record ForkLink : Type 0 where
  pub hash_fork : ℕ
  pub hash_parent : ℕ
  pub hash_joint : ℕ
  pub joint_height : ℤ
  pub created_height : ℤ

abbrev pub link_of : ForkContext → ℤ → ForkLink
link_of c created = record {
  hash_fork = c.hash_fork;
  hash_parent = c.hash_parent;
  hash_joint = c.hash_joint;
  joint_height = c.joint_height;
  created_height = created;
}

pub record ForkSchedule : Type 0 where
  pub allowed : Bool
  pub synchronized : Bool
  pub map_joint : List (ℕ × ℕ)

abbrev pub new_schedule : Bool → ForkSchedule
new_schedule allowed = record { allowed = allowed; synchronized = false; map_joint = [] }

abbrev pub is_joint_empty : ForkSchedule → Bool
is_joint_empty s = elim s.map_joint [ [] ↦ true | p ∷ m ↦ false ]

abbrev pub is_halted : ForkSchedule → Bool
is_halted s = not s.allowed && is_joint_empty s

-- A new pair goes behind those of its key.
unfoldable pub insert_joint : ℕ → ℕ → List (ℕ × ℕ) → List (ℕ × ℕ)
insert_joint joint fork [] = (joint, fork) ∷ []
insert_joint joint fork ((j, f) ∷ m) =
    if ltb joint j then (joint, fork) ∷ (j, f) ∷ m else (j, f) ∷ insert_joint joint fork m

abbrev pub add_new_joint : ℕ → ℕ → ForkSchedule → ForkSchedule
add_new_joint joint fork s = record s { map_joint = insert_joint joint fork s.map_joint }

-- The forks that waited for a block, and the pairs that are left.
unfoldable pub remove_pairs : ℕ → List (ℕ × ℕ) → List ℕ × List (ℕ × ℕ)
remove_pairs joint [] = ([], [])
remove_pairs joint ((j, f) ∷ m) =
    let (forks, left) = remove_pairs joint m in
    if j == joint then (f ∷ forks, left) else (forks, (j, f) ∷ left)

unfoldable pub remove_joint : ℕ → ForkSchedule → ForkSchedule × List ℕ
remove_joint joint s =
    let (forks, left) = remove_pairs joint s.map_joint in (record s { map_joint = left }, forks)

abbrev pub set_sync_status : Bool → ForkSchedule → ForkSchedule
set_sync_status sync s = record s { synchronized = sync }

pub record ForkManager : Type 0 where
  pub allow_any_fork : Bool
  pub fork_allowed : List ℕ
  pub group_allowed : List ℕ
  pub fork_sched : List (ℕ × ForkSchedule)
  pub fork_index : List ForkLink

abbrev pub new_manager : ForkManager
new_manager = record {
  allow_any_fork = false;
  fork_allowed = [];
  group_allowed = [];
  fork_sched = [];
  fork_index = [];
}

-- The hashes of the configuration that are not 0 go into a set.
unfoldable pub insert_hashes : List ℕ → List ℕ → List ℕ
insert_hashes [] s = s
insert_hashes (h ∷ hs) s = insert_hashes hs (if h == 0 then s else OrdSet.insert h s)

-- HandleInvoke with the forks and the groups of ForkConfig().
unfoldable pub handle_invoke : ℕ → Bool → List ℕ → List ℕ → ForkManager → ForkManager
handle_invoke genesis allow_any forks groups m =
    if allow_any then record m { allow_any_fork = true } else record m {
      allow_any_fork = false;
      fork_allowed = insert_hashes forks (OrdSet.insert genesis m.fork_allowed);
      group_allowed = insert_hashes groups m.group_allowed;
    }

abbrev pub handle_halt : ForkManager → ForkManager
handle_halt m = new_manager

unfoldable pub is_allowed : ℕ → ForkManager → Bool
is_allowed fork m = elim (OrdMap.find fork m.fork_sched) [ none ↦ false | some s ↦ s.allowed ]

unfoldable pub find_link : ℕ → List ForkLink → Option ForkLink
find_link fork [] = none
find_link fork (l ∷ ls) = if l.hash_fork == fork then some l else find_link fork ls

-- The index holds one link for each fork: a second one is not inserted.
unfoldable pub insert_link : ForkLink → List ForkLink → List ForkLink
insert_link l ls = elim (find_link l.hash_fork ls) [ none ↦ ls ++ (l ∷ []) | some old ↦ ls ]

-- The parent, the joint and its height.
unfoldable pub get_joint : ℕ → ForkManager → Option (ℕ × ℕ × ℤ)
get_joint fork m =
    Option.map (λ (l : ForkLink). (l.hash_parent, l.hash_joint, l.joint_height))
      (find_link fork m.fork_index)

unfoldable pub get_created_height : ℕ → ForkManager → Option ℤ
get_created_height fork m =
    Option.map (λ (l : ForkLink). l.created_height) (find_link fork m.fork_index)

-- The index by forks is in the order of their hashes.
unfoldable pub get_fork_list : ForkManager → List ℕ
get_fork_list m = OrdSet.insert_all (map (λ (l : ForkLink). l.hash_fork) m.fork_index) []

-- The multimap from the height of the joint.
unfoldable pub insert_subline : ℤ → ℕ → List (ℤ × ℕ) → List (ℤ × ℕ)
insert_subline h fork [] = (h, fork) ∷ []
insert_subline h fork ((g, f) ∷ m) =
    if ltb_ℤ h g then (h, fork) ∷ (g, f) ∷ m else (g, f) ∷ insert_subline h fork m

unfoldable pub subline_loop : ℕ → List ForkLink → List (ℤ × ℕ) → List (ℤ × ℕ)
subline_loop parent [] m = m
subline_loop parent (l ∷ ls) m =
    subline_loop parent ls
      (if l.hash_parent == parent then insert_subline l.joint_height l.hash_fork m else m)

unfoldable pub get_subline : ℕ → ForkManager → Option (List (ℤ × ℕ))
get_subline fork m = elim (subline_loop fork m.fork_index []) [
  | [] ↦ none
  | p ∷ line ↦ some (p ∷ line)
]
