-- ===== src/ForkManager/Calls.antt =====
-- The calls of CForkManager that follow forks: AddNewForkContext, LoadForkContext, ForkUpdate. The
-- walks along the parents of a fork run on fuel, and `none` says that they have not ended.
use mathlib.Core.Option
use mathlib.Core.List.{reverse}
use mamio.Base.{
  ℕ, zero, suc, ◌+◌, Bool, true, false, not, ◌&&◌, ◌||◌, List, [], ◌∷◌, ◌++◌, Option, none, some,
  ◌==◌, if◌then◌else◌, nat_key,
}
use mamio.Base.Int.{pos}
use mamio.Base.OrdMap
use mamio.Base.OrdSet
use mamio.ForkManager.{
  BlockChain, ForkContext, ForkManager, ForkSchedule, new_schedule, is_halted, is_joint_empty,
  add_new_joint, remove_joint, insert_link, link_of,
}

-- operator[] of the map of schedules.
unfoldable pub sched_of : ℕ → List (ℕ × ForkSchedule) → ForkSchedule
sched_of fork m = elim (OrdMap.find fork m) [ none ↦ new_schedule false | some s ↦ s ]

-- The answer of a call that returns a bool: the state, the forks that became active, the bool.
pub record Added (S : Type 0) : Type 0 where
  pub state : S
  pub active : List ℕ
  pub done : Bool

-- A block of an update: its hash, and whether it is extended or vacant.
pub record BlockAdded : Type 0 where
  pub hash : ℕ
  pub is_extended : Bool
  pub is_vacant : Bool

-- How a round of the loop in AddNewForkContext goes on.
pub data JointRound : Type 0 where
  stops : Added (List (ℕ × ForkSchedule)) → JointRound
  climbs : ForkContext → List (ℕ × ForkSchedule) → JointRound

-- insert of a map keeps an entry that is there.
abbrev pub allow : ℕ → List (ℕ × ForkSchedule) → List (ℕ × ForkSchedule)
allow fork sched = elim (OrdMap.find fork sched) [
  | none ↦ OrdMap.put fork (new_schedule true) sched
  | some s ↦ sched
]

module _ (chain : BlockChain) where
  unfoldable pub joint_round : ℕ → ℕ → ℕ → List (ℕ × ForkSchedule) → JointRound
  joint_round parent joint fork sched =
      let s = sched_of parent sched in
      let waiting = OrdMap.put parent (add_new_joint joint fork s) sched in
      if chain.exists joint
      then stops (record { state = sched; active = fork ∷ []; done = true })
      else if not (is_halted s)
      then stops (record { state = waiting; active = []; done = true })
      else elim (chain.get_fork_context parent) [
        | none ↦ stops (record { state = OrdMap.put parent s sched; active = []; done = false })
        | some c ↦ climbs c waiting
      ]

  unfoldable pub joint_loop :
      ℕ → ℕ → ℕ → ℕ → List (ℕ × ForkSchedule) → Option (Added (List (ℕ × ForkSchedule)))
  joint_loop zero parent joint fork sched = none
  joint_loop (suc fuel) parent joint fork sched = elim (joint_round parent joint fork sched) [
    | stops r ↦ some r
    | climbs c waiting ↦ joint_loop fuel c.hash_parent c.hash_joint c.hash_fork waiting
  ]

  -- The walk to a parent whose own parent is in an allowed group.
  unfoldable pub group_loop : ℕ → ℕ → List ℕ → Option Bool
  group_loop zero hash group = none
  group_loop (suc fuel) hash group =
      if hash == 0 then some false else elim (chain.get_fork_context hash) [
        | none ↦ some false
        | some c ↦ elim (OrdSet.contains c.hash_parent group) [
          | true ↦ some true
          | false ↦ group_loop fuel c.hash_parent group
        ]
      ]

  unfoldable pub is_allowed_fork : ℕ → ℕ → ℕ → ForkManager → Option Bool
  is_allowed_fork fuel fork parent m =
      if m.allow_any_fork
        || OrdSet.contains fork m.fork_allowed
        || OrdSet.contains fork m.group_allowed
      then some true
      else elim m.group_allowed [
        | [] ↦ some false
        | g ∷ gs ↦
            if OrdSet.contains parent m.group_allowed
            then some true
            else group_loop fuel parent m.group_allowed
      ]

  -- The end of AddNewForkContext: the link, with the height at which the fork was created.
  abbrev pub link_context : ForkContext → List ℕ → ForkManager → Added ForkManager
  link_context c active m = elim (chain.get_tx_location c.txid_embedded) [
    | none ↦ record { state = m; active = active; done = false }
    | some (fork, height) ↦ record {
      state = record m { fork_index = insert_link (link_of c height) m.fork_index };
      active = active;
      done = true;
    }
  ]

  -- An allowed fork that is not the genesis fork, when its loop has ended.
  abbrev pub after_loop :
      ForkContext → ForkManager → Added (List (ℕ × ForkSchedule)) → Added ForkManager
  after_loop c m r =
      let m' = record m { fork_sched = r.state } in
      if r.done
      then link_context c r.active m'
      else record { state = m'; active = r.active; done = false }

  unfoldable pub add_allowed : ℕ → ℕ → ForkContext → ForkManager → Option (Added ForkManager)
  add_allowed fuel genesis c m =
      let sched = allow c.hash_fork m.fork_sched in
      if c.hash_fork == genesis
      then some (record {
        state = record m {
          fork_sched = sched;
          fork_index = insert_link (link_of c (pos 0)) m.fork_index;
        };
        active = c.hash_fork ∷ [];
        done = true;
      })
      else Option.map (after_loop c m)
          (joint_loop fuel c.hash_parent c.hash_joint c.hash_fork sched)

  unfoldable pub add_new_fork_context :
      ℕ → ℕ → ForkContext → ForkManager → Option (Added ForkManager)
  add_new_fork_context fuel genesis c m = elim (is_allowed_fork fuel c.hash_fork c.hash_parent m) [
    | none ↦ none
    | some false ↦ some (link_context c [] m)
    | some true ↦ add_allowed fuel genesis c m
  ]

  unfoldable pub load_loop :
      ℕ → ℕ → List ForkContext → List ℕ → ForkManager → Option (Added ForkManager)
  load_loop fuel genesis [] active m = some (record { state = m; active = active; done = true })
  load_loop fuel genesis (c ∷ cs) active m = elim (add_new_fork_context fuel genesis c m) [
    | none ↦ none
    | some r ↦ elim r.done [
      | false ↦ some (record r { active = active ++ r.active })
      | true ↦ load_loop fuel genesis cs (active ++ r.active) r.state
    ]
  ]

  unfoldable pub load_fork_context : ℕ → ℕ → ForkManager → Option (Added ForkManager)
  load_fork_context fuel genesis m = elim chain.list_fork_context [
    | none ↦ some (record { state = m; active = []; done = false })
    | some cs ↦ load_loop fuel genesis cs [] m
  ]

-- What the loop of ForkUpdate makes of a schedule: the forks that became active, and how often it
-- names the fork of the update among those that became inactive.
unfoldable pub update_loop : List BlockAdded → ForkSchedule → ForkSchedule × List ℕ × ℕ
update_loop [] s = (s, [], 0)
update_loop (b ∷ bs) s =
    let (s', forks) = remove_joint b.hash s in
    let (left, active, halts) = update_loop bs s' in
    let skip = update_loop bs s in
    if not b.is_extended && not b.is_vacant
    then (left, forks ++ active, (if is_halted s' then halts + 1 else halts))
    else skip

abbrev pub repeated : ℕ → ℕ → List ℕ
repeated fork zero = []
repeated fork (suc n) = fork ∷ repeated fork n

-- ForkUpdate, with the blocks that the update adds: the state, vActive and vDeactive.
unfoldable pub fork_update : ℕ → List BlockAdded → ForkManager → ForkManager × List ℕ × List ℕ
fork_update fork blocks m =
    let s = sched_of fork m.fork_sched in
    let (left, active, halts) = update_loop (reverse blocks) s in
    if is_joint_empty s
    then (record m { fork_sched = OrdMap.put fork s m.fork_sched }, [], [])
    else (record m { fork_sched = OrdMap.put fork left m.fork_sched }, active, repeated fork halts)
