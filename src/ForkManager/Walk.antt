-- ===== src/ForkManager/Walk.antt =====
-- The walks of AddNewForkContext along the parents of a fork come to an end.
use mamio.Base.{
  ℕ, zero, suc, ◌<◌, ◌≡◌, ◌⊎◌, refl, Bool, true, false, ◌||◌, List, [], ◌∷◌, Option, some, ◌==◌,
  if◌then◌else◌, nat_key, arith, Bool-cases, Option-cases, inl, inr, length,
}
use mamio.Base.Int.{pos}
use mamio.Base.OrdMap
use mamio.Base.OrdMap.{find-put}
use mamio.Base.OrdSet
use mamio.ForkManager.{
  BlockChain, ForkContext, ForkManager, ForkSchedule, is_halted, insert_link, link_of,
}
use mamio.ForkManager.Calls.{
  Added, sched_of, stops, climbs, joint_round, joint_loop, group_loop, is_allowed_fork, add_allowed,
  add_new_fork_context, allow, link_context, after_loop,
}
use mamio.ForkManager.Halted.{joined, halted, halted-length, halted_drop}

module _ (chain : BlockChain) where
  joint_round_goes :
      (parent joint fork : ℕ) (sched : List (ℕ × ForkSchedule))
      → ((r : Added (List (ℕ × ForkSchedule))) × (joint_round chain parent joint fork sched
            ≡ stops r))
        ⊎ ((c : ForkContext) × (chain.get_fork_context parent ≡ some c)
            × (is_halted (sched_of parent sched) ≡ true)
            × (joint_round chain parent joint fork sched
                ≡ climbs c (joined parent joint fork sched)))
  unfolding joint_round
  joint_round_goes parent joint fork sched = elim (Bool-cases (chain.exists joint)) [
    | inl there ↦
        inl
          (record { state = sched; active = fork ∷ []; done = true }, rw (there, joint_round) refl)
    | inr away ↦ elim (Bool-cases (is_halted (sched_of parent sched))) [
      | inl stopped ↦ elim (Option-cases (chain.get_fork_context parent)) [
        | inl missing ↦ inl (
          record {
            state = OrdMap.put parent (sched_of parent sched) sched;
            active = [];
            done = false;
          },
          rw (away, joint_round, stopped, missing) refl,
        )
        | inr (c, found) ↦ inr (c, found, stopped, rw (away, joint_round, stopped, found) refl)
      ]
      | inr runs ↦ inl (
        record { state = joined parent joint fork sched; active = []; done = true },
        rw (away, joint_round, runs) refl,
      )
    ]
  ]

  -- Every fork of which the chain has a context stands in a list.
  abbrev pub Knows : List ℕ → Type 0
  Knows ks =
      (h : ℕ) (c : ForkContext) → chain.get_fork_context h ≡ some c → OrdSet.contains h ks ≡ true

  -- The parent of a fork stands before it.
  abbrev pub Descends : (ℕ → ℕ) → Type 0
  Descends rank =
      (h : ℕ) (c : ForkContext) → chain.get_fork_context h ≡ some c → rank c.hash_parent < rank h

  joint_loop_ends :
      (ks : List ℕ) (fuel parent joint fork : ℕ) (sched : List (ℕ × ForkSchedule))
      → Knows ks
      → halted sched ks < fuel
      → (r : Added (List (ℕ × ForkSchedule))) × (joint_loop chain fuel parent joint fork sched
          ≡ some r)
  unfolding joint_loop
  joint_loop_ends ks zero parent joint fork sched knows h = absurd (omega arith)
  joint_loop_ends ks (suc fuel) parent joint fork sched knows h =
      elim (joint_round_goes parent joint fork sched) [
        | inl (r, stop) ↦ (r, rw (stop, joint_loop) refl)
        | inr (c, found, stopped, climb) ↦
            let fewer = halted_drop parent joint fork sched ks (knows parent c found) stopped in
            let (r, ends) =
              joint_loop_ends ks fuel c.hash_parent c.hash_joint c.hash_fork
                (joined parent joint fork sched) knows (omega (arith, fewer)) in
            (r, rw (climb, joint_loop) ends)
      ]

  group_loop_ends :
      (rank : ℕ → ℕ) (fuel hash : ℕ) (group : List ℕ)
      → Descends rank
      → rank hash < fuel
      → (b : Bool) × (group_loop chain fuel hash group ≡ some b)
  unfolding group_loop
  group_loop_ends rank zero hash group down h = absurd (omega arith)
  group_loop_ends rank (suc fuel) hash group down h = elim (Bool-cases (hash == 0)) [
    | inl nil ↦ (false, rw (nil, group_loop) refl)
    | inr some_hash ↦ elim (Option-cases (chain.get_fork_context hash)) [
      | inl missing ↦ (false, rw (some_hash, group_loop, missing) refl)
      | inr (c, found) ↦ elim (Bool-cases (OrdSet.contains c.hash_parent group)) [
        | inl member ↦ (true, rw (some_hash, group_loop, found, member) refl)
        | inr other ↦
            let (b, ends) =
              group_loop_ends rank fuel c.hash_parent group down
                (omega (arith, down hash c found)) in
            (b, rw (some_hash, group_loop, found, other) ends)
      ]
    ]
  ]

  is_allowed_fork_ends :
      (rank : ℕ → ℕ) (fuel fork parent : ℕ) (m : ForkManager)
      → Descends rank
      → rank parent < fuel
      → (b : Bool) × (is_allowed_fork chain fuel fork parent m ≡ some b)
  unfolding is_allowed_fork
  is_allowed_fork_ends rank fuel fork parent m down h =
      elim (Bool-cases (
        m.allow_any_fork
        || OrdSet.contains fork m.fork_allowed
        || OrdSet.contains fork m.group_allowed)) [
          | inl named ↦ (true, rw (named, is_allowed_fork) refl)
          | inr unnamed ↦ rw (unnamed, is_allowed_fork) (groups m.group_allowed)
        ]
    where
      groups :
          (gs : List ℕ)
          → (b : Bool) × (elim gs as (λ _. Option Bool) [
            | [] ↦ some false
            | g ∷ rest ↦
                if OrdSet.contains parent m.group_allowed
                then some true
                else group_loop chain fuel parent m.group_allowed
          ]
              ≡ some b)
      groups [] = (false, refl)
      groups (g ∷ rest) = elim (Bool-cases (OrdSet.contains parent m.group_allowed)) [
        | inl member ↦ (true, rw member refl)
        | inr other ↦
            let (b, ends) = group_loop_ends rank fuel parent m.group_allowed down h in
            (b, rw (other, ends) refl)
      ]

  -- AddNewForkContext ends: a round for each fork that the chain knows, and one more, is enough for
  -- the loop over the joints, and the depth of the parent for that over the groups. The chain has the
  -- contexts of finitely many forks, and the parent of a fork stands before it.
  pub add_new_fork_context_ends :
      (ks : List ℕ) (rank : ℕ → ℕ) (fuel genesis : ℕ) (c : ForkContext) (m : ForkManager)
      → Knows ks
      → Descends rank
      → length ks < fuel
      → rank c.hash_parent < fuel
      → (r : Added ForkManager) × (add_new_fork_context chain fuel genesis c m ≡ some r)
  unfolding add_new_fork_context add_allowed
  add_new_fork_context_ends ks rank fuel genesis c m knows down rounds depth =
      let (b, decided) = is_allowed_fork_ends rank fuel c.hash_fork c.hash_parent m down depth in
      rw (decided, add_new_fork_context) (answer b)
    where
      answer :
          (b : Bool)
          → (r : Added ForkManager) × (elim b as (λ _. Option (Added ForkManager)) [
            | false ↦ some (link_context chain c [] m)
            | true ↦ add_allowed chain fuel genesis c m
          ]
              ≡ some r)
      answer false = (link_context chain c [] m, refl)
      answer true = elim (Bool-cases (c.hash_fork == genesis)) [
        | inl first ↦ (
          record {
            state = record m {
              fork_sched = allow c.hash_fork m.fork_sched;
              fork_index = insert_link (link_of c (pos 0)) m.fork_index;
            };
            active = c.hash_fork ∷ [];
            done = true;
          },
          rw (first, add_allowed) refl,
        )
        | inr later ↦
            let sched = allow c.hash_fork m.fork_sched in
            let (r, ends) =
              joint_loop_ends ks fuel c.hash_parent c.hash_joint c.hash_fork sched knows
                (omega (arith, halted-length sched ks)) in
            (after_loop chain c m r, rw (later, add_allowed, ends) refl)
      ]
