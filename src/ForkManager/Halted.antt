-- ===== src/ForkManager/Halted.antt =====
-- How many of the forks that a chain knows have a schedule that is halted.
use mamio.Base.{
  ℕ, ◌+◌, ◌≤◌, ◌≡◌, refl, ap, ◌∙◌, Bool, true, false, not, ◌&&◌, List, [], ◌∷◌, ◌==◌, if◌then◌else◌,
  nat_key, arith, Bool-cases, inl, inr, length, ==_iff, ltb,
}
use mamio.Base.OrdMap
use mamio.Base.OrdMap.{find-put}
use mamio.Base.OrdSet
use mamio.ForkManager.{ForkSchedule, is_halted, is_joint_empty, insert_joint, add_new_joint}
use mamio.ForkManager.Calls.{sched_of}

sched_of-put :
    (a b : ℕ) (s : ForkSchedule) (m : List (ℕ × ForkSchedule))
    → sched_of b (OrdMap.put a s m) ≡ (if a == b then s else sched_of b m)
unfolding sched_of
sched_of-put a b s m =
    rw (find-put a b s m, sched_of)
      (elim (Bool-cases (a == b)) [ inl same ↦ rw same refl | inr other ↦ rw other refl ])

-- The schedules when a fork waits for its joint in the schedule of its parent.
abbrev pub joined : ℕ → ℕ → ℕ → List (ℕ × ForkSchedule) → List (ℕ × ForkSchedule)
joined parent joint fork sched =
    OrdMap.put parent (add_new_joint joint fork (sched_of parent sched)) sched

insert_joint_ne :
    (joint fork : ℕ) (s : ForkSchedule) → is_joint_empty (add_new_joint joint fork s) ≡ false
unfolding insert_joint
insert_joint_ne joint fork s = go s.map_joint
  where
    go :
        (m : List (ℕ × ℕ))
        → elim (insert_joint joint fork m) as (λ _. Bool) [ [] ↦ true | p ∷ rest ↦ false ] ≡ false
    go [] = refl
    go ((j, f) ∷ m) = elim (Bool-cases (ltb joint j)) [
      | inl before ↦ rw (before, insert_joint) refl
      | inr behind ↦ rw (behind, insert_joint) refl
    ]

-- How many of the known forks have no schedule that follows them.
abbrev pub halted : List (ℕ × ForkSchedule) → List ℕ → ℕ
halted sched [] = 0
halted sched (k ∷ ks) = (if is_halted (sched_of k sched) then 1 else 0) + halted sched ks

pub halted-length : (sched : List (ℕ × ForkSchedule)) (ks : List ℕ) → halted sched ks ≤ length ks
halted-length sched [] = omega arith
halted-length sched (k ∷ ks) = ground (arith, halted-length sched ks)

-- A joint that is added to a schedule takes its fork out of the halted ones.
halted-put :
    (parent joint fork b : ℕ) (sched : List (ℕ × ForkSchedule))
    → is_halted (sched_of b (joined parent joint fork sched))
      ≡ (not (parent == b) && is_halted (sched_of b sched))
halted-put parent joint fork b sched =
    let s = add_new_joint joint fork (sched_of parent sched) in
    let full = insert_joint_ne joint fork (sched_of parent sched) in
    rw (sched_of-put parent b s sched) (elim (Bool-cases (parent == b)) [
      | inl same ↦ rw same (let none_left : is_halted s ≡ false = ground (arith, full) in none_left)
      | inr other ↦ rw other refl
    ])

halted_mono :
    (parent joint fork : ℕ) (sched : List (ℕ × ForkSchedule)) (ks : List ℕ)
    → halted (joined parent joint fork sched) ks ≤ halted sched ks
halted_mono parent joint fork sched [] = omega arith
halted_mono parent joint fork sched (k ∷ ks) =
    ground (arith, halted_mono parent joint fork sched ks, halted-put parent joint fork k sched)

pub halted_drop :
    (parent joint fork : ℕ) (sched : List (ℕ × ForkSchedule)) (ks : List ℕ)
    → OrdSet.contains parent ks ≡ true
    → is_halted (sched_of parent sched) ≡ true
    → halted (joined parent joint fork sched) ks + 1 ≤ halted sched ks
unfolding OrdSet.contains
halted_drop parent joint fork sched [] known h = cc
halted_drop parent joint fork sched (k ∷ ks) known h = elim (Bool-cases (k == parent)) [
  | inl same ↦
      let e : k ≡ parent = (==_iff k parent).0 same in
      let here : is_halted (sched_of k sched) ≡ true =
        ap (λ n. is_halted (sched_of n sched)) e ∙ h in
      ground
        (arith, here, halted_mono parent joint fork sched ks, halted-put parent joint fork k sched)
  | inr other ↦ ground (
    arith,
    halted_drop parent joint fork sched ks (ground arith) h,
    halted-put parent joint fork k sched,
  )
]
