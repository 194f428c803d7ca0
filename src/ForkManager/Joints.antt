-- ===== src/ForkManager/Joints.antt =====
-- What ForkUpdate does to the forks that wait for the blocks of an update.
use mathlib.Core.List.{reverse, reverse-cons}
use mamio.Base.{
  ℕ, ◌≡◌, refl, ap, sym, ◌∙◌, Bool, true, false, not, ◌&&◌, ◌||◌, List, [], ◌∷◌, ◌++◌, ◌==◌,
  nat_key, arith, Bool-cases, inl, inr, ==_iff,
}
use mamio.Base.OrdMap
use mamio.Base.OrdMap.{find-put}
use mamio.Base.OrdSet
use mamio.ForkManager.{ForkManager, ForkSchedule, remove_pairs, remove_joint, is_joint_empty}
use mamio.ForkManager.Calls.{BlockAdded, sched_of, update_loop, fork_update}

-- Whether a fork waits for a joint block.
abbrev pub has_pair : ℕ → ℕ → List (ℕ × ℕ) → Bool
has_pair joint fork [] = false
has_pair joint fork ((j, f) ∷ m) = (j == joint && f == fork) || has_pair joint fork m

-- Whether a block of an update can start a fork: it is neither extended nor vacant.
abbrev pub is_primary : BlockAdded → Bool
is_primary b = not b.is_extended && not b.is_vacant

-- Whether an update holds such a block with a given hash.
abbrev pub starts : ℕ → List BlockAdded → Bool
starts joint [] = false
starts joint (b ∷ bs) = (is_primary b && b.hash == joint) || starts joint bs

-- Whether a fork waits for such a block of an update.
abbrev pub waits : ℕ → List BlockAdded → List (ℕ × ℕ) → Bool
waits fork [] m = false
waits fork (b ∷ bs) m = (is_primary b && has_pair b.hash fork m) || waits fork bs m

abbrev pub joints_of : ℕ → ForkManager → List (ℕ × ℕ)
joints_of fork m = (sched_of fork m.fork_sched).map_joint

contains-append :
    (a : ℕ) (xs ys : List ℕ)
    → OrdSet.contains a (xs ++ ys) ≡ (OrdSet.contains a xs || OrdSet.contains a ys)
unfolding OrdSet.contains
contains-append a [] ys = refl
contains-append a (x ∷ xs) ys = ground (arith, contains-append a xs ys)

has_pair-remove_pairs :
    (h joint fork : ℕ) (m : List (ℕ × ℕ))
    → has_pair joint fork (remove_pairs h m).1 ≡ (has_pair joint fork m && not (h == joint))
unfolding remove_pairs
has_pair-remove_pairs h joint fork [] = refl
has_pair-remove_pairs h joint fork ((j, f) ∷ m) =
    ground (arith, has_pair-remove_pairs h joint fork m)

contains-remove_pairs :
    (h fork : ℕ) (m : List (ℕ × ℕ)) → OrdSet.contains fork (remove_pairs h m).0 ≡ has_pair h fork m
unfolding remove_pairs OrdSet.contains
contains-remove_pairs h fork [] = refl
contains-remove_pairs h fork ((j, f) ∷ m) = ground (arith, contains-remove_pairs h fork m)

has_pair-update_loop :
    (joint fork : ℕ) (bs : List BlockAdded) (s : ForkSchedule)
    → has_pair joint fork (update_loop bs s).0.map_joint
      ≡ (has_pair joint fork s.map_joint && not (starts joint bs))
unfolding update_loop remove_joint
has_pair-update_loop joint fork [] s = ground arith
has_pair-update_loop joint fork (b ∷ bs) s = ground (
  arith,
  has_pair-update_loop joint fork bs s,
  has_pair-update_loop joint fork bs (remove_joint b.hash s).0,
  has_pair-remove_pairs b.hash joint fork s.map_joint,
)

waits-remove_pairs :
    (h fork : ℕ) (bs : List BlockAdded) (m : List (ℕ × ℕ))
    → (waits fork bs (remove_pairs h m).1 || has_pair h fork m)
      ≡ (waits fork bs m || has_pair h fork m)
waits-remove_pairs h fork [] m = refl
waits-remove_pairs h fork (b ∷ bs) m = elim (Bool-cases (h == b.hash)) [
  | inl same ↦
      let e : h ≡ b.hash = (==_iff h b.hash).0 same in
      ground (
        arith,
        waits-remove_pairs h fork bs m,
        has_pair-remove_pairs h b.hash fork m,
        ap (λ n. has_pair n fork m) e,
      )
  | inr other ↦
      ground (arith, waits-remove_pairs h fork bs m, has_pair-remove_pairs h b.hash fork m)
]

contains-update_loop :
    (fork : ℕ) (bs : List BlockAdded) (s : ForkSchedule)
    → OrdSet.contains fork (update_loop bs s).1 ≡ waits fork bs s.map_joint
unfolding update_loop remove_joint OrdSet.contains
contains-update_loop fork [] s = refl
contains-update_loop fork (b ∷ bs) s = ground (
  arith,
  contains-update_loop fork bs s,
  contains-update_loop fork bs (remove_joint b.hash s).0,
  contains-append fork (remove_pairs b.hash s.map_joint).0
      (update_loop bs (remove_joint b.hash s).0).1,
  contains-remove_pairs b.hash fork s.map_joint,
  waits-remove_pairs b.hash fork bs s.map_joint,
)

starts-append :
    (joint : ℕ) (xs ys : List BlockAdded)
    → starts joint (xs ++ ys) ≡ (starts joint xs || starts joint ys)
starts-append joint [] ys = refl
starts-append joint (b ∷ xs) ys = ground (arith, starts-append joint xs ys)

starts-reverse : (joint : ℕ) (bs : List BlockAdded) → starts joint (reverse bs) ≡ starts joint bs
starts-reverse joint [] = refl
starts-reverse joint (b ∷ bs) =
    ap (starts joint) (reverse-cons b bs)
    ∙ starts-append joint (reverse bs) (b ∷ [])
    ∙ ground (arith, starts-reverse joint bs)

waits-append :
    (fork : ℕ) (xs ys : List BlockAdded) (m : List (ℕ × ℕ))
    → waits fork (xs ++ ys) m ≡ (waits fork xs m || waits fork ys m)
waits-append fork [] ys m = refl
waits-append fork (b ∷ xs) ys m = ground (arith, waits-append fork xs ys m)

waits-reverse :
    (fork : ℕ) (bs : List BlockAdded) (m : List (ℕ × ℕ))
    → waits fork (reverse bs) m ≡ waits fork bs m
waits-reverse fork [] m = refl
waits-reverse fork (b ∷ bs) m =
    ap (λ x. waits fork x m) (reverse-cons b bs)
    ∙ waits-append fork (reverse bs) (b ∷ []) m
    ∙ ground (arith, waits-reverse fork bs m)

waits_empty : (fork : ℕ) (bs : List BlockAdded) → waits fork bs [] ≡ false
waits_empty fork [] = refl
waits_empty fork (b ∷ bs) = ground (arith, waits_empty fork bs)

is_joint_empty-eq : (s : ForkSchedule) → is_joint_empty s ≡ true → s.map_joint ≡ []
is_joint_empty-eq s h = go s.map_joint h
  where
    go : (m : List (ℕ × ℕ)) → elim m as (λ _. Bool) [ [] ↦ true | p ∷ rest ↦ false ] ≡ true → m ≡ []
    go [] h = refl
    go (p ∷ rest) h = cc

sched_of-put :
    (fork : ℕ) (s : ForkSchedule) (m : List (ℕ × ForkSchedule))
    → sched_of fork (OrdMap.put fork s m) ≡ s
unfolding sched_of
sched_of-put fork s m =
    let same : (fork == fork) ≡ true = ground arith in
    rw (find-put fork fork s m, sched_of, same) refl

-- ForkUpdate makes active exactly the forks that wait, in the schedule of the fork, for one of the
-- blocks that the update adds and that are neither extended nor vacant; after it exactly those no
-- longer wait.
pub fork_update-joints :
    (fork joint waiting : ℕ) (blocks : List BlockAdded) (m : ForkManager)
    → (has_pair joint waiting (joints_of fork (fork_update fork blocks m).0)
        ≡ (has_pair joint waiting (joints_of fork m) && not (starts joint blocks)))
      × (OrdSet.contains waiting (fork_update fork blocks m).1
          ≡ waits waiting blocks (joints_of fork m))
unfolding fork_update OrdSet.contains
fork_update-joints fork joint waiting blocks m =
    let s = sched_of fork m.fork_sched in
    elim (Bool-cases (is_joint_empty s)) [
      | inl none_wait ↦
          let e = is_joint_empty-eq s none_wait in
          let nobody : has_pair joint waiting s.map_joint ≡ false = ap (has_pair joint waiting) e in
          let kept =
            ap (λ (x : ForkSchedule). has_pair joint waiting x.map_joint)
              (sched_of-put fork s m.fork_sched) in
          rw (none_wait, fork_update)
            (
              ground (arith, nobody, kept),
              sym (ap (waits waiting blocks) e ∙ waits_empty waiting blocks),
            )
      | inr some_wait ↦
          let bs = reverse blocks in
          let kept =
            ap (λ (x : ForkSchedule). has_pair joint waiting x.map_joint)
              (sched_of-put fork (update_loop bs s).0 m.fork_sched) in
          rw (some_wait, fork_update)
            (
              kept
                  ∙ has_pair-update_loop joint waiting bs s
                  ∙ ap (λ b. has_pair joint waiting s.map_joint && not b)
                      (starts-reverse joint blocks),
              contains-update_loop waiting bs s ∙ waits-reverse waiting blocks s.map_joint,
            )
    ]
