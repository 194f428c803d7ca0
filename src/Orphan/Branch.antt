-- ===== src/Orphan/Branch.antt =====
-- What COrphan::RemoveBranch puts out and what it leaves.
use mamio.Base.{
  ℕ, zero, suc, nat_key, ◌≡◌, ◌↔◌, true, not, ◌&&◌, ◌||◌, List, [], ◌∷◌, ◌++◌, some, arith, ◌==◌,
  ==_iff, ◌⊎◌, inl, inr,
}
use mamio.Base.OrdSet.{contains}
use mamio.Orphan.{
  Orphans, Found, linked, Descends, get_next_new, remove_next, branch_loop, remove_branch,
}
use mamio.Orphan.Loop.{remove_branch-total}
use mamio.Orphan.Lookup.{contains-append, linked-remove_next, seen-get_next_new, next-get_next_new}

-- What holds at the head of the loop, for the map `m₀` that it began with.
record Inv (m₀ : Orphans) (root : ℕ) (visited : List ℕ) (f : Found) (m : Orphans) : Type 0 where
  sound : (h : ℕ) → (contains h visited || contains h f.0) ≡ true → Descends m₀ root h
  seen : (h : ℕ) → contains h f.1 ≡ (contains h visited || contains h f.0)
  kept : (p h : ℕ) → linked m p h ≡ (linked m₀ p h && not (root == p || contains p visited))
  closed :
      (p h : ℕ)
      → linked m₀ p h ≡ true
      → (root == p || contains p visited) ≡ true
      → (contains h visited || contains h f.0) ≡ true

module _ (m₀ : Orphans) (root : ℕ) where
  start-Inv : Inv m₀ root [] (get_next_new root m₀ ([], [])) (remove_next root m₀)
  unfolding contains
  start-Inv = record {
    sound = λ h e. Descends.direct h (ground (arith, next-get_next_new root h m₀ ([], [])));
    seen = λ h.
        ground (arith, next-get_next_new root h m₀ ([], []), seen-get_next_new root h m₀ ([], []));
    kept = λ p h. ground (arith, linked-remove_next root p h m₀);
    closed = λ p h e o. ground (arith, next-get_next_new root h m₀ ([], []), ==_iff root p);
  }

  step-Inv :
      (visited : List ℕ) (hash : ℕ) (pending seen : List ℕ) (m : Orphans)
      → Inv m₀ root visited (hash ∷ pending, seen) m
      → Inv m₀ root
          (visited ++ hash ∷ [])
          (get_next_new hash m (pending, seen))
          (remove_next hash m)
  unfolding contains
  step-Inv visited hash pending seen m v = record {
    sound = λ h e. elim (origin h e) [
      | inl old ↦ v.sound h old
      | inr l ↦
          Descends.onward hash h (v.sound hash (ground (arith, ==_iff hash hash)))
            (ground (arith, v.kept hash h))
    ];
    seen = λ h. ground (
      arith,
      v.seen h,
      contains-append h visited (hash ∷ []),
      next-get_next_new hash h m (pending, seen),
      seen-get_next_new hash h m (pending, seen),
    );
    kept = λ p h.
        ground
          (arith, v.kept p h, contains-append p visited (hash ∷ []), linked-remove_next hash p h m);
    closed = λ p h e o. ground (
      arith,
      v.closed p h e,
      v.kept p h,
      v.seen h,
      ==_iff hash p,
      contains-append h visited (hash ∷ []),
      contains-append p visited (hash ∷ []),
      next-get_next_new hash h m (pending, seen),
    );
  }
    where
      origin :
          (h : ℕ)
          → (contains h (visited ++ hash ∷ [])
              || contains h (get_next_new hash m (pending, seen)).0)
            ≡ true
          → ((contains h visited || contains h (hash ∷ pending)) ≡ true) ⊎ (linked m hash h ≡ true)
      origin h e =
          ground (
            arith,
            contains-append h visited (hash ∷ []),
            next-get_next_new hash h m (pending, seen),
          )

  loop-Inv :
      (fuel : ℕ) (visited : List ℕ) (f : Found) (m : Orphans) (branch : List ℕ) (rest : Orphans)
      → branch_loop fuel visited f m ≡ some (branch, rest)
      → Inv m₀ root visited f m
      → (seen : List ℕ) × Inv m₀ root branch ([], seen) rest
  unfolding branch_loop
  loop-Inv fuel visited ([], seen) m branch rest e v = (seen, ground arith)
  loop-Inv zero visited (hash ∷ pending, seen) m branch rest e v = cc
  loop-Inv (suc fuel) visited (hash ∷ pending, seen) m branch rest e v =
      loop-Inv fuel _ _ _ branch rest e (step-Inv visited hash pending seen m v)

  complete :
      (branch seen : List ℕ) (rest : Orphans)
      → Inv m₀ root branch ([], seen) rest
      → {h : ℕ} → Descends m₀ root h
      → contains h branch ≡ true
  unfolding contains
  complete branch seen rest v (Descends.direct h l) =
      ground (arith, v.closed root h l, ==_iff root root)
  complete branch seen rest v (Descends.onward p h d l) =
      ground (arith, v.closed p h l, complete branch seen rest v d)

  branch_exact :
      (branch seen : List ℕ) (rest : Orphans)
      → Inv m₀ root branch ([], seen) rest
      → ((h : ℕ) → (contains h branch ≡ true) ↔ Descends m₀ root h)
        × ((p h : ℕ) → linked rest p h ≡ (linked m₀ p h && not (root == p || contains p branch)))
  unfolding contains
  branch_exact branch seen rest v =
      (λ h. (λ e. v.sound h (ground arith), complete branch seen rest v), v.kept)

remove_branch-Inv :
    (root : ℕ) (m : Orphans) (branch : List ℕ) (rest : Orphans)
    → remove_branch root [] m ≡ some (branch, rest)
    → (seen : List ℕ) × Inv m root branch ([], seen) rest
unfolding remove_branch
remove_branch-Inv root m branch rest e = loop-Inv m root _ [] _ _ branch rest e (start-Inv m root)

-- RemoveBranch on an empty vector ends; it puts out exactly the hashes that descend from the root,
-- and leaves exactly the pairs whose predecessor is neither the root nor one of those hashes.
pub remove_branch_exact :
    (root : ℕ) (m : Orphans)
    → (branch : List ℕ) × (rest : Orphans) × (remove_branch root [] m ≡ some (branch, rest))
      × ((h : ℕ) → (contains h branch ≡ true) ↔ Descends m root h)
      × ((p h : ℕ) → linked rest p h ≡ (linked m p h && not (root == p || contains p branch)))
remove_branch_exact root m =
    let ((branch, rest), e) = remove_branch-total root [] m in
    let (seen, v) = remove_branch-Inv root m branch rest e in
    let (sound, kept) = branch_exact m root branch seen rest v in (branch, rest, e, sound, kept)
