-- ===== src/NodeManager/Run.antt =====
-- The calls of CNodeManager as data, and histories of them.
use Prim.Native.String.{String}
use mamio.Base.{ℕ, ◌≡◌, Bool, List, [], ◌∷◌, Option, none, some, arith, Key, Option-cases, inl, inr}
use mamio.NodeManager.{NodeManager, add_new, remove, set_data, clear, employ, dismiss, ban, empty}
use mamio.NodeManager.Removal.{Kept, some-Kept}
use mamio.NodeManager.Keeps.{
  remove-Kept, set_data-Kept, employ-Kept, dismiss-Kept, add_new-Kept, ban-Kept,
}

pub data Call (E A D : Type 0) : Type 0 where
  added : ℕ → E → String → Option D → Call E A D
  removed : E → Call E A D
  stored : E → Option D → Call E A D
  cleared : Call E A D
  employed : ℕ → Call E A D
  dismissed : ℕ → E → Bool → Bool → Call E A D
  banned : A → ℕ → Call E A D

module _ {E A D : Type 0} ⦃ke : Key E⦄ ⦃ka : Key A⦄ (address : E → A) where
  -- What a call leaves of the node manager.
  unfoldable pub step : Call E A D → NodeManager E A D → Option (NodeManager E A D)
  step (Call.added now e name content) m = add_new address now e name content m
  step (Call.removed e) m = some (remove e m)
  step (Call.stored e content) m = some (set_data e content m).0
  step Call.cleared m = some (clear m)
  step (Call.employed now) m = elim (employ now m) [ none ↦ some m | some (e, m') ↦ some m' ]
  step (Call.dismissed now e force_retry reset) m = dismiss now e force_retry reset m
  step (Call.banned a ban_to) m = some (ban address a ban_to m)

  unfoldable pub run : List (Call E A D) → NodeManager E A D → Option (NodeManager E A D)
  run [] m = some m
  run (c ∷ cs) m = elim (step c m) [ none ↦ none | some m' ↦ run cs m' ]

  step-Kept : (c : Call E A D) (m m' : NodeManager E A D) → Kept m → step c m ≡ some m' → Kept m'
  unfolding step clear
  step-Kept (Call.added now e name content) m m' v h =
      add_new-Kept address now e name content m m' v h
  step-Kept (Call.removed e) m m' v h = some-Kept (remove e m) m' (remove-Kept e m v) h
  step-Kept (Call.stored e content) m m' v h =
      some-Kept (set_data e content m).0 m' (set_data-Kept e content m v) h
  step-Kept Call.cleared m m' v h = some-Kept (clear m) m' (omega arith, tt) h
  step-Kept (Call.employed now) m m' v h = elim (Option-cases (employ now m)) [
    | inl nothing ↦ some-Kept m m' v (rw (nothing, step) at h)
    | inr ((e, left), taken) ↦
        some-Kept left m' (employ-Kept now m left e v taken) (rw (taken, step) at h)
  ]
  step-Kept (Call.dismissed now e force_retry reset) m m' v h =
      dismiss-Kept now e force_retry reset m m' v h
  step-Kept (Call.banned a ban_to) m m' v h =
      some-Kept (ban address a ban_to m) m' (ban-Kept address a ban_to m v) h

  run_from-Kept :
      (cs : List (Call E A D)) (m m' : NodeManager E A D) → Kept m → run cs m ≡ some m' → Kept m'
  unfolding run
  run_from-Kept [] m m' v h = some-Kept m m' v h
  run_from-Kept (c ∷ cs) m m' v h = elim (Option-cases (step c m)) [
    | inl endless ↦ absurd (ground (arith, rw (endless, run) at h))
    | inr (left, ends) ↦ run_from-Kept cs left m' (step-Kept c m left v ends) (rw (ends, run) at h)
  ]

  -- After any history of calls that has ended, the idle nodes stand in the order of their times, as
  -- Employ and Ban expect, and are no more than MAX_IDLENODES.
  pub run-Kept : (cs : List (Call E A D)) (m : NodeManager E A D) → run cs empty ≡ some m → Kept m
  run-Kept cs m h = run_from-Kept cs empty m (omega arith, tt) h
