-- ===== src/Schedule/Entry.antt =====
-- What the operations of CSchedule do to mapState, entry by entry.
use mathlib.Core.Path.{subst₂}
use mamio.Base.{
  ℕ, ◌≡◌, refl, inl, inr, List, [], ◌∷◌, none, some, arith, nat_key, if◌then◌else◌, Option-cases,
  Bool-cases,
}
use mamio.Base.OrdMap
use mamio.Base.OrdMap.{find-put, find-erase}
use mamio.Schedule.Inv.{Inv, inv_key, inv_eq, inv_eq_iff}
use mamio.Schedule.State.{InvState, Schedule}
use mamio.Schedule.Ops.{forget_inv, remove_orphan, remove_inv}

module _ {B T : Type 0} where
  abbrev pub Entries : (Inv → InvState B T → Type 0) → List (Inv × InvState B T) → Type 0
  Entries P m = (inv : Inv) (st : InvState B T) → OrdMap.find inv m ≡ some st → P inv st

  pub map_state-forget_inv :
      (inv : Inv) (nonces : List ℕ) (s : Schedule B T)
      → (forget_inv inv nonces s).map_state ≡ s.map_state
  unfolding forget_inv
  map_state-forget_inv inv [] s = refl
  map_state-forget_inv inv (n ∷ ns) s = map_state-forget_inv inv ns _

  pub map_state-remove_orphan :
      (inv : Inv) (s : Schedule B T) → (remove_orphan inv s).map_state ≡ s.map_state
  unfolding remove_orphan
  map_state-remove_orphan inv s = ground arith

  find-none :
      (inv i : Inv) (s : Schedule B T)
      → OrdMap.find inv s.map_state ≡ none
      → OrdMap.find i s.map_state ≡ (if inv_eq inv i then none else OrdMap.find i s.map_state)
  find-none inv i s e = ground (arith, inv_eq_iff inv i)

  -- RemoveInv takes out its entry and no other.
  pub find-remove_inv :
      (inv i : Inv) (s : Schedule B T) (peers : List ℕ)
      → OrdMap.find i (remove_inv inv s peers).0.map_state
        ≡ (if inv_eq inv i then none else OrdMap.find i s.map_state)
  unfolding remove_inv
  find-remove_inv inv i s peers = elim (Option-cases (OrdMap.find inv s.map_state)) [
    | inl e ↦ rw (e, remove_inv) (find-none inv i s e)
    | inr (st, e) ↦
        rw (e, remove_inv)
          (ground (
            arith,
            find-erase inv i s.map_state,
            map_state-forget_inv inv st.known_peer s,
            map_state-remove_orphan inv (forget_inv inv st.known_peer s),
          ))
  ]

module _ {B T : Type 0} (P : Inv → InvState B T → Type 0) where
  pub put-Entries :
      (inv : Inv) (st : InvState B T) (m : List (Inv × InvState B T))
      → P inv st
      → Entries P m
      → Entries P (OrdMap.put inv st m)
  put-Entries inv st m p v i x e = elim (Bool-cases (inv_eq inv i)) [
    | inl h ↦
        let same : inv ≡ i = (inv_eq_iff inv i).0 h in
        let val : st ≡ x = ground (arith, find-put inv i st m) in subst₂ P same val p
    | inr h ↦ v i x (ground (arith, find-put inv i st m))
  ]

  pub erase-Entries :
      (inv : Inv) (m : List (Inv × InvState B T)) → Entries P m → Entries P (OrdMap.erase inv m)
  erase-Entries inv m v i x e = v i x (ground (arith, find-erase inv i m))

  pub remove_inv-Entries :
      (inv : Inv) (s : Schedule B T) (peers : List ℕ)
      → Entries P s.map_state
      → Entries P (remove_inv inv s peers).0.map_state
  remove_inv-Entries inv s peers v i x e = v i x (ground (arith, find-remove_inv inv i s peers))
