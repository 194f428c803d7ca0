-- ===== src/EndpointManager/Ban.antt =====
-- The end of the ban of an address in the map of statuses.
use mamio.Base.{
  Bool, ltb, if_cases, Option-cases, ℕ, ◌≤◌, ◌+◌, ◌<◌, ◌≡◌, refl, true, false, List, [], ◌∷◌, arith,
  if◌then◌else◌, Key, Bool-cases, inl, inr,
}
use mamio.Base.OrdMap
use mamio.Base.OrdMap.{find-put, find-erase}
use mamio.Base.OrdSet
use mamio.AddressStatus
use mamio.AddressStatus.{AddressStatus, in_bound_attempt, penalize, add_connection}
use mamio.EndpointManager.Addresses.{status_of, clear_banned}
use mamio.EndpointManager.Calls.{EndpointManager, set_ban}

pub attempt_ban_to : (now : ℕ) (s : AddressStatus) → s.ban_to ≤ (in_bound_attempt now s).0.ban_to
unfolding in_bound_attempt penalize AddressStatus.ban
attempt_ban_to now s = ground arith

pub connection_ban_to :
    (in_bound limited : Bool) (s : AddressStatus)
    → (add_connection in_bound limited s).0.ban_to ≡ s.ban_to
unfolding add_connection
connection_ban_to in_bound limited s = ground arith

pub in_bound_attempt_banned :
    (now : ℕ) (s : AddressStatus) → now < s.ban_to → (in_bound_attempt now s).1 ≡ false
unfolding in_bound_attempt
in_bound_attempt_banned now s h = ground arith

module _ {A : Type 0} ⦃ka : Key A⦄ where
  status_of-put :
      (a b : A) (s : AddressStatus) (m : List (A × AddressStatus))
      → status_of b (OrdMap.put a s m) ≡ (if ka.same a b then s else status_of b m)
  unfolding status_of
  status_of-put a b s m =
      rw (find-put a b s m, status_of)
        (elim (Bool-cases (ka.same a b)) [ inl same ↦ rw same refl | inr other ↦ rw other refl ])

module _ {A : Type 0} ⦃ka : Key A⦄ (a : A) (until : ℕ) where
  -- The address is banned up to the time.
  abbrev pub Holds : List (A × AddressStatus) → Type 0
  Holds m = until ≤ (status_of a m).ban_to

  pub Holds-put :
      (b : A) (s : AddressStatus) (m : List (A × AddressStatus))
      → (ka.same b a ≡ true → until ≤ s.ban_to)
      → Holds m
      → Holds (OrdMap.put b s m)
  Holds-put b s m h v = elim (Bool-cases (ka.same b a)) [
    | inl same ↦ let le = h same in ground (arith, status_of-put b a s m)
    | inr other ↦ ground (arith, status_of-put b a s m)
  ]

  pub Holds-touch :
      (b : A) (s : AddressStatus) (m : List (A × AddressStatus))
      → (status_of b m).ban_to ≤ s.ban_to
      → Holds m
      → Holds (OrdMap.put b s m)
  Holds-touch b s m le v =
      Holds-put b s m
        (λ same.
          let p : b ≡ a = (ka.same_iff b a).0 same in
          let le' : (status_of a m).ban_to ≤ s.ban_to = rw p at le in omega arith)
        v

  status_of-erase :
      (b : A) (m : List (A × AddressStatus))
      → ka.same b a ≡ false
      → status_of a (OrdMap.erase b m) ≡ status_of a m
  unfolding status_of
  status_of-erase b m other = rw (find-erase b a m, status_of) (rw other refl)

  pub clear_banned-Holds :
      (now : ℕ) (addresses : List A) (m : List (A × AddressStatus))
      → OrdSet.contains a addresses ≡ false
      → Holds m
      → Holds (clear_banned now addresses m)
  unfolding clear_banned OrdSet.contains
  clear_banned-Holds now [] m h v = v
  clear_banned-Holds now (b ∷ rest) m h v =
      let other : ka.same b a ≡ false = ground (arith, h) in
      let unlisted : OrdSet.contains a rest ≡ false = ground (arith, h) in
      elim (Option-cases (OrdMap.find b m)) [
        | inl missing ↦ rw (clear_banned, missing) (clear_banned-Holds now rest m unlisted v)
        | inr (s, found) ↦
            rw (clear_banned, found)
              (clear_banned-Holds now rest _ unlisted (
                if_cases Holds (ltb now s.ban_to) (λ t. rw (status_of-erase b m other) v) (λ t. v)))
      ]

module _ {E A D : Type 0} ⦃ke : Key E⦄ ⦃ka : Key A⦄ (address : E → A) where
  -- A ban of an address that was banned before keeps its end, and any other stays as well.
  set_ban-keeps :
      (now ban_time : ℕ) (a : A) (addresses : List A) (m : EndpointManager E A D)
      → (status_of a m.status).ban_to ≡ now + ban_time
      → (status_of a (set_ban address now addresses ban_time m).status).ban_to ≡ now + ban_time
  unfolding set_ban
  set_ban-keeps now ban_time a [] m h = h
  set_ban-keeps now ban_time a (b ∷ rest) m h = set_ban-keeps now ban_time a rest _ (
      ground (
        arith,
        status_of-put b a
            (record (status_of b m.status) { ban_to = now + ban_time; last_seen = now }) m.status,
      ))

  pub set_ban-ban_to :
      (now ban_time : ℕ) (a : A) (addresses : List A) (m : EndpointManager E A D)
      → OrdSet.contains a addresses ≡ true
      → (status_of a (set_ban address now addresses ban_time m).status).ban_to ≡ now + ban_time
  unfolding set_ban OrdSet.contains
  set_ban-ban_to now ban_time a [] m h = cc
  set_ban-ban_to now ban_time a (b ∷ rest) m h = elim (Bool-cases (ka.same b a)) [
    | inl same ↦ set_ban-keeps now ban_time a rest _ (
        ground (
          arith,
          status_of-put b a
              (record (status_of b m.status) { ban_to = now + ban_time; last_seen = now }) m.status,
        ))
    | inr other ↦ set_ban-ban_to now ban_time a rest _ (ground arith)
  ]
