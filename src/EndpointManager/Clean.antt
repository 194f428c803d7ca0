-- ===== src/EndpointManager/Clean.antt =====
-- What CleanInactiveAddress leaves of the map of addresses.
use mamio.Base.{
  ℕ, ◌≤◌, ◌≡◌, refl, Bool, true, false, ◌||◌, List, [], ◌∷◌, arith, length, Key, Bool-cases, inl,
  inr,
}
use mamio.Base.OrdMap
use mamio.AddressStatus.{AddressStatus}
use mamio.EndpointManager.Addresses.{
  max_address_count, is_active, insert_seen, active_loop, oldest_loop, clean_inactive_address,
}

module _ {A : Type 0} ⦃ka : Key A⦄ where
  -- Whether an address stands among those in the order of the times.
  abbrev seen_in : A → List (ℕ × A) → Bool
  seen_in a [] = false
  seen_in a ((t, b) ∷ seen) = ka.same b a || seen_in a seen

  abbrev AllSeen : List (A × AddressStatus) → List (ℕ × A) → Type 0
  AllSeen [] seen = Unit {0}
  AllSeen ((a, s) ∷ m) seen = (seen_in a seen ≡ true) × AllSeen m seen

  seen_in-insert_seen :
      (t : ℕ) (a b : A) (seen : List (ℕ × A))
      → seen_in b (insert_seen t a seen) ≡ (ka.same a b || seen_in b seen)
  unfolding insert_seen
  seen_in-insert_seen t a b [] = refl
  seen_in-insert_seen t a b ((u, c) ∷ seen) = ground (arith, seen_in-insert_seen t a b seen)

  -- What the order already holds stays in it.
  active_loop-seen :
      (now : ℕ) (a : A) (m : List (A × AddressStatus)) (seen : List (ℕ × A))
      → seen_in a seen ≡ true
      → seen_in a (active_loop now m seen).1 ≡ true
  unfolding active_loop
  active_loop-seen now a [] seen h = h
  active_loop-seen now a ((b, s) ∷ m) seen h = elim (Bool-cases (is_active now s)) [
    | inl yes_active ↦
        rw (yes_active, active_loop)
          (active_loop-seen now a m (insert_seen s.last_seen b seen)
            (ground (arith, seen_in-insert_seen s.last_seen b a seen, h)))
    | inr idle ↦ rw (idle, active_loop) (active_loop-seen now a m seen h)
  ]

  active_loop-AllSeen :
      (now : ℕ) (m : List (A × AddressStatus)) (seen : List (ℕ × A))
      → AllSeen (active_loop now m seen).0 (active_loop now m seen).1
  unfolding active_loop
  active_loop-AllSeen now [] seen = tt
  active_loop-AllSeen now ((a, s) ∷ m) seen = elim (Bool-cases (is_active now s)) [
    | inl yes_active ↦
        let here : ka.same a a ≡ true = (ka.same_iff a a).1 refl in
        rw (yes_active, active_loop)
          (
            active_loop-seen now a m (insert_seen s.last_seen a seen)
                (ground (arith, seen_in-insert_seen s.last_seen a a seen, here)),
            active_loop-AllSeen now m (insert_seen s.last_seen a seen),
          )
    | inr idle ↦ rw (idle, active_loop) (active_loop-AllSeen now m seen)
  ]

  erase-AllSeen :
      (t : ℕ) (a : A) (m : List (A × AddressStatus)) (seen : List (ℕ × A))
      → AllSeen m ((t, a) ∷ seen)
      → AllSeen (OrdMap.erase a m) seen
  unfolding OrdMap.erase
  erase-AllSeen t a [] seen v = tt
  erase-AllSeen t a ((b, s) ∷ m) seen v =
      ground (arith, erase-AllSeen t a m seen v.1, v.0, ka.same_iff a b, ka.same_iff b a)

  length-oldest_loop :
      (seen : List (ℕ × A)) (m : List (A × AddressStatus))
      → AllSeen m seen
      → length (oldest_loop seen m) ≤ max_address_count
  unfolding oldest_loop
  length-oldest_loop [] [] v = omega arith
  length-oldest_loop [] ((a, s) ∷ m) v = absurd (ground (arith, v.0))
  length-oldest_loop ((t, a) ∷ seen) m v =
      ground (arith, length-oldest_loop seen (OrdMap.erase a m) (erase-AllSeen t a m seen v))

  -- CleanInactiveAddress leaves at most MAX_ADDRESS_COUNT addresses, however many were active.
  pub length-clean_inactive_address :
      (now : ℕ) (m : List (A × AddressStatus))
      → length (clean_inactive_address now m) ≤ max_address_count
  unfolding clean_inactive_address
  length-clean_inactive_address now m = ground (
    arith,
    length-oldest_loop (active_loop now m []).1 (active_loop now m []).0
        (active_loop-AllSeen now m []),
  )
