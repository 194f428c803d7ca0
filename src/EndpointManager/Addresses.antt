-- ===== src/EndpointManager/Addresses.antt =====
-- The map from addresses to statuses: its entries, its bans, and CleanInactiveAddress.
use mamio.Base.{ℕ, ◌+◌, ◌-◌, Bool, List, [], ◌∷◌, none, some, ltb, leb, if◌then◌else◌, length, Key}
use mamio.Base.Int.{ℤ}
use mamio.Base.OrdMap
use mamio.AddressStatus.{AddressStatus, new_status}

pub record AddressBanned (A : Type 0) : Type 0 where
  pub addr_banned : A
  pub score : ℤ
  pub ban_time : ℕ

abbrev pub max_address_count : ℕ
max_address_count = 2048

abbrev pub max_inactive_time : ℕ
max_inactive_time = 864000

-- nLastSeen > GetTime() - MAX_INACTIVE_TIME.
abbrev pub is_active : ℕ → AddressStatus → Bool
is_active now s = ltb now (s.last_seen + max_inactive_time)

module _ {A : Type 0} where
  -- The multimap from the time of the last contact: a new entry goes behind those of its time.
  unfoldable pub insert_seen : ℕ → A → List (ℕ × A) → List (ℕ × A)
  insert_seen t a [] = (t, a) ∷ []
  insert_seen t a ((u, b) ∷ m) = if ltb t u then (t, a) ∷ (u, b) ∷ m else (u, b) ∷ insert_seen t a m

  -- The first loop of CleanInactiveAddress: the statuses that it leaves, and the order of the times.
  unfoldable pub active_loop :
      ℕ → List (A × AddressStatus) → List (ℕ × A) → List (A × AddressStatus) × List (ℕ × A)
  active_loop now [] seen = ([], seen)
  active_loop now ((a, s) ∷ m) seen =
      let (kept, order) = active_loop now m (insert_seen s.last_seen a seen) in
      let rest = active_loop now m seen in if is_active now s then ((a, s) ∷ kept, order) else rest

  unfoldable pub get_banned : ℕ → List (A × AddressStatus) → List (AddressBanned A)
  get_banned now [] = []
  get_banned now ((a, s) ∷ m) =
      let rest = get_banned now m in
      if ltb now s.ban_to
      then record { addr_banned = a; score = s.score; ban_time = s.ban_to - now } ∷ rest
      else rest

  unfoldable pub clear_all_banned : ℕ → List (A × AddressStatus) → List (A × AddressStatus)
  clear_all_banned now [] = []
  clear_all_banned now ((a, s) ∷ m) =
      let rest = clear_all_banned now m in if ltb now s.ban_to then rest else (a, s) ∷ rest

module _ {A : Type 0} ⦃ka : Key A⦄ where
  unfoldable pub status_of : A → List (A × AddressStatus) → AddressStatus
  status_of a m = elim (OrdMap.find a m) [ none ↦ new_status | some s ↦ s ]

  -- The second loop of CleanInactiveAddress.
  unfoldable pub oldest_loop : List (ℕ × A) → List (A × AddressStatus) → List (A × AddressStatus)
  oldest_loop [] m = m
  oldest_loop ((t, a) ∷ seen) m =
      let rest = oldest_loop seen (OrdMap.erase a m) in
      if ltb max_address_count (length m) then rest else m

  unfoldable pub clean_inactive_address : ℕ → List (A × AddressStatus) → List (A × AddressStatus)
  clean_inactive_address now m =
      let (kept, order) = active_loop now m [] in
      if leb (length m) max_address_count then m else oldest_loop order kept

  unfoldable pub clear_banned : ℕ → List A → List (A × AddressStatus) → List (A × AddressStatus)
  clear_banned now [] m = m
  clear_banned now (a ∷ as_left) m = elim (OrdMap.find a m) [
    | none ↦ clear_banned now as_left m
    | some s ↦ clear_banned now as_left (if ltb now s.ban_to then OrdMap.erase a m else m)
  ]

  unfoldable pub get_endpoint_score : A → List (A × AddressStatus) → ℤ × List (A × AddressStatus)
  get_endpoint_score a m = ((status_of a m).score, OrdMap.put a (status_of a m) m)
