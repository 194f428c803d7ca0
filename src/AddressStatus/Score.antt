-- ===== src/AddressStatus/Score.antt =====
-- The score, the ban and the connections of an address.
use mamio.Base.{
  ℕ, zero, suc, ◌+◌, ◌-◌, ◌*◌, ◌/◌, ◌^◌, ◌≤◌, ◌≡◌, sym, subst, inl, inr, List, [], ◌∷◌, arith, Bool,
  true, not, Bool-cases, if◌then◌else◌, leb,
}
use mamio.Base.Int.{ℤ, pos, ◌+ℤ◌, ◌-ℤ◌, ◌≤ℤ◌, pos_part, neg_part, sub_ℕ, ltb_ℤ}
use mamio.AddressStatus.{
  AddressStatus, new_status, min_score, max_score, bantime_base, bantime, ban, penalize, reward,
  in_bound_attempt, attempt, attempt_penalty, add_connection, remove_connection,
}

-- What the endpoint manager does to an address; the points are never negative.
pub data Event : Type 0 where
  in_bounds : ℕ → Event
  rewarded : ℕ → ℕ → Event
  penalized : ℕ → ℕ → Event
  connected : Bool → Bool → Event
  closed : Event

abbrev pub max : ℕ → ℕ → ℕ
max a b = if leb a b then b else a

unfoldable pub happen : AddressStatus → Event → AddressStatus
happen s (in_bounds ts) = (in_bound_attempt ts s).0
happen s (rewarded points ts) = reward (pos points) ts s
happen s (penalized points ts) = penalize (pos points) ts s
happen s (connected in_bound limit) = (add_connection in_bound limit s).0
happen s closed = remove_connection s

unfoldable pub happen_all : AddressStatus → List Event → AddressStatus
happen_all s [] = s
happen_all s (e ∷ es) = happen_all (happen s e) es

abbrev InRange : ℤ → Type 0
InRange score = (min_score ≤ℤ score) × (score ≤ℤ max_score)

score-ban : (ts : ℕ) (s : AddressStatus) → (ban ts s).score ≡ s.score
unfolding ban
score-ban ts s = ground arith

sub_parts : (a b : ℕ) → (pos_part (sub_ℕ a b) ≡ a - b) × (neg_part (sub_ℕ a b) ≡ b - a)
sub_parts a b = ground arith

reward-InRange :
    (points ts : ℕ) (s : AddressStatus) → InRange s.score → InRange (reward (pos points) ts s).score
unfolding reward ◌+ℤ◌
reward-InRange points ts s v =
    ground (arith, sub_parts (pos_part s.score + points) (neg_part s.score + 0))

penalize-InRange :
    (points ts : ℕ) (s : AddressStatus)
    → InRange s.score
    → InRange (penalize (pos points) ts s).score
unfolding penalize ◌-ℤ◌
penalize-InRange points ts s v =
    subst InRange (sym (score-ban ts _))
      (ground (arith, sub_parts (pos_part s.score + 0) (neg_part s.score + points)))

in_bound_attempt-InRange :
    (ts : ℕ) (s : AddressStatus) → InRange s.score → InRange (in_bound_attempt ts s).0.score
unfolding in_bound_attempt
in_bound_attempt-InRange ts s v = elim (Bool-cases (not (attempt ts s.conn_attempt).1)) [
  | inl h ↦ rw (h, in_bound_attempt) (penalize-InRange attempt_penalty ts _ v)
  | inr h ↦ rw (h, in_bound_attempt) v
]

happen-InRange : (s : AddressStatus) (e : Event) → InRange s.score → InRange (happen s e).score
unfolding happen add_connection remove_connection
happen-InRange s (in_bounds ts) v = in_bound_attempt-InRange ts s v
happen-InRange s (rewarded points ts) v = reward-InRange points ts s v
happen-InRange s (penalized points ts) v = penalize-InRange points ts s v
happen-InRange s (connected in_bound limit) v = ground arith
happen-InRange s closed v = v

happen_all-InRange :
    (s : AddressStatus) (es : List Event) → InRange s.score → InRange (happen_all s es).score
unfolding happen_all
happen_all-InRange s [] v = v
happen_all-InRange s (e ∷ es) v = happen_all-InRange (happen s e) es (happen-InRange s e v)

-- Whatever happens to a new address, its score stays between MIN_SCORE and MAX_SCORE.
pub score_range :
    (es : List Event)
    → (min_score ≤ℤ (happen_all new_status es).score)
      × ((happen_all new_status es).score ≤ℤ max_score)
score_range es = happen_all-InRange new_status es (omega arith, omega arith)

pow_bound : (e n : ℕ) → e ≤ n → (1 ≤ 2 ^ e) × (2 ^ e ≤ 2 ^ n)
pow_bound zero zero h = (omega arith, omega arith)
pow_bound zero (suc n) h = omega (arith, pow_bound zero n (omega arith))
pow_bound (suc e) zero h = absurd (omega arith)
pow_bound (suc e) (suc n) h = omega (arith, pow_bound e n (omega arith))

bantime_bound :
    (score : ℤ)
    → min_score ≤ℤ score
    → (bantime_base ≤ bantime score) × (bantime score ≤ bantime_base * 2048)
bantime_bound score h = omega (arith, pow_bound (11 * neg_part score / 500) 11 (ground arith))

ban_bound :
    (ts : ℕ) (s : AddressStatus)
    → min_score ≤ℤ s.score
    → ltb_ℤ s.score (pos 0) ≡ true
    → (max s.ban_to ts + bantime_base ≤ (ban ts s).ban_to)
      × ((ban ts s).ban_to ≤ max s.ban_to ts + bantime_base * 2048)
unfolding ban
ban_bound ts s v h = ground (arith, bantime_bound s.score v)

-- A penalty that leaves the score of an address below zero, on an address whose score is between
-- MIN_SCORE and MAX_SCORE, puts the end of its ban at least
-- BANTIME_BASE and at most BANTIME_BASE * 2 ^ 11 seconds after the moment and after its old end,
-- whichever is later.
pub penalize_ban :
    (points ts : ℕ) (s : AddressStatus)
    → (min_score ≤ℤ s.score) × (s.score ≤ℤ max_score)
    → ltb_ℤ (penalize (pos points) ts s).score (pos 0) ≡ true
    → (max s.ban_to ts + bantime_base ≤ (penalize (pos points) ts s).ban_to)
      × ((penalize (pos points) ts s).ban_to ≤ max s.ban_to ts + bantime_base * 2048)
unfolding penalize
penalize_ban points ts s v h =
    ban_bound ts _ (subst (λ x. min_score ≤ℤ x) (score-ban ts _) (penalize-InRange points ts s v).0)
      (subst (λ x. ltb_ℤ x (pos 0) ≡ true) (score-ban ts _) h)
