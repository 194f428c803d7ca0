-- ===== src/AddressStatus.antt =====
-- src/xengine/peernet/epmngr.h and epmngr.cpp, classes CConnAttempt and CAddressStatus: how often an
-- address connects, its score and its ban. Times are seconds since the epoch, so natural numbers; a
-- clock that goes back is followed as the source does. The failure text is left out.
pub mod Attempts
pub mod Score
use mamio.Base.{
  ℕ, zero, suc, ◌+◌, ◌-◌, ◌*◌, ◌/◌, ◌%◌, ◌^◌, Bool, true, false, not, ◌&&◌, List, [], ◌∷◌, ltb, leb,
  if◌then◌else◌, get_or, set,
}
use mamio.Base.Int.{ℤ, pos, neg_part, ◌+ℤ◌, ◌-ℤ◌, leb_ℤ, ltb_ℤ, negsuc}

abbrev pub attempt_limit : ℕ
attempt_limit = 8

abbrev pub counter_interval : ℕ
counter_interval = 10

abbrev pub counter_num : ℕ
counter_num = 8

abbrev pub connection_limit : ℕ
connection_limit = 5

abbrev pub min_score : ℤ
min_score = negsuc 499

abbrev pub max_score : ℤ
max_score = pos 100

abbrev pub bantime_base : ℕ
bantime_base = 20

abbrev pub attempt_penalty : ℕ
attempt_penalty = 50

pub record ConnAttempt : Type 0 where
  pub array_attempt : List ℕ
  pub attempts : ℕ
  pub start_index : ℕ
  pub start_time : ℕ

abbrev pub one_first : ℕ → List ℕ
one_first n = n ∷ 0 ∷ 0 ∷ 0 ∷ 0 ∷ 0 ∷ 0 ∷ 0 ∷ []

abbrev pub new_attempt : ConnAttempt
new_attempt = record { array_attempt = one_first 0; attempts = 0; start_index = 0; start_time = 0 }

-- A round of the `while`: the oldest counter leaves the window.
unfoldable pub drop_oldest : ConnAttempt → ConnAttempt
drop_oldest a = record {
  array_attempt = set a.array_attempt a.start_index 0;
  attempts = a.attempts - get_or a.array_attempt a.start_index 0;
  start_index = (a.start_index + 1) % counter_num;
  start_time = a.start_time + counter_interval;
}

-- The `while`, with the offset that it leaves.
unfoldable pub drop_loop : ℕ → ConnAttempt → ConnAttempt × ℕ
drop_loop zero a = (a, 0)
drop_loop (suc offset) a =
    let rest = drop_loop offset (drop_oldest a) in
    if leb counter_num (suc offset) then rest else (a, suc offset)

unfoldable pub count_at : ℕ → ConnAttempt → ConnAttempt × Bool
count_at i a = (
  record a {
    array_attempt = set a.array_attempt i (get_or a.array_attempt i 0 + 1);
    attempts = a.attempts + 1;
  },
  leb (a.attempts + 1) attempt_limit,
)

unfoldable pub count_from : ConnAttempt × ℕ → ConnAttempt × Bool
count_from (a, offset) = count_at ((a.start_index + offset) % counter_num) a

-- When the clock went back the offset is negative, and COUNTER_MASK takes it modulo COUNTER_NUM.
unfoldable pub attempt : ℕ → ConnAttempt → ConnAttempt × Bool
attempt ts a =
    if ltb ts a.start_time
    then count_at
        ((a.start_index + (counter_num - (a.start_time - ts) / counter_interval % counter_num))
          % counter_num)
        a
    else if leb (counter_num * 2) ((ts - a.start_time) / counter_interval)
    then (
      record { array_attempt = one_first 1; attempts = 1; start_index = 0; start_time = ts },
      true,
    )
    else count_from (drop_loop ((ts - a.start_time) / counter_interval) a)

pub record AddressStatus : Type 0 where
  pub score : ℤ
  pub last_seen : ℕ
  pub ban_to : ℕ
  pub conn_attempt : ConnAttempt
  pub connections : ℤ

abbrev pub new_status : AddressStatus
new_status = record {
  score = pos 0;
  last_seen = 0;
  ban_to = 0;
  conn_attempt = new_attempt;
  connections = pos 0;
}

-- The quotient of two negative numbers is that of their sizes.
abbrev pub bantime : ℤ → ℕ
bantime score = bantime_base * 2 ^ (11 * neg_part score / 500)

unfoldable pub ban : ℕ → AddressStatus → AddressStatus
ban ts s =
    if ltb_ℤ s.score (pos 0)
    then record s { ban_to = (if ltb s.ban_to ts then ts else s.ban_to) + bantime s.score }
    else s

unfoldable pub penalize : ℤ → ℕ → AddressStatus → AddressStatus
penalize points ts s =
    let left = s.score -ℤ points in
    ban ts (record s { score = if ltb_ℤ left min_score then min_score else left })

unfoldable pub reward : ℤ → ℕ → AddressStatus → AddressStatus
reward points ts s =
    let sum = s.score +ℤ points in
    record s { score = if ltb_ℤ max_score sum then max_score else sum; last_seen = ts }

unfoldable pub in_bound_attempt : ℕ → AddressStatus → AddressStatus × Bool
in_bound_attempt ts s =
    let (a, allowed) = attempt ts s.conn_attempt in
    let s' = record s { last_seen = ts; conn_attempt = a } in
    if not allowed
    then (penalize (pos attempt_penalty) ts s', false)
    else (s', not (ltb ts s.ban_to))

unfoldable pub add_connection : Bool → Bool → AddressStatus → AddressStatus × Bool
add_connection in_bound limit_connect s =
    if limit_connect && leb_ℤ (pos (if in_bound then connection_limit else 1)) s.connections
    then (s, false)
    else (record s { connections = s.connections +ℤ pos 1 }, true)

unfoldable pub remove_connection : AddressStatus → AddressStatus
remove_connection s = record s { connections = s.connections -ℤ pos 1 }
