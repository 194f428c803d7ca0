-- ===== src/Examples/Addresses.antt =====
-- src/xengine/peernet/epmngr.cpp, an address that connects too often.
use mamio.Base.{ℕ, ◌+◌, ◌*◌, ◌≤◌, ◌≡◌, refl, List, [], ◌∷◌, arith, true, false, leb}
use mamio.Base.Int.{pos, ◌≤ℤ◌, ltb_ℤ, ◌-ℤ◌}
use mamio.AddressStatus.{
  attempt, new_attempt, new_status, attempt_limit, min_score, max_score, penalize, bantime_base,
  ban, drop_loop, drop_oldest, count_at, count_from,
}
use mamio.AddressStatus.Attempts.{sum, attempt_all, attempt_counts}
use mamio.AddressStatus.Score.{
  Event, in_bounds, rewarded, penalized, happen_all, max, score_range, penalize_ban,
}

-- Eight attempts within 30 seconds.
abbrev times : List ℕ
times = 1000 ∷ 1001 ∷ 1002 ∷ 1010 ∷ 1011 ∷ 1020 ∷ 1021 ∷ 1030 ∷ []

ninth_test : (attempt 1031 (attempt_all times new_attempt)).1 ≡ false
unfolding attempt attempt_all drop_loop drop_oldest count_at count_from
ninth_test = refl

later_test : (attempt 1085 (attempt_all times new_attempt)).1 ≡ true
unfolding attempt attempt_all drop_loop drop_oldest count_at count_from
later_test = refl

attempt_counts_example :
    ((attempt 1031 (attempt_all times new_attempt)).0.attempts
      ≡ sum (attempt 1031 (attempt_all times new_attempt)).0.array_attempt)
    × ((attempt 1031 (attempt_all times new_attempt)).1
        ≡ leb (sum (attempt 1031 (attempt_all times new_attempt)).0.array_attempt) attempt_limit)
attempt_counts_example = attempt_counts times 1031

abbrev events : List Event
events = rewarded 300 5 ∷ penalized 900 6 ∷ in_bounds 7 ∷ []

score_range_example :
    (min_score ≤ℤ (happen_all new_status events).score)
    × ((happen_all new_status events).score ≤ℤ max_score)
score_range_example = score_range events

below_zero : ltb_ℤ (penalize (pos 60) 100 new_status).score (pos 0) ≡ true
unfolding penalize ban ◌-ℤ◌
below_zero = refl

penalize_ban_example :
    (max 0 100 + bantime_base ≤ (penalize (pos 60) 100 new_status).ban_to)
    × ((penalize (pos 60) 100 new_status).ban_to ≤ max 0 100 + bantime_base * 2048)
penalize_ban_example = penalize_ban 60 100 new_status (omega arith, omega arith) below_zero
