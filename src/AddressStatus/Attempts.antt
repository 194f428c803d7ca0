-- ===== src/AddressStatus/Attempts.antt =====
-- What the counters of CConnAttempt add up to.
use mamio.Base.{
  ℕ, zero, suc, ◌+◌, ◌-◌, ◌*◌, ◌/◌, ◌<◌, ◌≡◌, refl, inl, inr, List, [], ◌∷◌, arith, length, get_or,
  set, leb, ltb, Bool-cases, Bool, true,
}
use mamio.AddressStatus.{
  ConnAttempt, new_attempt, one_first, drop_oldest, drop_loop, count_at, count_from, attempt,
  attempt_limit, counter_num, counter_interval,
}

unfoldable pub sum : List ℕ → ℕ
sum [] = 0
sum (x ∷ xs) = x + sum xs

record IsCounted (a : ConnAttempt) : Type 0 where
  size : length a.array_attempt ≡ counter_num
  index : a.start_index < counter_num
  total : a.attempts ≡ sum a.array_attempt

sum-set : (xs : List ℕ) (i v : ℕ) → i < length xs → sum (set xs i v) + get_or xs i 0 ≡ sum xs + v
unfolding sum
sum-set [] i v h = absurd (omega arith)
sum-set (x ∷ xs) zero v h = omega arith
sum-set (x ∷ xs) (suc i) v h = omega (arith, sum-set xs i v (omega arith))

length-set : (xs : List ℕ) (i v : ℕ) → length (set xs i v) ≡ length xs
length-set [] i v = refl
length-set (x ∷ xs) zero v = refl
length-set (x ∷ xs) (suc i) v = omega (arith, length-set xs i v)

drop_oldest-IsCounted : (a : ConnAttempt) → IsCounted a → IsCounted (drop_oldest a)
unfolding drop_oldest
drop_oldest-IsCounted a v = record {
  size = omega (arith, length-set a.array_attempt a.start_index 0, v.size);
  index = omega arith;
  total =
      omega
        (arith, sum-set a.array_attempt a.start_index 0 (omega (arith, v.size, v.index)), v.total);
}

drop_loop-IsCounted : (n : ℕ) (a : ConnAttempt) → IsCounted a → IsCounted (drop_loop n a).0
unfolding drop_loop
drop_loop-IsCounted zero a v = v
drop_loop-IsCounted (suc n) a v = elim (Bool-cases (leb counter_num (suc n))) [
  | inl h ↦ rw (h, drop_loop) (drop_loop-IsCounted n (drop_oldest a) (drop_oldest-IsCounted a v))
  | inr h ↦ rw (h, drop_loop) v
]

record Counts (r : ConnAttempt × Bool) : Type 0 where
  counted : IsCounted r.0
  answer : r.1 ≡ leb (sum r.0.array_attempt) attempt_limit

count_at-Counts : (i : ℕ) (a : ConnAttempt) → i < counter_num → IsCounted a → Counts (count_at i a)
unfolding count_at
count_at-Counts i a h v =
    let s = sum-set a.array_attempt i (get_or a.array_attempt i 0 + 1) (omega (arith, h, v.size)) in
    let l = length-set a.array_attempt i (get_or a.array_attempt i 0 + 1) in
    record {
      counted = record {
        size = omega (arith, l, v.size);
        index = v.index;
        total = omega (arith, s, v.total);
      };
      answer = ground (arith, s, v.total);
    }

fresh-Counts :
    (ts : ℕ)
    → Counts (
      record { array_attempt = one_first 1; attempts = 1; start_index = 0; start_time = ts },
      true,
    )
unfolding sum
fresh-Counts ts = record {
  counted = record { size = refl; index = omega arith; total = refl };
  answer = refl;
}

attempt-Counts : (ts : ℕ) (a : ConnAttempt) → IsCounted a → Counts (attempt ts a)
unfolding attempt count_from
attempt-Counts ts a v = elim (Bool-cases (ltb ts a.start_time)) [
  | inl h ↦ rw (h, attempt) (count_at-Counts _ a (omega arith) v)
  | inr h ↦ elim (Bool-cases (leb (counter_num * 2) ((ts - a.start_time) / counter_interval))) [
    | inl g ↦ rw (h, g, attempt) (fresh-Counts ts)
    | inr g ↦
        let n : ℕ = (ts - a.start_time) / counter_interval in
        rw (h, g, attempt)
          (count_at-Counts _ (drop_loop n a).0 (omega arith) (drop_loop-IsCounted n a v))
  ]
]

-- The counters after attempts at the times of a list.
unfoldable pub attempt_all : List ℕ → ConnAttempt → ConnAttempt
attempt_all [] a = a
attempt_all (ts ∷ times) a = attempt_all times (attempt ts a).0

attempt_all-IsCounted :
    (times : List ℕ) (a : ConnAttempt) → IsCounted a → IsCounted (attempt_all times a)
unfolding attempt_all
attempt_all-IsCounted [] a v = v
attempt_all-IsCounted (ts ∷ times) a v =
    attempt_all-IsCounted times _ (attempt-Counts ts a v).counted

new-IsCounted : IsCounted new_attempt
unfolding sum
new-IsCounted = record { size = refl; index = omega arith; total = refl }

-- After attempts at any times, nAttempts is the sum of the eight counters, and the next attempt is
-- let through exactly when the counters, with this attempt in them, add up to at most ATTEMPT_LIMIT.
pub attempt_counts :
    (times : List ℕ) (ts : ℕ)
    → ((attempt ts (attempt_all times new_attempt)).0.attempts
        ≡ sum (attempt ts (attempt_all times new_attempt)).0.array_attempt)
      × ((attempt ts (attempt_all times new_attempt)).1
          ≡ leb (sum (attempt ts (attempt_all times new_attempt)).0.array_attempt) attempt_limit)
attempt_counts times ts =
    let c = attempt-Counts ts _ (attempt_all-IsCounted times new_attempt new-IsCounted) in
    (c.counted.total, c.answer)
