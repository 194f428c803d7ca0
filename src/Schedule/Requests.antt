-- ===== src/Schedule/Requests.antt =====
-- What ScheduleKnownInv asks a peer for.
use mamio.Base.{
  ℕ, ◌+◌, ◌≤◌, ◌<◌, ◌≡◌, refl, subst, ltb→lt, ◌⊎◌, inl, inr, List, [], ◌∷◌, ◌++◌, some, arith,
  Bool-cases, true, false, ltb, length, length-append, ◌||◌, ◌==◌, Key, nat_key,
}
use mamio.Base.OrdMap
use mamio.Base.OrdMap.{find-put}
use mamio.Base.OrdSet
use mamio.Schedule.Inv.{Inv, inv_key, inv_eq, inv_eq_iff, msg_tx}
use mamio.Schedule.State.{Schedule, InvState, peer_at}
use mamio.Schedule.Peer.{get_known_list}
use mamio.Schedule.Known.{
  Pass, miss_loop, known_loop, miss_pass, known_pass, start_pass, assign_inv,
}
use mamio.Schedule.Choose.{finish_pass, schedule_known_inv}
use mamio.Schedule.Rounds.{IsFree, Quiet, Asks, known_round_cases, miss_round_cases}

module _ {K : Type 0} ⦃k : Key K⦄ where
  contains-append :
      (a : K) (xs ys : List K)
      → OrdSet.contains a (xs ++ ys) ≡ (OrdSet.contains a xs || OrdSet.contains a ys)
  unfolding OrdSet.contains
  contains-append a [] ys = refl
  contains-append a (x ∷ xs) ys = ground (arith, contains-append a xs ys)

module _ {B T : Type 0} where
  record Traced (now max_count : ℕ) (s : Schedule B T) (a : Pass B T) : Type 0 where
    untouched :
        (i : Inv) (st : InvState B T)
        → OrdMap.find i a.sched.map_state ≡ some st
        → (OrdSet.contains i a.v_inv ≡ true) ⊎ (OrdMap.find i s.map_state ≡ some st)
    free : (i : Inv) → OrdSet.contains i a.v_inv ≡ true → IsFree now s i
    within : length a.v_inv ≤ max_count
    room : a.stopped ≡ false → length a.v_inv < max_count

module _ {B T : Type 0} (now nonce max_count : ℕ) (s : Schedule B T) where
  Quiet-Traced : (a b : Pass B T) → Quiet a b → Traced now max_count s a → Traced now max_count s b
  Quiet-Traced a b q v = record {
    untouched = λ i x e. ground (arith, q, v.untouched i x);
    free = λ i h. v.free i (rw q.asked at h);
    within = rw q.asked v.within;
    room = λ h. rw q.asked (v.room (rw q.stop at h));
  }

  asked-IsFree :
      (inv : Inv) (a : Pass B T)
      → IsFree now a.sched inv
      → Traced now max_count s a
      → IsFree now s inv
  asked-IsFree inv a q v = elim (v.untouched inv q.state q.found) [
    | inl old ↦ v.free inv old
    | inr f ↦ record { state = q.state; found = f; unassigned = q.unassigned; timely = q.timely }
  ]

  contains-one : (i inv : Inv) → OrdSet.contains i (inv ∷ []) ≡ inv_eq inv i
  unfolding OrdSet.contains
  contains-one i inv = ground arith

  assigned-Traced :
      (inv : Inv) (a : Pass B T) (q : IsFree now a.sched inv)
      → a.stopped ≡ false
      → Traced now max_count s a
      → Traced now max_count s (assign_inv nonce max_count inv q.state a)
  assigned-Traced inv a q g v = record {
    untouched = λ i x e. ground (
      arith,
      v.untouched i x,
      contains-append i a.v_inv (inv ∷ []),
      contains-one i inv,
      find-put inv i
          (record (q.state) { assigned = nonce; get_data_count = q.state.get_data_count + 1 })
          a.sched.map_state,
    );
    free = λ i h. elim (Bool-cases (OrdSet.contains i a.v_inv)) [
      | inl old ↦ v.free i old
      | inr new ↦
          subst (IsFree now s)
            ((inv_eq_iff inv i).0
              (ground (arith, contains-append i a.v_inv (inv ∷ []), contains-one i inv)))
            (asked-IsFree inv a q v)
    ];
    within = omega (arith, v.room g, length-append a.v_inv (inv ∷ []));
    room = λ h. ground (arith, v.room g, length-append a.v_inv (inv ∷ []));
  }

  round-Traced :
      (inv : Inv) (a b : Pass B T)
      → Quiet a b ⊎ Asks now nonce max_count inv a b
      → Traced now max_count s a
      → Traced now max_count s b
  round-Traced inv a b (inl q) v = Quiet-Traced a b q v
  round-Traced inv a b (inr q) v = rw q.result (assigned-Traced inv a q.free q.going v)

  miss_loop-Traced :
      (invs : List Inv) (a : Pass B T)
      → Traced now max_count s a
      → Traced now max_count s (miss_loop now nonce max_count invs a)
  unfolding miss_loop
  miss_loop-Traced [] a v = v
  miss_loop-Traced (inv ∷ invs) a v =
      miss_loop-Traced invs _ (round-Traced inv a _ (miss_round_cases now nonce max_count inv a) v)

  known_loop-Traced :
      (type : ℕ) (hashes : List ℕ) (a : Pass B T)
      → Traced now max_count s a
      → Traced now max_count s (known_loop now nonce max_count type hashes a)
  unfolding known_loop
  known_loop-Traced type [] a v = v
  known_loop-Traced type (h ∷ hs) a v =
      let inv : Inv = record { type = type; hash = h } in
      known_loop-Traced type hs _
        (round-Traced inv a _ (known_round_cases now nonce max_count inv a) v)

  start-Traced : 0 < max_count → Traced now max_count s (start_pass s)
  unfolding OrdSet.contains
  start-Traced pos = record {
    untouched = λ i x e. inr e;
    free = λ i h. cc;
    within = omega arith;
    room = λ h. pos;
  }

  miss_pass-Traced :
      (type : ℕ) → 0 < max_count → Traced now max_count s (miss_pass now nonce type max_count s)
  unfolding miss_pass
  miss_pass-Traced type pos = elim (Bool-cases (type == msg_tx)) [
    | inl h ↦ rw (h, miss_pass) (miss_loop-Traced s.miss_prev_tx_inv _ (start-Traced pos))
    | inr h ↦ rw (h, miss_pass) (start-Traced pos)
  ]

  known_pass-Traced :
      (type : ℕ) (a : Pass B T)
      → Traced now max_count s a
      → Traced now max_count s (known_pass now nonce type max_count a)
  unfolding known_pass
  known_pass-Traced type a v = elim (Bool-cases (ltb (length a.v_inv) max_count)) [
    | inl h ↦
        rw (h, known_pass)
          (known_loop-Traced type (get_known_list type (peer_at nonce a.sched))
            (record a { stopped = false })
            (record {
              untouched = v.untouched;
              free = v.free;
              within = v.within;
              room = λ _. ltb→lt _ _ h;
            }))
    | inr h ↦ rw (h, known_pass) v
  ]

  -- With room for at least one, ScheduleKnownInv asks for at most `max_count` entries.
  pub length-schedule_known_inv :
      (type : ℕ)
      → 0 < max_count
      → length (schedule_known_inv now nonce type max_count s).v_inv ≤ max_count
  unfolding schedule_known_inv finish_pass
  length-schedule_known_inv type pos = (known_pass-Traced type _ (miss_pass-Traced type pos)).within

  -- When nMaxCount is not 0, every entry that ScheduleKnownInv asks a peer for was in mapState,
  -- assigned to nobody, and not timed out by its age or its count of requests.
  pub schedule_known_inv-IsFree :
      (type : ℕ) (i : Inv)
      → 0 < max_count
      → OrdSet.contains i (schedule_known_inv now nonce type max_count s).v_inv ≡ true
      → IsFree now s i
  unfolding schedule_known_inv finish_pass
  schedule_known_inv-IsFree type i pos h =
      (known_pass-Traced type _ (miss_pass-Traced type pos)).free i h
