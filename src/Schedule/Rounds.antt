-- ===== src/Schedule/Rounds.antt =====
-- The rounds of the two loops of ScheduleKnownInv: each asks for its entry or leaves the entries be.
use mamio.Base.{
  ℕ, ◌≡◌, ◌⊎◌, inl, inr, some, arith, Option-cases, Bool-cases, false, ◌&&◌, not, ◌==◌, nat_key,
}
use mamio.Base.OrdMap
use mamio.Base.OrdMap.{find-put}
use mamio.Schedule.Inv.{Inv, inv_key}
use mamio.Schedule.State.{Schedule, InvState, peer_at}
use mamio.Schedule.Peer.{known_inv_exists}
use mamio.Schedule.Known.{Pass, miss_round, known_round, inv_timeout, assign_inv}

module _ {B T : Type 0} where
  -- An entry that nobody has been asked for and whose time has not run out.
  pub record IsFree (now : ℕ) (s : Schedule B T) (inv : Inv) : Type 0 where
    pub state : InvState B T
    pub found : OrdMap.find inv s.map_state ≡ some state
    pub unassigned : state.assigned ≡ 0
    pub timely : inv_timeout now state ≡ false

  -- A round that asks for nothing.
  pub record Quiet (a b : Pass B T) : Type 0 where
    pub states : b.sched.map_state ≡ a.sched.map_state
    pub asked : b.v_inv ≡ a.v_inv
    pub stop : b.stopped ≡ a.stopped

  -- A round that asks for `inv`.
  pub record Asks (now nonce max_count : ℕ) (inv : Inv) (a b : Pass B T) : Type 0 where
    pub free : IsFree now a.sched inv
    pub going : a.stopped ≡ false
    pub result : b ≡ assign_inv nonce max_count inv free.state a

module _ {B T : Type 0} (now nonce max_count : ℕ) (inv : Inv) (a : Pass B T) where
  pub known_round_cases :
      Quiet a (known_round now nonce max_count inv a)
      ⊎ Asks now nonce max_count inv a (known_round now nonce max_count inv a)
  unfolding known_round
  known_round_cases = elim (Option-cases (OrdMap.find inv a.sched.map_state)) [
    | inl n ↦ inl (ground arith)
    | inr (st, f) ↦
        elim (Bool-cases (not a.stopped && st.assigned == 0 && not (inv_timeout now st))) [
          | inl h ↦ inr (record {
            free = record {
              state = st;
              found = f;
              unassigned = ground arith;
              timely = ground arith;
            };
            going = ground arith;
            result = ground arith;
          })
          | inr h ↦ inl (ground arith)
        ]
  ]

  pub miss_round_cases :
      Quiet a (miss_round now nonce max_count inv a)
      ⊎ Asks now nonce max_count inv a (miss_round now nonce max_count inv a)
  unfolding miss_round
  miss_round_cases = elim (Option-cases (OrdMap.find inv a.sched.map_state)) [
    | inl n ↦ inl (ground arith)
    | inr (st, f) ↦
        elim (Bool-cases (
          not a.stopped
          && (st.assigned == 0 && known_inv_exists inv (peer_at nonce a.sched))
          && not (inv_timeout now st))) [
            | inl h ↦ inr (record {
              free = record {
                state = st;
                found = f;
                unassigned = ground arith;
                timely = ground arith;
              };
              going = ground arith;
              result = ground arith;
            })
            | inr h ↦ inl (ground arith)
          ]
  ]
