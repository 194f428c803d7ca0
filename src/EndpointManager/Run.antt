-- ===== src/EndpointManager/Run.antt =====
-- The calls of CEndpointManager that change it, as data, and histories of them. The hosts of the
-- network call them in any order; `none` is a history in which a call does not end.
use Prim.Native.String.{String}
use mamio.Base.{ℕ, List, [], ◌∷◌, Option, none, some, Key}
use mamio.Base.Int.{ℤ}
use mamio.NodeManager.{empty as no_nodes}
use mamio.EndpointManager.Addresses.{clear_banned, clear_all_banned, get_endpoint_score}
use mamio.EndpointManager.Calls.{
  EndpointManager, clear, add_new_out_bound, remove_out_bound, set_out_bound_data, fetch_out_bound,
  accept_in_bound, reward_endpoint, close_endpoint, set_ban,
}

pub data Call (E A D : Type 0) : Type 0 where
  cleared : Call E A D
  added : ℕ → E → String → Option D → Call E A D
  removed : E → Call E A D
  stored : E → Option D → Call E A D
  fetched : ℕ → Call E A D
  accepted : ℕ → E → Call E A D
  rewarded : ℕ → E → ℤ → Call E A D
  closed : ℕ → E → ℤ → Call E A D
  banned : ℕ → List A → ℕ → Call E A D
  unbanned : ℕ → List A → Call E A D
  all_unbanned : ℕ → Call E A D
  scored : A → Call E A D

module _ {E A D : Type 0} ⦃ke : Key E⦄ ⦃ka : Key A⦄ where
  abbrev pub empty : EndpointManager E A D
  empty = record { status = []; nodes = no_nodes }

module _ {E A D : Type 0} ⦃ke : Key E⦄ ⦃ka : Key A⦄ (address : E → A) where
  -- What a call leaves of the endpoint manager.
  unfoldable pub step : Call E A D → EndpointManager E A D → Option (EndpointManager E A D)
  step Call.cleared m = some (clear m)
  step (Call.added now e name content) m = add_new_out_bound address now e name content m
  step (Call.removed e) m = some (remove_out_bound e m)
  step (Call.stored e content) m = some (set_out_bound_data e content m).0
  step (Call.fetched now) m = elim (fetch_out_bound address now m) [
    | none ↦ none
    | some r ↦ some r.1
  ]
  step (Call.accepted now e) m = some (accept_in_bound address now e m).0
  step (Call.rewarded now e bonus) m = some (reward_endpoint address now e bonus m)
  step (Call.closed now e reason) m = close_endpoint address now e reason m
  step (Call.banned now addresses ban_time) m = some (set_ban address now addresses ban_time m)
  step (Call.unbanned now addresses) m =
      some (record m { status = clear_banned now addresses m.status })
  step (Call.all_unbanned now) m = some (record m { status = clear_all_banned now m.status })
  step (Call.scored a) m = some (record m { status = (get_endpoint_score a m.status).1 })

  unfoldable pub run : List (Call E A D) → EndpointManager E A D → Option (EndpointManager E A D)
  run [] m = some m
  run (c ∷ cs) m = elim (step c m) [ none ↦ none | some m' ↦ run cs m' ]
