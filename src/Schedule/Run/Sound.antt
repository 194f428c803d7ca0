-- ===== src/Schedule/Run/Sound.antt =====
-- Every history keeps the entries of mapState sound, and so GetBlock and GetTransaction never meet
-- an object of the other kind.
use mamio.Base.{ℕ, ◌≤◌, ◌≡◌, ◌≢◌, inl, inr, List, [], ◌∷◌, some, arith, false, Option-cases}
use mamio.Base.OrdMap
use mamio.Schedule.Inv.{Inv, inv_key, block_inv, tx_inv, msg_block, msg_tx}
use mamio.Schedule.State.{InvState, Schedule, max_regetdata_count}
use mamio.Schedule.Ops
use mamio.Schedule.Receive
use mamio.Schedule.Receive.{get_block, get_transaction, bad_get}
use mamio.Schedule.Cancel
use mamio.Schedule.Choose
use mamio.Schedule.Choose.{schedule_known_inv}
use mamio.Schedule.Sound.{
  AllSound, IsSound, add_new_inv-AllSound, remove_peer-AllSound, receive_block-AllSound,
  receive_tx-AllSound,
}
use mamio.Schedule.Sound.Pass.{schedule_known_inv-AllSound}
use mamio.Schedule.Sound.Objects.{
  invalidate_block-AllSound, invalidate_tx-AllSound, cancel_assigned_inv-AllSound,
  set_repeat_block-AllSound, set_delayed_clear-AllSound,
}
use mamio.Schedule.Entry.{remove_inv-Entries}
use mamio.Schedule.Run.{
  Call, check_prev_tx_inv, check_add_inv_idle_location, remove_peer, add_new_inv, remove_inv,
  receive_block, receive_tx, add_orphan_block_prev, add_orphan_tx_prev, invalidate_block,
  invalidate_tx, schedule_block_inv, schedule_tx_inv, cancel_assigned_inv, set_locator_depth_hash,
  set_locator_inv_block_hash, set_next_get_blocks_time, set_repeat_block, set_delayed_clear, empty,
  step, run,
}

module _ {B T : Type 0} where
  schedule_block_inv-AllSound :
      (now nonce : ℕ) (v_inv : List Inv) (max_count : ℕ) (s : Schedule B T)
      → AllSound s
      → AllSound (Choose.schedule_block_inv now nonce v_inv max_count s).sched
  unfolding Choose.schedule_block_inv Ops.check_add_inv_idle_location
  schedule_block_inv-AllSound now nonce v_inv max_count s v i x e =
      ground (arith, v i x, schedule_known_inv-AllSound now nonce msg_block max_count s v i x)

  schedule_tx_inv-AllSound :
      (now nonce : ℕ) (v_inv : List Inv) (max_count : ℕ) (s : Schedule B T)
      → AllSound s
      → AllSound (Choose.schedule_tx_inv now nonce v_inv max_count false s).sched
  unfolding Choose.schedule_tx_inv
  schedule_tx_inv-AllSound now nonce v_inv max_count s v i x e =
      ground (arith, v i x, schedule_known_inv-AllSound now nonce msg_tx max_count s v i x)

  check_prev_tx_inv-AllSound :
      (inv : Inv) (s : Schedule B T) → AllSound s → AllSound (Ops.check_prev_tx_inv inv s).0
  unfolding Ops.check_prev_tx_inv
  check_prev_tx_inv-AllSound inv s v i x e = ground (arith, v i x)

  check_add_inv_idle_location-AllSound :
      (nonce type : ℕ) (s : Schedule B T)
      → AllSound s
      → AllSound (Ops.check_add_inv_idle_location nonce type s).0
  unfolding Ops.check_add_inv_idle_location
  check_add_inv_idle_location-AllSound nonce type s v i x e = ground (arith, v i x)

  invalidated :
      (P : Schedule B T → Type 0) (s : Schedule B T) (hash : ℕ)
      → ((r : Schedule B T × List ℕ) × (Receive.invalidate_block hash s [] ≡ some r) × P r.0)
      → P (step s (invalidate_block hash))
  unfolding step
  invalidated P s hash (r, e, p) = rw e p

  invalidated_tx :
      (P : Schedule B T → Type 0) (s : Schedule B T) (hash : ℕ)
      → ((r : Schedule B T × List ℕ) × (Receive.invalidate_tx hash s [] ≡ some r) × P r.0)
      → P (step s (invalidate_tx hash))
  unfolding step
  invalidated_tx P s hash (r, e, p) = rw e p

  pub step-AllSound : (s : Schedule B T) (c : Call B T) → AllSound s → AllSound (step s c)
  unfolding step Receive.add_orphan_block_prev Receive.add_orphan_tx_prev
      Cancel.set_locator_depth_hash Cancel.set_locator_inv_block_hash
      Cancel.set_next_get_blocks_time
  step-AllSound s (check_prev_tx_inv inv) v = check_prev_tx_inv-AllSound inv s v
  step-AllSound s (check_add_inv_idle_location nonce type) v =
      check_add_inv_idle_location-AllSound nonce type s v
  step-AllSound s (remove_peer nonce) v = remove_peer-AllSound nonce s [] v
  step-AllSound s (add_new_inv now inv nonce) v = add_new_inv-AllSound now inv nonce s v
  step-AllSound s (remove_inv inv) v = remove_inv-Entries IsSound inv s [] v
  step-AllSound s (receive_block now nonce hash b) v =
      receive_block-AllSound now nonce hash b s [] v
  step-AllSound s (receive_tx now nonce txid t) v = receive_tx-AllSound now nonce txid t s [] v
  step-AllSound s (add_orphan_block_prev hash prev) v = v
  step-AllSound s (add_orphan_tx_prev txid prev) v = v
  step-AllSound s (invalidate_block hash) v =
      invalidated AllSound s hash (invalidate_block-AllSound hash s [] v)
  step-AllSound s (invalidate_tx txid) v =
      invalidated_tx AllSound s txid (invalidate_tx-AllSound txid s [] v)
  step-AllSound s (schedule_block_inv now nonce max_count) v =
      schedule_block_inv-AllSound now nonce [] max_count s v
  step-AllSound s (schedule_tx_inv now nonce max_count) v =
      schedule_tx_inv-AllSound now nonce [] max_count s v
  step-AllSound s (cancel_assigned_inv nonce inv) v = cancel_assigned_inv-AllSound nonce inv s v
  step-AllSound s (set_locator_depth_hash nonce depth) v = v
  step-AllSound s (set_locator_inv_block_hash nonce height hash next) v = v
  step-AllSound s (set_next_get_blocks_time now nonce wait) v = v
  step-AllSound s (set_repeat_block now nonce hash) v = set_repeat_block-AllSound now nonce hash s v
  step-AllSound s (set_delayed_clear now inv delayed) v =
      set_delayed_clear-AllSound now inv delayed s v

  run-AllSound : (s : Schedule B T) (cs : List (Call B T)) → AllSound s → AllSound (run s cs)
  unfolding run
  run-AllSound s [] v = v
  run-AllSound s (c ∷ cs) v = run-AllSound (step s c) cs (step-AllSound s c v)

  empty-AllSound : AllSound (empty {B = B} {T = T})
  unfolding OrdMap.find
  empty-AllSound i x e = cc

  -- After any history from the empty schedule, no entry has been asked for more than
  -- MAX_REGETDATA_COUNT times.
  pub run_count :
      (cs : List (Call B T)) (inv : Inv) (st : InvState B T)
      → OrdMap.find inv (run empty cs).map_state ≡ some st
      → st.get_data_count ≤ max_regetdata_count
  run_count cs inv st e = (run-AllSound empty cs empty-AllSound inv st e).0

  get_block-ne-bad_get : (hash : ℕ) (s : Schedule B T) → AllSound s → get_block hash s ≢ bad_get
  unfolding get_block
  get_block-ne-bad_get hash s v h = elim (Option-cases (OrdMap.find (block_inv hash) s.map_state)) [
    | inl n ↦ ground arith
    | inr (st, f) ↦ ground (arith, v (block_inv hash) st f)
  ]

  get_transaction-ne-bad_get :
      (txid : ℕ) (s : Schedule B T) → AllSound s → get_transaction txid s ≢ bad_get
  unfolding get_transaction
  get_transaction-ne-bad_get txid s v h =
      elim (Option-cases (OrdMap.find (tx_inv txid) s.map_state)) [
        | inl n ↦ ground arith
        | inr (st, f) ↦ ground (arith, v (tx_inv txid) st f)
      ]

  -- After any history from the empty schedule, GetBlock and GetTransaction never take an object for
  -- one of the other kind.
  pub run_get :
      (cs : List (Call B T)) (hash : ℕ)
      → (get_block hash (run empty cs) ≢ bad_get) × (get_transaction hash (run empty cs) ≢ bad_get)
  run_get cs hash =
      let v = run-AllSound (empty {B = B} {T = T}) cs empty-AllSound in
      (get_block-ne-bad_get hash _ v, get_transaction-ne-bad_get hash _ v)
