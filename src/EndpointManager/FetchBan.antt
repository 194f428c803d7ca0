-- ===== src/EndpointManager/FetchBan.antt =====
-- What SetBan means for FetchOutBound.
use mamio.Base.{
  ℕ, ◌+◌, ◌<◌, ◌≡◌, refl, true, false, List, [], ◌∷◌, some, arith, Key, Bool-cases, inl, inr,
}
use mamio.Base.OrdSet
use mamio.NodeManager
use mamio.NodeManager.{NodeManager, ban_loop, insert_all_idle}
use mamio.NodeManager.Ban.{ban_loop-Late, insert_all_idle-Late}
use mamio.NodeManager.Barred.{Keyed-empty}
use mamio.NodeManager.Barred.Calls.{Barred, ban-Barred}
use mamio.NodeManager.Keeps.{ban-Kept}
use mamio.EndpointManager.Calls.{EndpointManager, fetch_out_bound, set_ban}
use mamio.EndpointManager.Run.{Call, run, empty}
use mamio.EndpointManager.Barred.{Out, AllSpare, set_ban-Barred, fetch_out_bound-Barred, run-Barred}

module _ {E A D : Type 0} ⦃ke : Key E⦄ ⦃ka : Key A⦄ (address : E → A) (a : A) where
  -- Nothing is kept out of reach before time 0.
  spares_now : (cs : List (Call E A D)) → AllSpare address a 0 cs
  spares_now [] = tt
  spares_now (Call.added now e name content ∷ cs) = ((λ same. omega arith), spares_now cs)
  spares_now (Call.closed now e reason ∷ cs) = ((λ same. omega arith), spares_now cs)
  spares_now (Call.cleared ∷ cs) = (tt, spares_now cs)
  spares_now (Call.removed e ∷ cs) = (tt, spares_now cs)
  spares_now (Call.stored e content ∷ cs) = (tt, spares_now cs)
  spares_now (Call.fetched now ∷ cs) = (tt, spares_now cs)
  spares_now (Call.accepted now e ∷ cs) = (tt, spares_now cs)
  spares_now (Call.rewarded now e bonus ∷ cs) = (tt, spares_now cs)
  spares_now (Call.banned now addresses ban_time ∷ cs) = (tt, spares_now cs)
  spares_now (Call.unbanned now addresses ∷ cs) = (tt, spares_now cs)
  spares_now (Call.all_unbanned now ∷ cs) = (tt, spares_now cs)
  spares_now (Call.scored b ∷ cs) = (tt, spares_now cs)

  empty-Barred : Out address a 0 (empty {D = D})
  empty-Barred = record { kept = (omega arith, tt); keyed = Keyed-empty; late = tt }

  ban-Out :
      (b : A) (until : ℕ) (m : NodeManager E A D)
      → ka.same b a ≡ true
      → Barred address a 0 m
      → Barred address a until (NodeManager.ban address b until m)
  unfolding NodeManager.ban
  ban-Out b until m same v =
      let p : b ≡ a = (ka.same_iff b a).0 same in
      record {
        kept = ban-Kept address b until m v.kept;
        keyed = v.keyed;
        late = rw p (
            insert_all_idle-Late address a until _ _
              (ban_loop-Late address a until m.map_idle v.kept.1));
      }

  -- SetBan puts the nodes of each address that it bans out of reach.
  set_ban-Out :
      (now ban_time : ℕ) (addresses : List A) (m : EndpointManager E A D)
      → OrdSet.contains a addresses ≡ true
      → Out address a 0 m
      → Out address a (now + ban_time) (set_ban address now addresses ban_time m)
  unfolding set_ban OrdSet.contains
  set_ban-Out now ban_time [] m h v = cc
  set_ban-Out now ban_time (b ∷ rest) m h v = elim (Bool-cases (ka.same b a)) [
    | inl same ↦
        set_ban-Barred address a (now + ban_time) now ban_time rest _
          (ban-Out b (now + ban_time) m.nodes same v)
    | inr other ↦
        set_ban-Out now ban_time rest _ (ground arith)
          (ban-Barred address a 0 b (now + ban_time) m.nodes v)
  ]

  -- After any history of calls from the empty manager, SetBan of an address, and any history of calls
  -- in which neither AddNewOutBound nor CloseEndpoint is called for an endpoint of that address before
  -- the end of the ban, FetchOutBound gives no endpoint of the address before the end of the ban.
  pub fetch_out_bound-set_ban :
      (before after : List (Call E A D)) (now ban_time later : ℕ) (e : E) (addresses : List A)
      (m m' m'' : EndpointManager E A D)
      → run address before empty ≡ some m
      → OrdSet.contains a addresses ≡ true
      → AllSpare address a (now + ban_time) after
      → run address after (set_ban address now addresses ban_time m) ≡ some m'
      → later < now + ban_time
      → fetch_out_bound address later m' ≡ some (some e, m'')
      → ka.same a (address e) ≡ false
  fetch_out_bound-set_ban before after now ban_time later e addresses m m' m'' began listed spare
        ran early h =
      let until = now + ban_time in
      let free = run-Barred address a 0 before empty m (spares_now before) empty-Barred began in
      let banned = set_ban-Out now ban_time addresses m listed free in
      let still = run-Barred address a until after _ m' spare banned ran in
      let spares =
        (fetch_out_bound-Barred address a until later m' m'' (some e) still h).1 e refl in
      elim (Bool-cases (ka.same a (address e))) [
        | inl same ↦ let le = spares same in absurd (omega (arith, le, early))
        | inr other ↦ other
      ]
