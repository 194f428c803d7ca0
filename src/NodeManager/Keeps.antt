-- ===== src/NodeManager/Keeps.antt =====
-- Each call of CNodeManager keeps the idle nodes in order and within their limit.
use text.Mathlib.Text.{◌==◌ as same_name}
use Prim.Native.String.{String}
use mamio.Base.{
  ℕ, ◌+◌, ◌*◌, ◌^◌, ◌≡◌, ap, Bool, List, [], ◌∷◌, Option, none, some, arith, leb, if◌then◌else◌,
  Key, Bool-cases, Option-cases, inl, inr,
}
use mamio.Base.OrdMap
use mamio.NodeManager.{
  NodeManager, Node, add_idle_node, dnseed, add_new, remove, set_data, employ, dismiss, ban,
  ban_loop, note_seed, put_node, max_retries, next_seed_retries, retry_interval_base, dismiss_node,
  dismiss_seed,
}
use mamio.NodeManager.Idle.{
  erase_first-IsSorted, length-erase_first, ban_loop-IsSorted, insert_all_idle-IsSorted,
  length-ban_loop, length-insert_all_idle,
}
use mamio.NodeManager.Removal.{Kept, add_idle_node-Kept, some-Kept}

module _ {E A D : Type 0} ⦃ke : Key E⦄ ⦃ka : Key A⦄ where
  pub remove-Kept : (e : E) (m : NodeManager E A D) → Kept m → Kept (remove e m)
  unfolding remove
  remove-Kept e m v = elim (Option-cases (OrdMap.find e m.map_node)) [
    | inl missing ↦ rw (missing, remove) v
    | inr (n, found) ↦
        rw (found, remove)
          (
            omega (arith, v.0, length-erase_first e m.map_idle),
            erase_first-IsSorted e m.map_idle v.1,
          )
  ]

  pub set_data-Kept :
      (e : E) (content : Option D) (m : NodeManager E A D) → Kept m → Kept (set_data e content m).0
  unfolding set_data
  set_data-Kept e content m v = elim (Option-cases (OrdMap.find e m.map_node)) [
    | inl missing ↦ rw (missing, set_data) v
    | inr (n, found) ↦ rw (found, set_data) v
  ]

  pub employ-Kept :
      (now : ℕ) (m m' : NodeManager E A D) (e : E) → Kept m → employ now m ≡ some (e, m') → Kept m'
  unfolding employ
  employ-Kept now m m' e v h = go m.map_idle v h
    where
      go :
          (idle : List (ℕ × E))
          → Kept (record m { map_idle = idle })
          → elim idle as (λ _. Option (E × NodeManager E A D)) [
            | [] ↦ none
            | (t, e) ∷ rest ↦ if leb t now then some (e, record m { map_idle = rest }) else none
          ]
            ≡ some (e, m')
          → Kept m'
      go [] w p = cc
      go ((t, f) ∷ rest) w p = elim (Bool-cases (leb t now)) [
        | inl due ↦
            let q : record m { map_idle = rest } ≡ m' = ground (arith, due) in
            let k : Kept (record m { map_idle = rest }) = (omega (arith, w.0), w.1.1) in
            some-Kept (record m { map_idle = rest }) m' k (ap some q)
        | inr later ↦ absurd (ground (arith, later))
      ]

  dismiss_node-Kept :
      (now : ℕ) (e : E) (force_retry : Bool) (n : Node E D) (m m' : NodeManager E A D)
      → Kept m
      → dismiss_node now e force_retry n m ≡ some m'
      → Kept m'
  dismiss_node-Kept now e force_retry n m m' v h =
      let retries = if force_retry then 0 else n.retries + 1 in
      elim (Bool-cases (leb retries max_retries)) [
        | inl again ↦
            add_idle_node-Kept now (retry_interval_base * 2 ^ retries) n.ep
              (put_node e (record n { retries = retries }) m) m' v (rw again at h)
        | inr over ↦
            some-Kept (record m { map_node = OrdMap.erase e m.map_node }) m' v (rw over at h)
      ]

  dismiss_seed-Kept :
      (now : ℕ) (e : E) (n : Node E D) (m m' : NodeManager E A D)
      → Kept m
      → dismiss_seed now e n m ≡ some m'
      → Kept m'
  dismiss_seed-Kept now e n m m' v h =
      let retries = next_seed_retries n.retries in
      add_idle_node-Kept now (retry_interval_base * 2 ^ retries) n.ep
        (put_node e (record n { retries = retries }) m) m' v h

  pub dismiss-Kept :
      (now : ℕ) (e : E) (force_retry reset : Bool) (m m' : NodeManager E A D)
      → Kept m
      → dismiss now e force_retry reset m ≡ some m'
      → Kept m'
  unfolding dismiss
  dismiss-Kept now e force_retry reset m m' v h = elim (Option-cases (OrdMap.find e m.map_node)) [
    | inl missing ↦ some-Kept m m' v (rw (missing, dismiss) at h)
    | inr (n, found) ↦ elim (Bool-cases reset) [
      | inl again ↦
          add_idle_node-Kept now retry_interval_base n.ep m m' v (rw (found, dismiss, again) at h)
      | inr plain ↦ elim (Bool-cases (same_name n.name dnseed)) [
        | inl seed ↦ dismiss_seed-Kept now e n m m' v (rw (found, dismiss, plain, seed) at h)
        | inr node ↦
            dismiss_node-Kept now e force_retry n m m' v (rw (found, dismiss, plain, node) at h)
      ]
    ]
  ]

module _ {E A D : Type 0} ⦃ke : Key E⦄ ⦃ka : Key A⦄ (address : E → A) where
  note_seed-Kept :
      (e : E) (name : String) (m : NodeManager E A D) → Kept m → Kept (note_seed address e name m)
  note_seed-Kept e name m v = elim (Bool-cases (same_name name dnseed)) [
    | inl seed ↦ rw seed v
    | inr node ↦ rw node v
  ]

  pub add_new-Kept :
      (now : ℕ) (e : E) (name : String) (content : Option D) (m m' : NodeManager E A D)
      → Kept m
      → add_new address now e name content m ≡ some m'
      → Kept m'
  unfolding add_new
  add_new-Kept now e name content m m' v h = elim (Option-cases (OrdMap.find e m.map_node)) [
    | inl missing ↦
        let n : Node E D = record { ep = e; name = name; content = content; retries = 0 } in
        elim (Option-cases (add_idle_node now 0 e (put_node e n m))) [
          | inl endless ↦ absurd (ground (arith, rw (missing, add_new, endless) at h))
          | inr (left, ends) ↦
              some-Kept (note_seed address e name left) m'
                (note_seed-Kept e name left
                  (add_idle_node-Kept now 0 e (put_node e n m) left v ends))
                (rw (missing, add_new, ends) at h)
        ]
    | inr (n, found) ↦ some-Kept m m' v (rw (found, add_new) at h)
  ]

  pub ban-Kept :
      (a : A) (ban_to : ℕ) (m : NodeManager E A D) → Kept m → Kept (ban address a ban_to m)
  unfolding ban
  ban-Kept a ban_to m v = (
    omega (
      arith,
      v.0,
      length-ban_loop address a ban_to m.map_idle,
      length-insert_all_idle ban_to (ban_loop address a ban_to m.map_idle).0
          (ban_loop address a ban_to m.map_idle).1,
    ),
    insert_all_idle-IsSorted ban_to _ _ (ban_loop-IsSorted address a ban_to m.map_idle v.1),
  )
