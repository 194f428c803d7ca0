-- ===== src/NodeManager/Barred/Calls.antt =====
-- The calls of CNodeManager, while the nodes of an address stay out of reach.
use mathlib.Core.List.{reverse}
use text.Mathlib.Text.{◌==◌ as same_name}
use Prim.Native.String.{String}
use mamio.Base.{
  ℕ, ◌+◌, ◌*◌, ◌^◌, ◌≤◌, ◌≡◌, refl, sym, ◌∙◌, Bool, true, Option, some, arith, length, leb, ltb,
  if◌then◌else◌, Key, Bool-cases, Option-cases, inl, inr,
}
use mamio.Base.OrdMap
use mamio.Base.OrdMap.{find-put, find-erase}
use mamio.NodeManager
use mamio.NodeManager.{
  NodeManager, Node, insert_idle, erase_first, employ, dismiss, add_new, remove, set_data, ban_loop,
  insert_all_idle, add_idle_node, name_of, dnseed, put_node, note_seed, dismiss_node, dismiss_seed,
  max_idle_nodes, max_retries, next_seed_retries, retry_interval_base,
}
use mamio.NodeManager.Idle.{length-insert_idle, insert_idle-IsSorted}
use mamio.NodeManager.Removal.{
  Kept, latest, add_idle_node_full, add_idle_node_fits, add_idle_node-Kept,
}
use mamio.NodeManager.Keeps.{remove-Kept, ban-Kept}
use mamio.NodeManager.Ban.{Late}
use mamio.NodeManager.Barred.{
  Keyed, Keyed-put, Keyed-erase, insert_idle-Late, Late-reverse, ban_other-Late, insert_others-Late,
  erase_first-Late,
}

module _ {E A : Type 0} ⦃ka : Key A⦄ (address : E → A) (a : A) (until : ℕ) where
  -- A node that becomes idle at a time is none of the address, or it is late enough.
  abbrev pub Spares : ℕ → E → Type 0
  Spares now e = ka.same a (address e) ≡ true → until ≤ now

-- The idle nodes are in order and few, every node is stored under its endpoint, and no idle node of
-- the address may be tried before the time.
pub record Barred {E A D : Type 0} ⦃ke : Key E⦄ ⦃ka : Key A⦄ (address : E → A) (a : A) (until : ℕ)
    (m : NodeManager E A D) : Type 0 where
  pub kept : Kept m
  pub keyed : Keyed m.map_node
  pub late : Late address a until m.map_idle

module _ {E A D : Type 0} ⦃ke : Key E⦄ ⦃ka : Key A⦄ (address : E → A) (a : A) (until : ℕ) where
  abbrev Out : NodeManager E A D → Type 0
  Out m = Barred address a until m

  some-Barred : (m m' : NodeManager E A D) → Out m → some m ≡ some m' → Out m'
  some-Barred m m' v h = let p : m ≡ m' = cc in rw p at v

  put_node-Barred :
      (e : E) (n : Node E D) (m : NodeManager E A D) → n.ep ≡ e → Out m → Out (put_node e n m)
  put_node-Barred e n m p v = record {
    kept = v.kept;
    keyed = Keyed-put e n m.map_node p v.keyed;
    late = v.late;
  }

  add_idle_node-Barred :
      (now interval : ℕ) (e : E) (m m' : NodeManager E A D)
      → Spares address a until now e
      → Out m
      → add_idle_node now interval e m ≡ some m'
      → Out m'
  add_idle_node-Barred now interval e m m' spares v h =
      let idle = insert_idle (now + interval) e m.map_idle in
      let late =
        insert_idle-Late address a until (now + interval) e m.map_idle
          (λ same. omega (arith, spares same)) v.late in
      let kept = add_idle_node-Kept now interval e m m' v.kept h in
      elim (Bool-cases (ltb max_idle_nodes (length idle))) [
        | inr fits ↦
            some-Barred (record m { map_idle = idle }) m'
              (record {
                kept = (ground arith, insert_idle-IsSorted (now + interval) e m.map_idle v.kept.1);
                keyed = v.keyed;
                late = late;
              })
              (sym (add_idle_node_fits now interval e m fits) ∙ h)
        | inl more ↦
            let (t, f, rest, last, sorted, size) =
              latest idle (ground arith)
                (insert_idle-IsSorted (now + interval) e m.map_idle v.kept.1) in
            let (few, _) = v.kept in
            let n : length m.map_idle ≡ max_idle_nodes =
              ground (arith, length-insert_idle (now + interval) e m.map_idle) in
            let full = add_idle_node_full now interval t e f m rest n last in
            elim (Bool-cases (same_name (name_of f m.map_node) dnseed)) [
              | inl seed ↦ absurd (ground (arith, full))
              | inr node ↦
                  some-Barred
                    (record m { map_idle = reverse rest; map_node = OrdMap.erase f m.map_node }) m'
                    (record {
                      kept = (
                        omega (arith, size, length-insert_idle (now + interval) e m.map_idle),
                        sorted,
                      );
                      keyed = Keyed-erase f m.map_node v.keyed;
                      late = Late-reverse address a until idle rest t f last late;
                    })
                    (sym (rw node at full) ∙ h)
            ]
      ]

  pub remove-Barred : (e : E) (m : NodeManager E A D) → Out m → Out (remove e m)
  unfolding remove
  remove-Barred e m v = elim (Option-cases (OrdMap.find e m.map_node)) [
    | inl missing ↦ rw (missing, remove) v
    | inr (n, found) ↦
        let kept = rw (found, remove) at (remove-Kept e m v.kept) in
        rw (found, remove)
          (record {
            kept = kept;
            keyed = Keyed-erase e m.map_node v.keyed;
            late = erase_first-Late address a until e m.map_idle v.late;
          })
  ]

  pub set_data-Barred :
      (e : E) (content : Option D) (m : NodeManager E A D) → Out m → Out (set_data e content m).0
  unfolding set_data
  set_data-Barred e content m v = elim (Option-cases (OrdMap.find e m.map_node)) [
    | inl missing ↦ rw (missing, set_data) v
    | inr (n, found) ↦
        rw (found, set_data)
          (put_node-Barred e (record n { content = content }) m (v.keyed e n found) v)
  ]

  dismiss_node-Barred :
      (now : ℕ) (e : E) (force_retry : Bool) (n : Node E D) (m m' : NodeManager E A D)
      → Spares address a until now e
      → n.ep ≡ e
      → Out m
      → dismiss_node now e force_retry n m ≡ some m'
      → Out m'
  dismiss_node-Barred now e force_retry n m m' spares p v h =
      let retries = if force_retry then 0 else n.retries + 1 in
      let here : Spares address a until now n.ep = rw p spares in
      elim (Bool-cases (leb retries max_retries)) [
        | inl again ↦
            add_idle_node-Barred now (retry_interval_base * 2 ^ retries) n.ep
              (put_node e (record n { retries = retries }) m) m' here
              (put_node-Barred e (record n { retries = retries }) m p v) (rw again at h)
        | inr over ↦
            some-Barred (record m { map_node = OrdMap.erase e m.map_node }) m'
              (record { kept = v.kept; keyed = Keyed-erase e m.map_node v.keyed; late = v.late })
              (rw over at h)
      ]

  pub dismiss-Barred :
      (now : ℕ) (e : E) (force_retry reset : Bool) (m m' : NodeManager E A D)
      → Spares address a until now e
      → Out m
      → dismiss now e force_retry reset m ≡ some m'
      → Out m'
  unfolding dismiss
  dismiss-Barred now e force_retry reset m m' spares v h =
      elim (Option-cases (OrdMap.find e m.map_node)) [
        | inl missing ↦ some-Barred m m' v (rw (missing, dismiss) at h)
        | inr (n, found) ↦
            let p = v.keyed e n found in
            let here : Spares address a until now n.ep = rw p spares in
            elim (Bool-cases reset) [
              | inl again ↦
                  add_idle_node-Barred now retry_interval_base n.ep m m' here v
                    (rw (found, dismiss, again) at h)
              | inr plain ↦ elim (Bool-cases (same_name n.name dnseed)) [
                | inl seed ↦
                    let retries = next_seed_retries n.retries in
                    add_idle_node-Barred now (retry_interval_base * 2 ^ retries) n.ep
                      (put_node e (record n { retries = retries }) m) m' here
                      (put_node-Barred e (record n { retries = retries }) m p v)
                      (rw (found, dismiss, plain, seed) at h)
                | inr node ↦
                    dismiss_node-Barred now e force_retry n m m' spares p v
                      (rw (found, dismiss, plain, node) at h)
              ]
            ]
      ]

  note_seed-Barred :
      (e : E) (name : String) (m : NodeManager E A D) → Out m → Out (note_seed address e name m)
  note_seed-Barred e name m v = elim (Bool-cases (same_name name dnseed)) [
    | inl seed ↦ rw seed (record { kept = v.kept; keyed = v.keyed; late = v.late })
    | inr node ↦ rw node v
  ]

  pub add_new-Barred :
      (now : ℕ) (e : E) (name : String) (content : Option D) (m m' : NodeManager E A D)
      → Spares address a until now e
      → Out m
      → add_new address now e name content m ≡ some m'
      → Out m'
  unfolding add_new
  add_new-Barred now e name content m m' spares v h =
      elim (Option-cases (OrdMap.find e m.map_node)) [
        | inr (n, found) ↦ some-Barred m m' v (rw (found, add_new) at h)
        | inl missing ↦
            let n : Node E D = record { ep = e; name = name; content = content; retries = 0 } in
            elim (Option-cases (add_idle_node now 0 e (put_node e n m))) [
              | inl endless ↦ absurd (ground (arith, rw (missing, add_new, endless) at h))
              | inr (left, ends) ↦
                  some-Barred (note_seed address e name left) m'
                    (note_seed-Barred e name left (
                      add_idle_node-Barred now 0 e (put_node e n m) left spares
                        (put_node-Barred e n m refl v) ends))
                    (rw (missing, add_new, ends) at h)
            ]
      ]

  pub ban-Barred :
      (b : A) (ban_to : ℕ) (m : NodeManager E A D)
      → Out m
      → Out (NodeManager.ban address b ban_to m)
  unfolding NodeManager.ban
  ban-Barred b ban_to m v =
      let (taken, left) = ban_other-Late address a until b ban_to m.map_idle v.late in
      record {
        kept = ban-Kept address b ban_to m v.kept;
        keyed = v.keyed;
        late = insert_others-Late address a until b ban_to _ _ taken left;
      }
