-- ===== src/Examples/Nodes.antt =====
-- src/xengine/peernet/nodemngr.cpp with numbers as endpoints: the address of an endpoint is what
-- stands before its last two digits.
use text.Mathlib.Text.{◌==◌ as same_name}
use mathlib.Core.List.{reverse}
use mamio.Base.{
  ℕ, zero, suc, ◌+◌, ◌/◌, ◌≡◌, refl, false, true, List, [], ◌∷◌, none, some, arith, nat_key,
}
use mamio.Base.OrdMap
use mamio.NodeManager.{
  NodeManager, Node, empty, dnseed, name_of, remove_loop, add_idle_node, insert_idle,
  insert_all_idle, ban_loop, employ, ban, add_new, dismiss, remove, set_data,
}
use mamio.NodeManager.Removal.{Kept, remove_loop_seed}
use mamio.NodeManager.Run.{
  Call, added, employed, dismissed, banned, removed, stored, step, run, run-Kept,
}
use mamio.NodeManager.Ends.{run-ends}

abbrev pub address : ℕ → ℕ
address e = e / 100

abbrev two_idle : NodeManager ℕ ℕ ℕ
two_idle = record { map_node = []; map_idle = (10, 101) ∷ (20, 203) ∷ []; dnseed_address = [] }

abbrev first_banned : NodeManager ℕ ℕ ℕ
first_banned = record { map_node = []; map_idle = (100, 101) ∷ []; dnseed_address = [] }

employ_test : employ 50 (ban address 1 100 two_idle) ≡ some (203, first_banned)
unfolding employ ban ban_loop insert_all_idle insert_idle
employ_test = refl

abbrev seeds : List (ℕ × Node ℕ ℕ)
seeds = (700, record { ep = 700; name = "dnseed"; content = none; retries = 0 }) ∷ []

seed_test : same_name (name_of 700 seeds) dnseed ≡ true
unfolding name_of OrdMap.find
seed_test = refl

remove_loop_seed_example : remove_loop 1000 28800 1 0 ((40, 700) ∷ (30, 101) ∷ []) seeds ≡ none
remove_loop_seed_example =
    remove_loop_seed 1000 28800 1 40 700 ((30, 101) ∷ []) seeds (omega arith) seed_test

abbrev in_a_row : ℕ → ℕ → List (ℕ × ℕ)
in_a_row zero t = []
in_a_row (suc n) t = (t, t) ∷ in_a_row n (t + 1)

abbrev crowd : NodeManager ℕ ℕ ℕ
crowd = record { map_node = seeds; map_idle = in_a_row 512 0; dnseed_address = [] }

last_test :
    reverse (insert_idle (0 + 5000) 101 crowd.map_idle) ≡ (5000, 101) ∷ reverse (in_a_row 512 0)
unfolding insert_idle
last_test = refl

abbrev calls : List (Call ℕ ℕ ℕ)
calls =
    added 0 101 "one" none
    ∷ added 5 203 "two" (some 7)
    ∷ employed 10
    ∷ dismissed 10 101 false false
    ∷ banned 2 1000
    ∷ stored 203 none
    ∷ removed 300
    ∷ []

abbrev left : NodeManager ℕ ℕ ℕ
left = record {
  map_node =
      (101, record { ep = 101; name = "one"; content = none; retries = 1 })
      ∷ (203, record { ep = 203; name = "two"; content = none; retries = 0 })
      ∷ [];
  map_idle = (70, 101) ∷ (1000, 203) ∷ [];
  dnseed_address = [];
}

run_test : run address calls empty ≡ some left
unfolding run step add_new add_idle_node insert_idle OrdMap.find OrdMap.put employ dismiss ban
    ban_loop insert_all_idle set_data remove
run_test = refl

run-Kept_example : Kept left
run-Kept_example = run-Kept address calls left run_test

run-ends_example : (m : NodeManager ℕ ℕ ℕ) × (run address calls empty ≡ some m)
run-ends_example = run-ends address calls (refl, (refl, (tt, (tt, (tt, (tt, (tt, tt)))))))
