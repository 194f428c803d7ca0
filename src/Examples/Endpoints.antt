-- ===== src/Examples/Endpoints.antt =====
-- src/xengine/peernet/epmngr.cpp with numbers as endpoints: the address of an endpoint is what
-- stands before its last two digits.
use mamio.Base.{
  ℕ, zero, suc, ◌/◌, ◌≡◌, refl, false, List, [], ◌∷◌, Option, none, some, arith, nat_key, ◌==◌,
}
use mamio.Base.Int.{pos, negsuc, ◌+ℤ◌, ◌-ℤ◌}
use mamio.Base.OrdMap
use mamio.Base.OrdSet
use mamio.AddressStatus.{
  AddressStatus, ConnAttempt, new_status, new_attempt, in_bound_attempt, add_connection, penalize,
  remove_connection,
}
use mamio.AddressStatus
use mamio.NodeManager
use mamio.NodeManager.{
  NodeManager, Node, add_new, insert_idle, insert_all_idle, ban_loop, employ, dismiss, name_of,
  add_idle_node, is_dnseed_address, retrieve,
}
use mamio.EndpointManager.Addresses.{status_of, clear_banned, clean_inactive_address, active_loop}
use mamio.EndpointManager.Calls.{
  EndpointManager, add_new_out_bound, fetch_loop, fetch_round, fetch_out_bound, set_ban,
  accept_in_bound, close_endpoint, retrieve_good_node, score_loop, score_node, insert_score,
}
use mamio.EndpointManager.Fetch.{fetch_out_bound_ends}
use mamio.EndpointManager.Run.{Call, step, run, empty}
use mamio.EndpointManager.AcceptBan.{accept_in_bound-set_ban}
use mamio.EndpointManager.FetchBan.{fetch_out_bound-set_ban}

abbrev address : ℕ → ℕ
address e = e / 100

abbrev node_1 : Node ℕ ℕ
node_1 = record { ep = 101; name = "one"; content = none; retries = 0 }

abbrev node_2 : Node ℕ ℕ
node_2 = record { ep = 203; name = "two"; content = none; retries = 0 }

abbrev nodes : NodeManager ℕ ℕ ℕ
nodes = record {
  map_node = (101, node_1) ∷ (203, node_2) ∷ [];
  map_idle = (10, 101) ∷ (20, 203) ∷ [];
  dnseed_address = [];
}

-- Address 2 has a connection already.
abbrev connected : AddressStatus
connected = record new_status { connections = pos 1 }

abbrev manager : EndpointManager ℕ ℕ ℕ
manager = record { status = (2, connected) ∷ []; nodes = nodes }

abbrev busy : EndpointManager ℕ ℕ ℕ
busy = record {
  status = (2, connected) ∷ [];
  nodes = record nodes { map_idle = (20, 203) ∷ (30, 101) ∷ [] };
}

-- The node of address 2 is passed over and comes again after 30 seconds.
abbrev fetched : EndpointManager ℕ ℕ ℕ
fetched = record {
  status = (1, connected) ∷ (2, connected) ∷ [];
  nodes = record nodes { map_idle = (70, 203) ∷ [] };
}

fetch_test : fetch_out_bound address 40 busy ≡ some (some 101, fetched)
unfolding fetch_out_bound fetch_loop fetch_round employ name_of OrdMap.find OrdMap.put status_of
    add_connection dismiss add_idle_node insert_idle ◌+ℤ◌
fetch_test = refl

fetch_out_bound_ends_example :
    (r : Option ℕ × EndpointManager ℕ ℕ ℕ) × (fetch_out_bound address 40 busy ≡ some r)
fetch_out_bound_ends_example = fetch_out_bound_ends address 40 busy (omega arith)

abbrev passed_over : EndpointManager ℕ ℕ ℕ
passed_over = record {
  status = (1, connected) ∷ (2, record connected { ban_to = 65; last_seen = 5 }) ∷ [];
  nodes = record nodes { map_idle = (65, 203) ∷ [] };
}

ban_test :
    fetch_out_bound address 40 (set_ban address 5 (2 ∷ []) 60 manager)
    ≡ some (some 101, passed_over)
unfolding fetch_out_bound fetch_loop fetch_round employ name_of OrdMap.find OrdMap.put status_of
    add_connection dismiss add_idle_node insert_idle ◌+ℤ◌ set_ban NodeManager.ban ban_loop
    insert_all_idle
ban_test = refl

-- The manager of two nodes, from the empty one, and a ban of address 2 from 5 to 65. Then another
-- peer of the address comes in vain, a third node is added, and the node of address 1 is taken.
abbrev began : List (Call ℕ ℕ ℕ)
began = Call.added 1 101 "one" none ∷ Call.added 2 203 "two" none ∷ []

abbrev went_on : List (Call ℕ ℕ ℕ)
went_on =
    Call.accepted 10 207
    ∷ Call.added 20 305 "three" none
    ∷ Call.fetched 30
    ∷ Call.banned 31 (3 ∷ []) 9
    ∷ []

abbrev two : EndpointManager ℕ ℕ ℕ
two = record { status = []; nodes = record nodes { map_idle = (1, 101) ∷ (2, 203) ∷ [] } }

began_test : run address began empty ≡ some two
unfolding run step add_new_out_bound add_new add_idle_node insert_idle OrdMap.find OrdMap.put
began_test = refl

abbrev tried : ConnAttempt
tried = record new_attempt { array_attempt = 0 ∷ 1 ∷ 0 ∷ 0 ∷ 0 ∷ 0 ∷ 0 ∷ 0 ∷ []; attempts = 1 }

abbrev barred : EndpointManager ℕ ℕ ℕ
barred = record {
  status =
      (1, connected)
      ∷ (2, record new_status { last_seen = 10; ban_to = 65; conn_attempt = tried })
      ∷ (3, record new_status { last_seen = 31; ban_to = 40 })
      ∷ [];
  nodes = record {
    map_node =
        (101, node_1)
        ∷ (203, node_2)
        ∷ (305, record { ep = 305; name = "three"; content = none; retries = 0 })
        ∷ [];
    map_idle = (40, 305) ∷ (65, 203) ∷ [];
    dnseed_address = [];
  };
}

went_on_test : run address went_on (set_ban address 5 (2 ∷ []) 60 two) ≡ some barred
unfolding run step add_new_out_bound add_new add_idle_node insert_idle OrdMap.find OrdMap.put
    set_ban NodeManager.ban ban_loop insert_all_idle accept_in_bound in_bound_attempt
    AddressStatus.attempt AddressStatus.drop_loop AddressStatus.count_from AddressStatus.count_at
    add_connection ◌+ℤ◌ is_dnseed_address OrdSet.contains status_of fetch_out_bound fetch_loop
    fetch_round employ name_of
went_on_test = refl

abbrev third : EndpointManager ℕ ℕ ℕ
third = record barred {
  status =
      (1, connected)
      ∷ (2, record new_status { last_seen = 10; ban_to = 65; conn_attempt = tried })
      ∷ (3, record connected { last_seen = 31; ban_to = 40 })
      ∷ [];
  nodes = record barred.nodes { map_idle = (65, 203) ∷ [] };
}

third_test : fetch_out_bound address 50 barred ≡ some (some 305, third)
unfolding fetch_out_bound fetch_loop fetch_round employ name_of OrdMap.find OrdMap.put status_of
    add_connection ◌+ℤ◌
third_test = refl

fetch_out_bound-set_ban_example : (2 == address 305) ≡ false
unfolding OrdSet.contains
fetch_out_bound-set_ban_example =
    fetch_out_bound-set_ban address 2 began went_on 5 60 50 305 (2 ∷ []) two barred third began_test
      refl (tt, ((λ same. absurd (ground (arith, same))), (tt, (tt, tt)))) went_on_test
      (omega arith) third_test

accept_in_bound-set_ban_example : (accept_in_bound address 60 209 barred).1 ≡ false
unfolding is_dnseed_address OrdSet.contains
accept_in_bound-set_ban_example =
    accept_in_bound-set_ban address went_on 5 60 60 209 (2 ∷ []) two barred refl
      (tt, (tt, (tt, ((λ listed. absurd (ground (arith, listed))), tt)))) went_on_test refl
      (omega arith)

-- An attack costs the address 25 points and bans its nodes.
abbrev attacked : EndpointManager ℕ ℕ ℕ
attacked = record {
  status = (2, record new_status { score = negsuc 24; ban_to = 1020 }) ∷ [];
  nodes = record {
    map_node = (101, node_1) ∷ (203, record node_2 { retries = 1 }) ∷ [];
    map_idle = (10, 101) ∷ (1020, 203) ∷ (1060, 203) ∷ [];
    dnseed_address = [];
  };
}

close_test : close_endpoint address 1000 203 (pos 5) manager ≡ some attacked
unfolding close_endpoint OrdMap.find OrdMap.put status_of dismiss add_idle_node insert_idle ◌-ℤ◌
    ◌+ℤ◌ NodeManager.ban ban_loop insert_all_idle is_dnseed_address OrdSet.contains penalize
    AddressStatus.ban remove_connection clean_inactive_address active_loop
close_test = refl

-- One address more than the map may hold, all seen at the same time.
abbrev many : ℕ → List (ℕ × AddressStatus)
many zero = []
many (suc n) = (n, record new_status { last_seen = 1000000 }) ∷ many n

-- The node of the better score comes first, and one of a banned address not at all.
abbrev seen : ℕ → ℕ → AddressStatus
seen points time = record new_status { score = pos points; last_seen = time }

abbrev scored : EndpointManager ℕ ℕ ℕ
scored = record {
  status = (1, seen 3 990) ∷ (2, seen 9 980) ∷ (3, record new_status { score = negsuc 4 }) ∷ [];
  nodes = record nodes {
    map_node =
        (101, node_1)
        ∷ (203, node_2)
        ∷ (305, record { ep = 305; name = "three"; content = none; retries = 0 })
        ∷ [];
  };
}

good_node_test :
    retrieve_good_node address [] 1000 600 5 scored
    ≡ record { ep = 203; node_data = none; time = 980 }
      ∷ record { ep = 101; node_data = none; time = 990 }
      ∷ []
unfolding retrieve_good_node NodeManager.retrieve score_loop score_node OrdMap.find insert_score
    ◌-ℤ◌
good_node_test = refl

abbrev one_banned : List (ℕ × AddressStatus)
one_banned = (1, record new_status { ban_to = 60 }) ∷ (2, new_status) ∷ []

clear_banned_test : clear_banned 50 (1 ∷ 2 ∷ []) one_banned ≡ (2, new_status) ∷ []
unfolding clear_banned OrdMap.find OrdMap.erase
clear_banned_test = refl
