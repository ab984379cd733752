-- ===== src/Lsr/Tests.antt =====
-- Runs of the link-state daemon, and the theorems on it at these values.
use des_routing_algorithms.Common.{
  ℕ, ◌≡◌, refl, arith, true, false, none, some, List, [], ◌∷◌, inl, inr, find, first,
}
use des_routing_algorithms.Lsr.{NodeNeighbors, AllNodes, addr_of, neighbor_of}
use des_routing_algorithms.Lsr.Dijkstra.{
  shortest_path, check_visited, lowest_from, relax, relax_all, visit, visit_all, climb, trace,
  trace_all,
}
use des_routing_algorithms.Lsr.Dijkstra.Paths.{graph, Walk, here, step}
use des_routing_algorithms.Lsr.Dijkstra.Start.{IsTable}
use des_routing_algorithms.Lsr.Dijkstra.Shortest.{shortest_path-IsRouted, shortest_path-least}
use des_routing_algorithms.Lsr.Dijkstra.Trace.{IsRouted, Within}
use des_routing_algorithms.Lsr.Packets.{
  sys_to_mesh, drop_errors, forward_packet, msg_keep, msg_drop,
}
use des_routing_algorithms.Lsr.Logic.{
  Globals, blocked, done, TcMsg, process_hello, send_tc, process_tc, refresh_list, refresh_rt,
  route_from, add_neighbor, use_cell, read_cells, expire, copy_neighbors, with_node,
}
use des_routing_algorithms.Lsr.Logic.Cells.{read_cells-none}
use des_routing_algorithms.Lsr.Logic.Valid.{IsNodes}
use des_routing_algorithms.Lsr.Logic.Steps.{
  IsValid, hello, tc, rt, Reach, begin, later, initial, Reach-IsValid, Reach-forward_packet,
  send_tc-blocked,
}
use des_routing_algorithms.Lsr.Logic.Routes.{IsWeighed, seen, route_from-sys_to_mesh}
use des_routing_algorithms.Lsr.Logic.RoundTrip.{told_at, received, process_tc-send_tc}

abbrev neighbor : ℕ → NodeNeighbors
neighbor a = record { addr = a; entry_age = 32; weight = 1 }

abbrev node : ℕ → List NodeNeighbors → AllNodes
node a nbs = record {
  addr = a;
  next_hop = 7;
  prev_hop = 7;
  entry_age = 32;
  seq_nr = 5;
  distance = 9;
  visited = true;
  neighbors = some nbs;
}

-- The row_hosts 10, 20 and 30 in a row.
abbrev row : List AllNodes
row = node 20 (neighbor 10 ∷ neighbor 30 ∷ []) ∷ node 30 (neighbor 20 ∷ []) ∷ []

abbrev row_hosts : List AllNodes
row_hosts = node 10 (neighbor 20 ∷ []) ∷ row

row_hosts-IsTable : IsTable 10 row_hosts
row_hosts-IsTable = record {
  unique = (refl, (refl, (refl, tt)));
  whole = λ v. ground arith;
  broadcast = refl;
  known = λ e. cc;
}

shortest_path_runs :
    (out : List AllNodes) × (shortest_path true 10 row_hosts ≡ some out)
    × (sys_to_mesh out 20 ≡ (some 10, msg_drop))
    × (sys_to_mesh out 30 ≡ (some 20, msg_drop))
unfolding shortest_path visit_all visit relax_all relax check_visited lowest_from trace_all trace
    climb sys_to_mesh
shortest_path_runs = (_, refl, refl, refl)

shortest_path-IsRouted_example :
    (out : List AllNodes) × (shortest_path true 10 row_hosts ≡ some out)
    × (graph out 30 ≡ graph row_hosts 30)
    × IsRouted (graph row_hosts) 10 30 (find addr_of 30 out)
shortest_path-IsRouted_example =
    shortest_path-IsRouted true 10 row_hosts row_hosts-IsTable 30 (λ e. omega (arith, e))

way : Walk (graph row_hosts) 10 30 2
way = step 1 1 (step 0 1 here (inl (refl, refl), λ e. cc)) (inr (inl (refl, refl)), λ e. cc)

shortest_path-least_example :
    (out : List AllNodes) × (shortest_path true 10 row_hosts ≡ some out)
    × Within 2 (find addr_of 30 out)
shortest_path-least_example = shortest_path-least true 10 row_hosts row_hosts-IsTable 30 2 way

row-IsNodes : IsNodes 10 row
row-IsNodes = record {
  unique = (refl, (refl, tt));
  whole = λ v. ground arith;
  broadcast = refl;
  own = refl;
}

row-IsWeighed : IsWeighed (seen 10 (node 0 []) (neighbor 20 ∷ []) row)
row-IsWeighed u v e = ground (arith, e)

route_from-sys_to_mesh_example :
    (out : List AllNodes) × (route_from true 10 (node 0 []) (neighbor 20 ∷ []) row ≡ some out)
    × (sys_to_mesh out 20 ≡ (some 10, msg_drop))
route_from-sys_to_mesh_example =
    route_from-sys_to_mesh true 10 (node 0 []) (neighbor 20 ∷ [])
      (node 20 (neighbor 10 ∷ neighbor 30 ∷ [])) (node 30 (neighbor 20 ∷ []) ∷ [])
      (λ e. omega (arith, e)) row-IsNodes row-IsWeighed 20 (λ e. omega (arith, e))
      (inl (refl, refl)) (λ e. cc)

-- A host that has heard 20 and 30.
abbrev heard_20 : Globals
heard_20 = record {
  dir_neighbors = neighbor 20 ∷ [];
  all_nodes = [];
  tc_seq_nr = 0;
  locked = false;
}

abbrev heard_30 : Globals
heard_30 = record {
  dir_neighbors = neighbor 20 ∷ neighbor 30 ∷ [];
  all_nodes = [];
  tc_seq_nr = 0;
  locked = false;
}

first_hello : process_hello true initial 20 true ≡ done (heard_20, msg_drop)
unfolding process_hello
first_hello = refl

second_hello : process_hello true heard_20 30 true ≡ done (heard_30, msg_drop)
unfolding process_hello
second_hello = refl

-- A TC of host 20, which names host 30 over a link of weight 1.
abbrev tc_20 : TcMsg
tc_20 = record { u8 = 1; ether_shost = 20; tc_ext = 9 ∷ 30 ∷ 0 ∷ 0 ∷ 0 ∷ 0 ∷ 0 ∷ 31 ∷ 1 ∷ [] }

abbrev node_20 : AllNodes
node_20 = record (node 20 (record (neighbor 30) { entry_age = 31 } ∷ [])) { seq_nr = 1 }

abbrev knows_20 : Globals
knows_20 = record heard_30 { all_nodes = node_20 ∷ [] }

-- With its route.
abbrev routed_20 : Globals
routed_20 = record heard_30 {
  all_nodes = record node_20 { next_hop = 10; prev_hop = 10; entry_age = 31; distance = 1 } ∷ [];
}

heard_tc : process_tc (node 0 []) heard_30 (some tc_20) ≡ done (knows_20, msg_drop)
unfolding process_tc read_cells use_cell add_neighbor
heard_tc = refl

passed_on : drop_errors false false ≡ msg_keep
unfolding drop_errors
passed_on = refl

refreshed : refresh_rt true true 10 (node 0 []) knows_20 ≡ done routed_20
unfolding refresh_rt expire route_from shortest_path visit_all visit relax_all relax check_visited
    lowest_from trace_all trace climb
refreshed = refl

routed-Reach : Reach 10 routed_20
routed-Reach =
    later
      (later
        (later (later begin (hello true 20 msg_drop first_hello))
          (hello true 30 msg_drop second_hello))
        (tc (node 0 []) tc_20 false msg_drop passed_on heard_tc))
      (rt true true (node 0 []) refreshed)

Reach-IsValid_example : IsValid 10 routed_20
Reach-IsValid_example = Reach-IsValid 10 routed_20 routed-Reach

Reach-forward_packet_example : forward_packet 10 routed_20.all_nodes 10 false ≡ (none, msg_drop)
Reach-forward_packet_example = Reach-forward_packet 10 routed_20 routed-Reach 10 false

abbrev stuck : Globals
stuck = record { dir_neighbors = []; all_nodes = []; tc_seq_nr = 0; locked = true }

lonely : send_tc true 10 initial ≡ done (stuck, none)
unfolding send_tc
lonely = refl

send_tc-blocked_example :
    (process_hello true stuck 20 true ≡ blocked)
    × (send_tc true 10 stuck ≡ blocked)
    × (process_tc (node 0 []) stuck none ≡ blocked)
    × (refresh_list true stuck ≡ blocked)
    × (refresh_rt true true 10 (node 0 []) stuck ≡ blocked)
send_tc-blocked_example =
    send_tc-blocked true 10 initial stuck none refl lonely true true true 20 (node 0 []) none

abbrev old : NodeNeighbors → NodeNeighbors
old n = record n { entry_age = 31 }

abbrev after : Globals
after = record {
  dir_neighbors = old (neighbor 20) ∷ old (neighbor 30) ∷ [];
  all_nodes = [];
  tc_seq_nr = 1;
  locked = false;
}

abbrev message : TcMsg
message = record {
  u8 = 1;
  ether_shost = 10;
  tc_ext = 17 ∷ 20 ∷ 0 ∷ 0 ∷ 0 ∷ 0 ∷ 0 ∷ 31 ∷ 1 ∷ 30 ∷ 0 ∷ 0 ∷ 0 ∷ 0 ∷ 0 ∷ 31 ∷ 1 ∷ [];
}

sent_tc : send_tc true 10 heard_30 ≡ done (after, some message)
unfolding send_tc expire copy_neighbors
sent_tc = refl

process_tc-send_tc_example :
    (h : Globals) × (process_tc (node 0 []) initial (some (received message (1 ∷ [])))
      ≡ done (h, msg_drop))
    × (told_at 30 (find addr_of 10 h.all_nodes)
        ≡ first neighbor_of
            (find neighbor_of 30 after.dir_neighbors)
            (told_at 30 (find addr_of 10 (with_node (node 0 []) message initial.all_nodes))))
process_tc-send_tc_example =
    process_tc-send_tc true 10 heard_30 after message sent_tc (refl, (refl, tt))
      (omega arith, (omega arith, tt)) (node 0 []) initial (1 ∷ []) refl (omega arith, λ e. cc) 30

read_cells-none_example : read_cells message 10 message.tc_ext row ≡ none
read_cells-none_example = read_cells-none message 10 message.tc_ext row (omega arith) (omega arith)
