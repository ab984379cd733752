-- ===== src/Lsr/Dijkstra.antt =====
-- des-lsr/trunk/src/des-lsr_dijkstra.c: the shortest paths from a node of the table to all others.
-- An entry that C reaches through a pointer is written through its address, as no two entries have
-- the same. Where a NULL pointer is followed the result is `none`.
pub mod Paths
pub mod Lookup
pub mod Invariant
pub mod Climb
pub mod Relax
pub mod Visit
pub mod Start
pub mod Trace
pub mod Shortest
pub mod Addresses
use des_routing_algorithms.Common.{
  ℕ, zero, suc, ◌+◌, Bool, true, false, ◌&&◌, ◌||◌, not, Option, none, some, List, [], ◌∷◌, map,
  ltb, ◌==◌, if◌then◌else◌, find, modify, length,
}
use des_routing_algorithms.Lsr.{NodeNeighbors, AllNodes, ether_broadcast, addr_of}

-- INFINITY
abbrev pub infinity : ℕ
infinity = 200

abbrev pub find_addr : ℕ → List AllNodes → Option AllNodes
find_addr addr nodes = find addr_of addr nodes

unfoldable pub check_visited : List AllNodes → Bool
check_visited [] = true
check_visited (n ∷ ns) = n.visited && check_visited ns

-- The test in the loop of `get_low_unvisit_dist`.
abbrev pub lower : AllNodes → Option AllNodes → Option AllNodes
lower n none = some n
lower n (some lowest) = if ltb n.distance lowest.distance then some n else some lowest

unfoldable pub lowest_from : Option AllNodes → List AllNodes → Option AllNodes
lowest_from lowest [] = lowest
lowest_from lowest (n ∷ ns) = lowest_from (if n.visited then lowest else lower n lowest) ns

abbrev pub get_low_unvisit_dist : List AllNodes → Option AllNodes
get_low_unvisit_dist nodes = lowest_from none nodes

-- Part I
abbrev pub unvisit : AllNodes → AllNodes
unvisit n = record n {
  visited = false;
  distance = infinity;
  prev_hop = ether_broadcast;
  next_hop = ether_broadcast;
}

-- Part II
abbrev pub set_start : AllNodes → AllNodes
set_start n = record n { distance = 0; prev_hop = n.addr; next_hop = n.addr }

-- The body of the inner loop of Part III.
unfoldable pub relax : AllNodes → NodeNeighbors → List AllNodes → List AllNodes
relax current nb nodes = elim (find_addr nb.addr nodes) [
  | none ↦ nodes
  | some ptr ↦
      if ltb (current.distance + nb.weight) ptr.distance
      then modify addr_of nb.addr
          (λ p. record p { distance = current.distance + nb.weight; prev_hop = current.addr }) nodes
      else nodes
]

unfoldable pub relax_all : AllNodes → List NodeNeighbors → List AllNodes → List AllNodes
relax_all current [] nodes = nodes
relax_all current (nb ∷ nbs) nodes = relax_all current nbs (relax current nb nodes)

abbrev pub set_visited : AllNodes → AllNodes
set_visited n = record n { visited = true }

-- The body of the outer loop.
abbrev pub relax_from :
    AllNodes → Option (List NodeNeighbors) → List AllNodes → Option (List AllNodes)
relax_from current none nodes = none
relax_from current (some nbs) nodes = some (relax_all current nbs nodes)

unfoldable pub visit : Option AllNodes → List AllNodes → Option (List AllNodes)
visit none nodes = none
visit (some current) nodes =
    relax_from current current.neighbors (modify addr_of current.addr set_visited nodes)

unfoldable pub visit_all : ℕ → List AllNodes → Option (List AllNodes)
visit_all zero nodes = if check_visited nodes then some nodes else none
visit_all (suc fuel) nodes =
    if check_visited nodes then some nodes else elim (visit (get_low_unvisit_dist nodes) nodes) [
      | none ↦ none
      | some nodes' ↦ visit_all fuel nodes'
    ]

-- The inner loop of Part IV, from the node with the address `prev`.
unfoldable pub climb : ℕ → List AllNodes → ℕ → ℕ → Option ℕ
climb zero nodes addr prev = none
climb (suc fuel) nodes addr prev = elim (find_addr prev nodes) [
  | none ↦ none
  | some ptr ↦ if ptr.prev_hop == addr then some ptr.addr else climb fuel nodes addr ptr.prev_hop
]

-- The next hop that Part IV writes. `differs` is what `memcmp` says of the bytes that follow the
-- addresses in memory, as the comparison is of `ETH_ALEN * sizeof(int)` bytes.
unfoldable pub trace : Bool → List AllNodes → ℕ → AllNodes → Option ℕ
trace differs nodes addr n =
    if (not (n.addr == addr) || differs) && not (n.prev_hop == ether_broadcast)
    then climb (length nodes) nodes addr n.prev_hop
    else some n.next_hop

unfoldable pub trace_all : Bool → List AllNodes → ℕ → List AllNodes → Option (List AllNodes)
trace_all differs nodes addr [] = some []
trace_all differs nodes addr (n ∷ ns) = elim (trace differs nodes addr n) [
  | none ↦ none
  | some hop ↦ elim (trace_all differs nodes addr ns) [
    | none ↦ none
    | some ns' ↦ some (record n { next_hop = hop } ∷ ns')
  ]
]

-- Parts I and II, where the node with the address is in the table.
abbrev pub start : ℕ → List AllNodes → List AllNodes
start addr nodes = modify addr_of addr set_start (map unvisit nodes)

unfoldable pub shortest_path : Bool → ℕ → List AllNodes → Option (List AllNodes)
shortest_path differs addr [] = some []
shortest_path differs addr (n ∷ ns) = elim (find_addr addr (n ∷ ns)) [
  | none ↦ none
  | some _ ↦ elim (visit_all (length (n ∷ ns)) (start addr (n ∷ ns))) [
    | none ↦ none
    | some nodes ↦ trace_all differs nodes addr nodes
  ]
]
