-- ===== src/Lsr.antt =====
-- des-lsr/trunk/src: the link-state daemon. Here its two hash tables (des-lsr_items.h), as lists
-- in the order of insertion.
pub mod Dijkstra
pub mod Logic
pub mod Packets
mod Tests
use des_routing_algorithms.Common.{ℕ, ◌-◌, ◌^◌, Bool, Option, List}

-- `struct node_neighbors`, without the handle of the hash table.
pub record NodeNeighbors : Type 0 where
  pub addr : ℕ
  pub entry_age : ℕ
  pub weight : ℕ

-- `struct all_nodes`. `neighbors` is `none` for a pointer that leads to no table.
pub record AllNodes : Type 0 where
  pub addr : ℕ
  pub next_hop : ℕ
  pub prev_hop : ℕ
  pub entry_age : ℕ
  pub seq_nr : ℕ
  pub distance : ℕ
  pub visited : Bool
  pub neighbors : Option (List NodeNeighbors)

abbrev pub ether_broadcast : ℕ
ether_broadcast = 2 ^ 48 - 1

abbrev pub addr_of : AllNodes → ℕ
addr_of n = n.addr

abbrev pub neighbor_of : NodeNeighbors → ℕ
neighbor_of n = n.addr
