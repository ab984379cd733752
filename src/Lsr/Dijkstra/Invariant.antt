-- ===== src/Lsr/Dijkstra/Invariant.antt =====
-- What holds between two rounds of the algorithm, and what its inner loop keeps. `g` is the graph
-- that the table says, which the algorithm does not change.
use des_routing_algorithms.Common.{
  ℕ, ◌+◌, ◌-◌, ◌≤◌, ◌<◌, ◌≡◌, ◌≢◌, ◌⊎◌, true, false, Option, none, some, List, find, Unique,
}
use des_routing_algorithms.Lsr.{NodeNeighbors, AllNodes, addr_of, ether_broadcast}
use des_routing_algorithms.Lsr.Dijkstra.{infinity, climb}
use des_routing_algorithms.Lsr.Dijkstra.Paths.{IsIn, IsListed, Graph, neighbors_at, Edge, Route}
use des_routing_algorithms.Lsr.Dijkstra.Lookup.{count}

-- The node that the paths start from.
abbrev pub IsStart : ℕ → Option AllNodes → Type 0
IsStart src none = ⊥
IsStart src (some n) = (n.distance ≡ 0) × (n.prev_hop ≡ src)

-- A node that was not reached, or lies behind a visited one.
abbrev pub Hangs : Graph → ℕ → AllNodes → Option AllNodes → Type 0
Hangs g v n none = (n.prev_hop ≡ ether_broadcast) × (n.distance ≡ infinity)
Hangs g v n (some p) =
    (p.visited ≡ true)
    × (n.prev_hop ≢ ether_broadcast)
    × (n.distance < infinity)
    × (p.distance ≤ n.distance)
    × Edge g n.prev_hop v (n.distance - p.distance)

abbrev pub IsWhole : Option AllNodes → Type 0
IsWhole none = Unit
IsWhole (some n) = n.neighbors ≢ none

-- The next hop is not written before Part IV.
abbrev pub IsBlank : Option AllNodes → Type 0
IsBlank none = Unit
IsBlank (some n) = n.next_hop ≡ ether_broadcast

-- A visited node is not farther than an unvisited one.
abbrev pub Ordered : Option AllNodes → Option AllNodes → Type 0
Ordered none o = Unit
Ordered (some m) none = Unit
Ordered (some m) (some n) = m.visited ≡ true → n.visited ≡ false → m.distance ≤ n.distance

-- A link of weight `w` from a visited node was used.
abbrev pub Relaxed : ℕ → Option AllNodes → Option AllNodes → Type 0
Relaxed w none o = Unit
Relaxed w (some m) none = Unit
Relaxed w (some m) (some n) = m.visited ≡ true → n.distance ≤ m.distance + w

abbrev pub Trail : Graph → ℕ → Option ℕ → ℕ → ℕ → Type 0
Trail g src none v d = ⊥
Trail g src (some h) v d = Route g src h v d

-- The way back from a visited node that was reached.
abbrev pub Traced : Graph → ℕ → List AllNodes → ℕ → Option AllNodes → Type 0
Traced g src ns v none = Unit
Traced g src ns v (some n) =
    n.visited ≡ true
    → n.prev_hop ≢ ether_broadcast
    → Trail g src (climb (count ns) ns src v) v n.distance

module _ (g : Graph) (src : ℕ) where
  pub record Inv (ns : List AllNodes) : Type 0 where
    pub unique : Unique addr_of ns
    pub same : (v : ℕ) → neighbors_at (find addr_of v ns) ≡ g v
    pub whole : (v : ℕ) → IsWhole (find addr_of v ns)
    pub broadcast : find addr_of ether_broadcast ns ≡ none
    pub source : IsStart src (find addr_of src ns)
    pub blank : (v : ℕ) → v ≢ src → IsBlank (find addr_of v ns)
    pub tree :
        (v : ℕ) (n : AllNodes)
        → v ≢ src
        → find addr_of v ns ≡ some n
        → Hangs g v n (find addr_of n.prev_hop ns)
    pub ordered : (u v : ℕ) → Ordered (find addr_of u ns) (find addr_of v ns)
    pub relaxed : (u v w : ℕ) → Edge g u v w → Relaxed w (find addr_of u ns) (find addr_of v ns)
    pub traced : (v : ℕ) → v ≢ src → Traced g src ns v (find addr_of v ns)

  -- The node that is being visited, at its place in the table.
  abbrev pub IsCurrent : AllNodes → Option AllNodes → Type 0
  IsCurrent cur none = ⊥
  IsCurrent cur (some c) = (c.distance ≡ cur.distance) × (c.visited ≡ true)

  -- The visited nodes are not farther than `d`, the others not nearer.
  abbrev pub Split : ℕ → Option AllNodes → Type 0
  Split d none = Unit
  Split d (some n) = (n.visited ≡ true → n.distance ≤ d) × (n.visited ≡ false → d ≤ n.distance)

  -- Within the inner loop, where the links `todo` of the node `cur` are left.
  pub record Inner (cur : AllNodes) (todo : List NodeNeighbors) (ns : List AllNodes) : Type 0 where
    pub unique : Unique addr_of ns
    pub same : (v : ℕ) → neighbors_at (find addr_of v ns) ≡ g v
    pub whole : (v : ℕ) → IsWhole (find addr_of v ns)
    pub broadcast : find addr_of ether_broadcast ns ≡ none
    pub source : IsStart src (find addr_of src ns)
    pub blank : (v : ℕ) → v ≢ src → IsBlank (find addr_of v ns)
    pub tree :
        (v : ℕ) (n : AllNodes)
        → v ≢ src
        → find addr_of v ns ≡ some n
        → Hangs g v n (find addr_of n.prev_hop ns)
    pub current : IsCurrent cur (find addr_of cur.addr ns)
    pub split : (v : ℕ) → Split cur.distance (find addr_of v ns)
    pub relaxed :
        (u v w : ℕ)
        → u ≢ cur.addr
        → Edge g u v w
        → Relaxed w (find addr_of u ns) (find addr_of v ns)
    pub listed : (v w : ℕ) → IsIn v w todo → IsListed v w (g cur.addr)
    pub left :
        (v w : ℕ)
        → Edge g cur.addr v w
        → IsIn v w todo ⊎ Relaxed w (find addr_of cur.addr ns) (find addr_of v ns)
    pub traced : (v : ℕ) → v ≢ src → Traced g src ns v (find addr_of v ns)
