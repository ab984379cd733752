-- ===== src/Lsr/Dijkstra/Paths.antt =====
-- What the links in the table of nodes say: the routes that lead from a node to another.
use des_routing_algorithms.Common.{ℕ, ◌+◌, ◌≡◌, ◌≢◌, ◌⊎◌, Option, none, some, List, [], ◌∷◌, find}
use des_routing_algorithms.Lsr.{NodeNeighbors, AllNodes, addr_of}

-- A link with a weight is in a table of neighbors.
abbrev pub IsIn : ℕ → ℕ → List NodeNeighbors → Type 0
IsIn v w [] = ⊥
IsIn v w (n ∷ ns) = ((n.addr ≡ v) × (n.weight ≡ w)) ⊎ IsIn v w ns

abbrev pub IsListed : ℕ → ℕ → Option (List NodeNeighbors) → Type 0
IsListed v w none = ⊥
IsListed v w (some ns) = IsIn v w ns

-- The neighbors of each node that is known.
abbrev pub Graph : Type 0
Graph = ℕ → Option (List NodeNeighbors)

abbrev pub neighbors_at : Option AllNodes → Option (List NodeNeighbors)
neighbors_at none = none
neighbors_at (some n) = n.neighbors

abbrev pub graph : List AllNodes → Graph
graph nodes v = neighbors_at (find addr_of v nodes)

-- A link from a node to a node that is known.
abbrev pub Edge : Graph → ℕ → ℕ → ℕ → Type 0
Edge g u v w = IsListed v w (g u) × (g v ≢ none)

-- `Walk g src v d`: a way from `src` to `v` has the length `d`.
pub data Walk (g : Graph) (src : ℕ) : ℕ → ℕ → Type 0 where
  here : Walk g src src 0
  step : {u v : ℕ} (d w : ℕ) → Walk g src u d → Edge g u v w → Walk g src v (d + w)

-- `Route g src h v d`: a way of length `d` from `src` to `v` goes to the neighbor `h` first.
pub data Route (g : Graph) (src : ℕ) : ℕ → ℕ → ℕ → Type 0 where
  direct : (v w : ℕ) → Edge g src v w → Route g src v v w
  further : {h u v : ℕ} (d w : ℕ) → Route g src h u d → Edge g u v w → Route g src h v (d + w)
