-- ===== src/Lsr/Dijkstra/Start.antt =====
-- The invariant holds after Parts I and II.
use mathlib.Core.Option
use des_routing_algorithms.Common.{
  ℕ, ◌≡◌, ◌≢◌, refl, inl, inr, true, none, some, List, map, arith, find, modify-Unique, key-find,
  Unique, Option-cases, length, length-map, ◌==◌, if◌then◌else◌,
}
use des_routing_algorithms.Lsr.{AllNodes, addr_of, ether_broadcast}
use des_routing_algorithms.Lsr.Dijkstra.{unvisit, set_start, start, check_visited, visit_all}
use des_routing_algorithms.Lsr.Dijkstra.Paths.{graph}
use des_routing_algorithms.Lsr.Dijkstra.Lookup.{
  count, find-modify, find-map, map-Unique, length-modify,
}
use des_routing_algorithms.Lsr.Dijkstra.Visit.{Round, visit_all-Round}
use des_routing_algorithms.Lsr.Dijkstra.Invariant.{IsStart, IsWhole, Hangs, Inv}

-- A table with an entry for `src`, in which no address is there twice, none is that of the
-- broadcast, and each node has a table of neighbors.
pub record IsTable (src : ℕ) (nodes : List AllNodes) : Type 0 where
  pub unique : Unique addr_of nodes
  pub whole : (v : ℕ) → IsWhole (find addr_of v nodes)
  pub broadcast : find addr_of ether_broadcast nodes ≡ none
  pub known : find addr_of src nodes ≢ none

module _ (src : ℕ) (nodes : List AllNodes) (t : IsTable src nodes) where
  open t use {unique, whole, broadcast, known}

  look :
      (v : ℕ)
      → find addr_of v (start src nodes) ≡ (
          if src == v
          then Option.map set_start (Option.map unvisit (find addr_of v nodes))
          else Option.map unvisit (find addr_of v nodes))
  look v = ground (
    arith,
    find-modify set_start (λ n. refl) v src (map unvisit nodes),
    find-map unvisit (λ n. refl) v nodes,
  )

  tree-start :
      (v : ℕ) (n : AllNodes)
      → v ≢ src
      → find addr_of v (start src nodes) ≡ some n
      → Hangs (graph nodes) v n (find addr_of n.prev_hop (start src nodes))
  tree-start v n ne f = elim (Option-cases (find addr_of v nodes)) [
    | inl e ↦ absurd (ground (arith, look v))
    | inr c ↦ let (m, e) = c in ground (arith, look v, look ether_broadcast, broadcast)
  ]

  source-start : IsStart src (find addr_of src (start src nodes))
  source-start = elim (Option-cases (find addr_of src nodes)) [
    | inl e ↦ absurd (known e)
    | inr c ↦ let (n, e) = c in ground (arith, look src, e, key-find addr_of src nodes n e)
  ]

  pub Inv-start : Inv (graph nodes) src (start src nodes)
  Inv-start = record {
    unique =
        modify-Unique addr_of set_start (λ n. refl) src (map unvisit nodes)
          (map-Unique unvisit (λ n. refl) nodes unique);
    same = λ v. ground (arith, look v);
    whole = λ v. ground (arith, look v, whole v);
    broadcast = ground (arith, look ether_broadcast, broadcast);
    source = source-start;
    blank = λ v ne. ground (arith, look v);
    tree = tree-start;
    ordered = λ u v. ground (arith, look u, look v);
    relaxed = λ u v w e. ground (arith, look u);
    traced = λ v ne. ground (arith, look v);
  }

  sized : length (start src nodes) ≡ length nodes
  sized = ground (arith, length-modify set_start src (map unvisit nodes), length-map unvisit nodes)

  pub visited-start :
      (out : List AllNodes) × (visit_all (length nodes) (start src nodes) ≡ some out)
      × Round (graph nodes) src (length nodes) (length nodes) out
      × (check_visited out ≡ true)
  visited-start =
      visit_all-Round (graph nodes) src (length nodes) (count (start src nodes)) (length nodes)
        (start src nodes) (omega arith) (record { inv = Inv-start; counted = refl; sized = sized })
