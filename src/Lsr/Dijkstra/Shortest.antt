-- ===== src/Lsr/Dijkstra/Shortest.antt =====
-- What the algorithm computes: distances and next hops.
use des_routing_algorithms.Common.{
  ℕ, ◌≡◌, ◌≢◌, refl, inl, inr, Bool, true, none, some, List, [], ◌∷◌, arith, find, Unique,
  Option-cases, Bool-cases, length, ◌==◌,
}
use des_routing_algorithms.Lsr.{AllNodes, addr_of}
use des_routing_algorithms.Lsr.Dijkstra.{check_visited, trace, shortest_path}
use des_routing_algorithms.Lsr.Dijkstra.Paths.{Graph, graph, Walk}
use des_routing_algorithms.Lsr.Dijkstra.Visit.{Round}
use des_routing_algorithms.Lsr.Dijkstra.Start.{IsTable, visited-start}
use des_routing_algorithms.Lsr.Dijkstra.Trace.{
  Hopped, trace_all-Hopped, Within, IsRouted, least, trace_src, trace_ne,
}

-- The table after Part III, and what the algorithm makes of it.
record IsResult (differs : Bool) (src : ℕ) (nodes end out : List AllNodes) : Type 0 where
  known : find addr_of src end ≢ none
  round : Round (graph nodes) src (length nodes) (length nodes) end
  all : check_visited end ≡ true
  result : shortest_path differs src nodes ≡ some out
  unique : Unique addr_of out
  hopped : (v : ℕ) → Hopped differs end src (find addr_of v end) (find addr_of v out)

traced_all :
    (differs : Bool) (g : Graph) (src size : ℕ) (end : List AllNodes)
    → find addr_of src end ≢ none
    → Round g src size size end
    → check_visited end ≡ true
    → (v : ℕ) (n : AllNodes) → find addr_of v end ≡ some n
    → trace differs end src n ≢ none
traced_all differs g src size end known round all v n e t = elim (Bool-cases (v == src)) [
  | inl b ↦
      let (h, found) = trace_src g src size end known round all differs n (ground (arith, b, e)) in
      cc
  | inr b ↦
      let (h, found, routed) =
        trace_ne g src size end known round all differs v n (ground (arith, b)) e in
      cc
]

shortest_path-IsResult :
    (differs : Bool) (src : ℕ) (nodes : List AllNodes)
    → IsTable src nodes
    → (end : List AllNodes) × (out : List AllNodes) × IsResult differs src nodes end out
unfolding shortest_path
shortest_path-IsResult differs src [] t = absurd (t.known refl)
shortest_path-IsResult differs src (n ∷ ns) t =
    let (end, e, round, all) = visited-start src (n ∷ ns) t in
    let known : find addr_of src end ≢ none = λ k. ground (arith, k, round.inv.source) in
    let (out, e', unique, hopped) =
      trace_all-Hopped differs end src end round.inv.unique
        (traced_all differs (graph (n ∷ ns)) src (length (n ∷ ns)) end known round all) in
    (
      end,
      out,
      record {
        known = known;
        round = round;
        all = all;
        result = elim (Option-cases (find addr_of src (n ∷ ns))) [
          | inl k ↦ absurd (t.known k)
          | inr k ↦ ground (arith, k, e, e')
        ];
        unique = unique;
        hopped = hopped;
      },
    )

-- With one entry for each address, none for the broadcast, tables of neighbors for all, and an
-- entry for the source, the algorithm ends without following a NULL pointer, and keeps the
-- neighbors of each node. A node other than the source that is known has the length of a route to
-- it as its distance, if that is less than INFINITY, and the first hop of the route as its next
-- hop, or the source itself where the node before it is the source; any other node has the
-- distance INFINITY and no next hop.
pub shortest_path-IsRouted :
    (differs : Bool) (src : ℕ) (nodes : List AllNodes)
    → IsTable src nodes
    → (v : ℕ) → v ≢ src
    → (out : List AllNodes) × (shortest_path differs src nodes ≡ some out)
      × (graph out v ≡ graph nodes v)
      × IsRouted (graph nodes) src v (find addr_of v out)
unfolding shortest_path
shortest_path-IsRouted differs src nodes t v ne =
    let (end, out, r) = shortest_path-IsResult differs src nodes t in
    let hopped = r.hopped v in
    elim (Option-cases (find addr_of v end)) [
      | inl e ↦ (
        out,
        r.result,
        ground (arith, e, hopped, r.round.inv.same v),
        ground (arith, e, hopped, r.round.inv.same v),
      )
      | inr c ↦
          let (n, e) = c in
          let (h, found, routed) =
            trace_ne (graph nodes) src (length nodes) end r.known r.round r.all differs v n ne e in
          let after : find addr_of v out ≡ some (record n { next_hop = h }) =
            ground (arith, e, found, hopped) in
          (out, r.result, ground (arith, after, e, r.round.inv.same v), rw after routed)
    ]

-- With one entry for each address, none for the broadcast, tables of neighbors for all, and an
-- entry for the source, a node to which a way leads over links of the table is known when the
-- algorithm has ended, and its distance is not above the length of the way.
pub shortest_path-least :
    (differs : Bool) (src : ℕ) (nodes : List AllNodes)
    → IsTable src nodes
    → (v d : ℕ) → Walk (graph nodes) src v d
    → (out : List AllNodes) × (shortest_path differs src nodes ≡ some out)
      × Within d (find addr_of v out)
shortest_path-least differs src nodes t v d way =
    let (end, out, r) = shortest_path-IsResult differs src nodes t in
    (
      out,
      r.result,
      ground
          (arith, r.hopped v, least (graph nodes) src (length nodes) end r.known r.round r.all way),
    )
