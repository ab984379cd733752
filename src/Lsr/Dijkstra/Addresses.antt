-- ===== src/Lsr/Dijkstra/Addresses.antt =====
-- Where the algorithm ends, the addresses of the table are as different as they were, whatever the
-- other fields of its entries hold.
use des_routing_algorithms.Common.{
  ℕ, zero, suc, ◌≡◌, refl, inl, inr, Bool, Option, none, some, List, [], ◌∷◌, map, arith, find,
  Unique, modify-Unique, Option-cases, Bool-cases, length,
}
use des_routing_algorithms.Lsr.{NodeNeighbors, AllNodes, addr_of}
use des_routing_algorithms.Lsr.Dijkstra.{
  check_visited, get_low_unvisit_dist, relax, relax_all, set_visited, visit, visit_all, trace,
  trace_all, set_start, unvisit, start, shortest_path,
}
use des_routing_algorithms.Lsr.Dijkstra.Lookup.{map-Unique}
use des_routing_algorithms.Lsr.Dijkstra.Relax.{relax-Unique}

relax_all-Unique :
    (cur : AllNodes) (nbs : List NodeNeighbors) (ns : List AllNodes)
    → Unique addr_of ns
    → Unique addr_of (relax_all cur nbs ns)
unfolding relax_all
relax_all-Unique cur [] ns u = u
relax_all-Unique cur (nb ∷ nbs) ns u =
    relax_all-Unique cur nbs (relax cur nb ns) (relax-Unique cur nb ns u)

visit-Unique :
    (o : Option AllNodes) (ns out : List AllNodes)
    → visit o ns ≡ some out
    → Unique addr_of ns
    → Unique addr_of out
unfolding visit
visit-Unique none ns out e u = cc
visit-Unique (some cur) ns out e u = elim (Option-cases cur.neighbors) [
  | inl a ↦ absurd (ground (arith, a, e))
  | inr c ↦
      let (nbs, a) = c in
      ground (
        arith,
        a,
        e,
        relax_all-Unique cur nbs _ (modify-Unique addr_of set_visited (λ n. refl) cur.addr ns u),
      )
]

visit_all-Unique :
    (fuel : ℕ) (ns out : List AllNodes)
    → visit_all fuel ns ≡ some out
    → Unique addr_of ns
    → Unique addr_of out
unfolding visit_all
visit_all-Unique zero ns out e u = ground (arith, e, u)
visit_all-Unique (suc fuel) ns out e u = elim (Bool-cases (check_visited ns)) [
  | inl all ↦ ground (arith, all, e, u)
  | inr some_left ↦ elim (Option-cases (visit (get_low_unvisit_dist ns) ns)) [
    | inl a ↦ absurd (ground (arith, some_left, a, e))
    | inr c ↦
        let (next, a) = c in
        visit_all-Unique fuel next out (ground (arith, some_left, a, e))
          (visit-Unique (get_low_unvisit_dist ns) ns next a u)
  ]
]

trace_all-Unique :
    (differs : Bool) (nodes : List AllNodes) (src : ℕ) (ns out : List AllNodes)
    → trace_all differs nodes src ns ≡ some out
    → Unique addr_of ns
    → Unique addr_of out × ((v : ℕ) → find addr_of v ns ≡ none → find addr_of v out ≡ none)
unfolding trace_all
trace_all-Unique differs nodes src [] [] e u = (tt, λ v h. refl)
trace_all-Unique differs nodes src [] (x ∷ xs) e u = absurd (ground (arith, e))
trace_all-Unique differs nodes src (n ∷ ns) out e u =
    elim (Option-cases (trace differs nodes src n)) [
      | inl a ↦ absurd (ground (arith, a, e))
      | inr c ↦
          let (hop, a) = c in
          elim (Option-cases (trace_all differs nodes src ns)) [
            | inl b ↦ absurd (ground (arith, a, b, e))
            | inr f ↦
                let (rest, b) = f in
                let (unique, absent) = trace_all-Unique differs nodes src ns rest b u.1 in
                (
                  ground (arith, a, b, e, unique, absent n.addr u.0),
                  λ v h. ground (arith, a, b, e, absent v),
                )
          ]
    ]

pub shortest_path-Unique :
    (differs : Bool) (src : ℕ) (nodes out : List AllNodes)
    → shortest_path differs src nodes ≡ some out
    → Unique addr_of nodes
    → Unique addr_of out
unfolding shortest_path
shortest_path-Unique differs src [] out e u = ground (arith, e)
shortest_path-Unique differs src (n ∷ ns) out e u =
    elim (Option-cases (find addr_of src (n ∷ ns))) [
      | inl a ↦ absurd (ground (arith, a, e))
      | inr c ↦ elim (Option-cases (visit_all (length (n ∷ ns)) (start src (n ∷ ns)))) [
        | inl b ↦ absurd (ground (arith, c, b, e))
        | inr f ↦
            let (end, b) = f in
            let begun : Unique addr_of (start src (n ∷ ns)) =
              modify-Unique addr_of set_start (λ n. refl) src (map unvisit (n ∷ ns))
                (map-Unique unvisit (λ n. refl) (n ∷ ns) u) in
            (trace_all-Unique differs end src end out (ground (arith, c, b, e))
              (visit_all-Unique (length (n ∷ ns)) (start src (n ∷ ns)) end b begun)).0
      ]
    ]
