-- ===== src/Lsr/Dijkstra/Visit.antt =====
-- A round of the algorithm keeps the invariant, and there are no more rounds than nodes.
use mathlib.Core.Option
use des_routing_algorithms.Common.{
  ℕ, zero, suc, ◌+◌, ◌-◌, ◌≤◌, ◌≡◌, ◌≢◌, refl, inl, inr, true, false, Option, some, List, [], arith,
  find, modify, modify-Unique, Option-cases, Bool-cases, length, ◌==◌, if◌then◌else◌,
}
use des_routing_algorithms.Lsr.{NodeNeighbors, AllNodes, addr_of, ether_broadcast}
use des_routing_algorithms.Lsr.Dijkstra.{
  check_visited, get_low_unvisit_dist, set_visited, visit, visit_all, relax_all, climb,
}
use des_routing_algorithms.Lsr.Dijkstra.Paths.{Graph, Edge, direct}
use des_routing_algorithms.Lsr.Dijkstra.Lookup.{
  count, count-set_visited, count-lt, count-all, length-modify, length-relax_all, find-modify,
  Lowest, lowest_from-Lowest,
}
use des_routing_algorithms.Lsr.Dijkstra.Climb.{Kept, Trail-kept, Trail-suc, Trail-further}
use des_routing_algorithms.Lsr.Dijkstra.Relax.{Inner-relax_all}
use des_routing_algorithms.Lsr.Dijkstra.Invariant.{Hangs, Trail, Traced, Inv, Inner}

-- A node is marked as visited.
module _ (g : Graph) (src : ℕ) (ns : List AllNodes) (cur : AllNodes) (nbs : List NodeNeighbors)
    (inv : Inv g src ns) (low : Lowest ns cur) (its : cur.neighbors ≡ some nbs) where
  open inv use {unique, same, whole, broadcast, source, blank, tree, ordered, relaxed, traced}
  open low use {found, unvisited, least}

  abbrev at : ℕ → Option AllNodes
  at v = find addr_of v ns

  abbrev marked : List AllNodes
  marked = modify addr_of cur.addr set_visited ns

  look :
      (v : ℕ)
      → find addr_of v marked ≡ (if cur.addr == v then Option.map set_visited (at v) else at v)
  look v = find-modify set_visited (λ n. refl) v cur.addr ns

  mark-Kept : (v : ℕ) → Kept (at v) (find addr_of v marked)
  mark-Kept v = ground (arith, look v)

  -- The way back from the node itself goes on from the one before it, which was visited already.
  climb-marked :
      cur.prev_hop ≢ src
      → climb (suc (count ns)) marked src cur.addr ≡ climb (count ns) marked src cur.prev_hop
  unfolding climb
  climb-marked ne = ground (arith, look cur.addr, found)

  climb-src : cur.prev_hop ≡ src → climb (suc (count ns)) marked src cur.addr ≡ some cur.addr
  unfolding climb
  climb-src e = ground (arith, look cur.addr, found)

  traced-cur :
      cur.addr ≢ src
      → cur.prev_hop ≢ ether_broadcast
      → Trail g src (climb (suc (count ns)) marked src cur.addr) cur.addr cur.distance
  traced-cur ne reached = elim (Option-cases (at cur.prev_hop)) [
    | inl e ↦ absurd (ground (arith, e, tree cur.addr cur ne found))
    | inr c ↦
        let (p, e) = c in
        let hangs = tree cur.addr cur ne found in
        let edge : Edge g cur.prev_hop cur.addr (cur.distance - p.distance) =
          ground (arith, e, hangs) in
        let sums : p.distance + (cur.distance - p.distance) ≡ cur.distance =
          ground (arith, e, hangs) in
        elim (Bool-cases (cur.prev_hop == src)) [
          | inl t ↦
              let at_src : cur.prev_hop ≡ src = ground (arith, t) in
              let from_src : Edge g src cur.addr cur.distance =
                ground (arith, e, hangs, source, edge) in
              rw (climb-src at_src) (direct cur.addr cur.distance from_src)
          | inr t ↦
              let other : cur.prev_hop ≢ src = ground (arith, t) in
              let before : Trail g src (climb (count ns) ns src cur.prev_hop) cur.prev_hop
                  p.distance =
                ground (arith, e, hangs, tree cur.prev_hop p other e, traced cur.prev_hop other) in
              let still : Trail g src (climb (count ns) marked src cur.prev_hop) cur.prev_hop
                  p.distance =
                Trail-kept g src ns marked broadcast tree mark-Kept (count ns) cur.prev_hop
                  p.distance p other e (ground (arith, e, hangs)) before in
              rw (climb-marked other, ← sums)
                (Trail-further g src (climb (count ns) marked src cur.prev_hop) cur.prev_hop
                  cur.addr p.distance (cur.distance - p.distance) still edge)
        ]
  ]

  mark-Traced : (v : ℕ) → v ≢ src → Traced g src marked v (find addr_of v marked)
  mark-Traced v ne = elim (Option-cases (at v)) [
    | inl e ↦ ground (arith, look v)
    | inr c ↦
        let (m, e) = c in
        let once =
          Trail-kept g src ns marked broadcast tree mark-Kept (count ns) v m.distance m ne e in
        ground (
          arith,
          look v,
          found,
          count-set_visited ns cur found unvisited,
          traced v ne,
          traced-cur,
          once,
          Trail-suc g (count ns) src marked v m.distance,
        )
  ]

  tree-mark :
      (v : ℕ) (n : AllNodes)
      → v ≢ src
      → find addr_of v marked ≡ some n
      → Hangs g v n (find addr_of n.prev_hop marked)
  tree-mark v n ne f = elim (Option-cases (at v)) [
    | inl e ↦ absurd (ground (arith, look v))
    | inr c ↦ let (m, e) = c in ground (arith, look v, look n.prev_hop, tree v m ne e)
  ]

  pub Inner-mark : Inner g src cur nbs marked
  Inner-mark = record {
    unique = modify-Unique addr_of set_visited (λ n. refl) cur.addr ns unique;
    same = λ v. ground (arith, look v, same v);
    whole = λ v. ground (arith, look v, whole v);
    broadcast = ground (arith, look ether_broadcast, broadcast);
    source = ground (arith, look src, source);
    blank = λ v ne. ground (arith, look v, blank v ne);
    tree = tree-mark;
    current = ground (arith, look cur.addr, found);
    split = λ v. ground (arith, look v, least v, ordered v cur.addr, found);
    relaxed = λ u v w ne e. ground (arith, look u, look v, relaxed u v w e);
    listed = λ v w i. ground (arith, same cur.addr, found);
    left = λ v w e. ground (arith, same cur.addr, found);
    traced = mark-Traced;
  }

-- When no link is left the round is over.
Inner-end :
    (g : Graph) (src : ℕ) (cur : AllNodes) (ns : List AllNodes)
    → Inner g src cur [] ns
    → Inv g src ns
Inner-end g src cur ns inner = record {
  unique = unique;
  same = same;
  whole = whole;
  broadcast = broadcast;
  source = source;
  blank = blank;
  tree = tree;
  ordered = λ u v. ground (arith, split u, split v);
  relaxed = λ u v w e. ground (arith, relaxed u v w, left v w);
  traced = traced;
}
  where
    open inner use {
      unique, same, whole, broadcast, source, blank, tree, split, relaxed, left, traced,
    }

-- Between two rounds: the invariant, and the number of nodes.
pub record Round (g : Graph) (src rounds size : ℕ) (ns : List AllNodes) : Type 0 where
  pub inv : Inv g src ns
  pub counted : count ns ≡ rounds
  pub sized : length ns ≡ size

visit-Round :
    (g : Graph) (src rounds size : ℕ) (ns : List AllNodes)
    → Round g src rounds size ns
    → check_visited ns ≡ false
    → (ns' : List AllNodes) × (visit (get_low_unvisit_dist ns) ns ≡ some ns')
      × Round g src (suc rounds) size ns'
unfolding visit
visit-Round g src rounds size ns r h =
    let (cur, e, low) = lowest_from-Lowest ns r.inv.unique h in
    elim (Option-cases cur.neighbors) [
      | inl n ↦ absurd (ground (arith, n, r.inv.whole cur.addr, low.found))
      | inr c ↦
          let (nbs, its) = c in
          let marked = modify addr_of cur.addr set_visited ns in
          let (inner, counted) =
            Inner-relax_all g src cur nbs marked (Inner-mark g src ns cur nbs r.inv low its) in
          (
            relax_all cur nbs marked,
            rw (e, its) refl,
            record {
              inv = Inner-end g src cur (relax_all cur nbs marked) inner;
              counted =
                  ground
                    (arith, counted, count-set_visited ns cur low.found low.unvisited, r.counted);
              sized = ground (
                arith,
                length-relax_all cur nbs marked,
                length-modify set_visited cur.addr ns,
                r.sized,
              );
            },
          )
    ]

last-Round :
    (g : Graph) (src rounds size : ℕ) (ns : List AllNodes)
    → Round g src rounds size ns
    → check_visited ns ≡ true
    → Round g src size size ns
last-Round g src rounds size ns r t = record {
  inv = r.inv;
  counted = ground (arith, count-all ns t, r.sized);
  sized = r.sized;
}

-- Every node is visited in the end, with as many rounds as there are nodes.
pub visit_all-Round :
    (g : Graph) (src fuel rounds size : ℕ) (ns : List AllNodes)
    → size ≤ fuel + rounds
    → Round g src rounds size ns
    → (ns' : List AllNodes) × (visit_all fuel ns ≡ some ns')
      × Round g src size size ns'
      × (check_visited ns' ≡ true)
unfolding visit_all
visit_all-Round g src zero rounds size ns enough r = elim (Bool-cases (check_visited ns)) [
  | inl t ↦ (ns, rw t refl, last-Round g src rounds size ns r t, t)
  | inr t ↦ absurd (omega (arith, count-lt ns t, r.counted, r.sized))
]
visit_all-Round g src (suc fuel) rounds size ns enough r = elim (Bool-cases (check_visited ns)) [
  | inl t ↦ (ns, rw t refl, last-Round g src rounds size ns r t, t)
  | inr t ↦
      let (next, e, r') = visit-Round g src rounds size ns r t in
      let (end, e', r'', done) =
        visit_all-Round g src fuel (suc rounds) size next (omega arith) r' in
      (end, rw (t, e) e', r'', done)
]
