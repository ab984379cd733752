-- ===== src/Lsr/Dijkstra/Relax.antt =====
-- The inner loop keeps the invariant.
use des_routing_algorithms.Common.{
  ℕ, ◌+◌, ◌≡◌, ◌≢◌, refl, inl, inr, Option-cases, Option, some, List, [], ◌∷◌, arith, find, Unique,
  modify-Unique,
}
use des_routing_algorithms.Lsr.{NodeNeighbors, AllNodes, addr_of, ether_broadcast}
use des_routing_algorithms.Lsr.Dijkstra.{relax, relax_all}
use des_routing_algorithms.Lsr.Dijkstra.Paths.{Graph}
use des_routing_algorithms.Lsr.Dijkstra.Lookup.{count, count-relax, find-relax}
use des_routing_algorithms.Lsr.Dijkstra.Climb.{Kept, Trail-kept}
use des_routing_algorithms.Lsr.Dijkstra.Invariant.{Hangs, Traced, Inner}

pub relax-Unique :
    (cur : AllNodes) (nb : NodeNeighbors) (ns : List AllNodes)
    → Unique addr_of ns
    → Unique addr_of (relax cur nb ns)
unfolding relax
relax-Unique cur nb ns u =
    let f =
      λ (p : AllNodes). record p { distance = cur.distance + nb.weight; prev_hop = cur.addr } in
    ground (arith, modify-Unique addr_of f (λ n. refl) nb.addr ns u)

module _ (g : Graph) (src : ℕ) (cur : AllNodes) (nb : NodeNeighbors) (todo : List NodeNeighbors)
    (ns : List AllNodes) (inv : Inner g src cur (nb ∷ todo) ns) where
  open inv use {
    unique, same, whole, broadcast, source, blank, tree, current, split, relaxed, listed, left,
    traced,
  }

  abbrev at : ℕ → Option AllNodes
  at v = find addr_of v ns

  abbrev after : ℕ → Option AllNodes
  after v = find addr_of v (relax cur nb ns)

  relax-Kept : (v : ℕ) → Kept (at v) (after v)
  relax-Kept v = ground (arith, find-relax cur nb v ns, split v)

  tree-relax : (v : ℕ) (n : AllNodes) → v ≢ src → after v ≡ some n → Hangs g v n (after n.prev_hop)
  tree-relax v n ne f = elim (Option-cases (at v)) [
    | inl e ↦ absurd (ground (arith, find-relax cur nb v ns))
    | inr c ↦
        let (m, e) = c in
        ground (
          arith,
          find-relax cur nb v ns,
          find-relax cur nb n.prev_hop ns,
          tree v m ne e,
          split v,
          split n.prev_hop,
          current,
          broadcast,
          same v,
          whole v,
          listed nb.addr nb.weight (inl (refl, refl)),
        )
  ]

  relax-Traced : (v : ℕ) → v ≢ src → Traced g src (relax cur nb ns) v (after v)
  relax-Traced v ne = elim (Option-cases (at v)) [
    | inl e ↦ ground (arith, find-relax cur nb v ns)
    | inr c ↦
        let (m, e) = c in
        ground (
          arith,
          find-relax cur nb v ns,
          split v,
          count-relax cur nb ns,
          traced v ne,
          Trail-kept g src ns (relax cur nb ns) broadcast tree relax-Kept (count ns) v m.distance m
              ne e,
        )
  ]

  Inner-relax : Inner g src cur todo (relax cur nb ns)
  Inner-relax = record {
    unique = relax-Unique cur nb ns unique;
    same = λ v. ground (arith, find-relax cur nb v ns, same v);
    whole = λ v. ground (arith, find-relax cur nb v ns, whole v);
    broadcast = ground (arith, find-relax cur nb ether_broadcast ns, broadcast);
    source = ground (arith, find-relax cur nb src ns, source);
    blank = λ v ne. ground (arith, find-relax cur nb v ns, blank v ne);
    tree = tree-relax;
    current = ground (arith, find-relax cur nb cur.addr ns, current);
    split = λ v. ground (arith, find-relax cur nb v ns, split v);
    relaxed = λ u v w ne e. ground (
      arith,
      find-relax cur nb u ns,
      find-relax cur nb v ns,
      relaxed u v w ne e,
      split u,
      split v,
    );
    listed = λ v w i. listed v w (inr i);
    left = λ v w e.
        ground (arith, find-relax cur nb cur.addr ns, find-relax cur nb v ns, left v w e, current);
    traced = relax-Traced;
  }

pub Inner-relax_all :
    (g : Graph) (src : ℕ) (cur : AllNodes) (todo : List NodeNeighbors) (ns : List AllNodes)
    → Inner g src cur todo ns
    → Inner g src cur [] (relax_all cur todo ns) × (count (relax_all cur todo ns) ≡ count ns)
unfolding relax_all
Inner-relax_all g src cur [] ns inv = (inv, refl)
Inner-relax_all g src cur (nb ∷ todo) ns inv =
    let (relax-Kept, counted) =
      Inner-relax_all g src cur todo (relax cur nb ns) (Inner-relax g src cur nb todo ns inv) in
    (relax-Kept, ground (arith, counted, count-relax cur nb ns))
