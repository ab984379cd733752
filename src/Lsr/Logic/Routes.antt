-- ===== src/Lsr/Logic/Routes.antt =====
-- The routes after a refresh of the table of nodes, and the way that packets of the own system
-- take.
use mathlib.Core.Path.{subst}
use des_routing_algorithms.Common.{
  ℕ, zero, suc, ◌-◌, ◌≤◌, ◌<◌, ◌≡◌, ◌≢◌, inl, inr, Bool, true, false, none, some, List, [], ◌∷◌,
  ◌++◌, arith, find, delete, find-append, find-delete_ne, Option-cases, Bool-cases, ◌==◌,
  if◌then◌else◌,
}
use des_routing_algorithms.Lsr.{NodeNeighbors, AllNodes, addr_of, ether_broadcast}
use des_routing_algorithms.Lsr.Dijkstra.Paths.{
  IsIn, Graph, graph, Edge, Walk, here, step, Route, direct, further,
}
use des_routing_algorithms.Lsr.Dijkstra.Shortest.{shortest_path-IsRouted, shortest_path-least}
use des_routing_algorithms.Lsr.Dijkstra.Trace.{IsRouted, Behind, Via, Within}
use des_routing_algorithms.Lsr.Packets.{msg_drop, sys_to_mesh}
use des_routing_algorithms.Lsr.Logic.{route_from}
use des_routing_algorithms.Lsr.Logic.Valid.{IsNodes, own_entry, append-IsTable}

-- The graph that the host sees: the nodes that are known, and itself with its neighbors.
abbrev pub seen : ℕ → AllNodes → List NodeNeighbors → List AllNodes → Graph
seen defsrc mem nbs ns = graph (ns ++ own_entry defsrc mem nbs ∷ [])

pub route_from-IsRouted :
    (differs : Bool) (defsrc : ℕ) (mem : AllNodes) (nbs : List NodeNeighbors) (n : AllNodes)
    (ns : List AllNodes)
    → defsrc ≢ ether_broadcast
    → IsNodes defsrc (n ∷ ns)
    → (v : ℕ) → v ≢ defsrc
    → (out : List AllNodes) × (route_from differs defsrc mem nbs (n ∷ ns) ≡ some out)
      × IsRouted (seen defsrc mem nbs (n ∷ ns)) defsrc v (find addr_of v out)
unfolding route_from
route_from-IsRouted differs defsrc mem nbs n ns ne t v other =
    let all = (n ∷ ns) ++ own_entry defsrc mem nbs ∷ [] in
    let (out, e, same, routed) =
      shortest_path-IsRouted differs defsrc all (append-IsTable defsrc mem nbs (n ∷ ns) ne t) v
        other in
    (
      delete addr_of defsrc out,
      ground (arith, e),
      rw (find-delete_ne addr_of v defsrc out other) routed,
    )

pub route_from-least :
    (differs : Bool) (defsrc : ℕ) (mem : AllNodes) (nbs : List NodeNeighbors) (n : AllNodes)
    (ns : List AllNodes)
    → defsrc ≢ ether_broadcast
    → IsNodes defsrc (n ∷ ns)
    → (v d : ℕ) → v ≢ defsrc
    → Walk (seen defsrc mem nbs (n ∷ ns)) defsrc v d
    → (out : List AllNodes) × (route_from differs defsrc mem nbs (n ∷ ns) ≡ some out)
      × Within d (find addr_of v out)
unfolding route_from
route_from-least differs defsrc mem nbs n ns ne t v d other way =
    let all = (n ∷ ns) ++ own_entry defsrc mem nbs ∷ [] in
    let (out, e, within) =
      shortest_path-least differs defsrc all (append-IsTable defsrc mem nbs (n ∷ ns) ne t) v d
        way in
    (
      delete addr_of defsrc out,
      ground (arith, e),
      rw (find-delete_ne addr_of v defsrc out other) within,
    )

-- Where no link has the weight 0, a route to a node behind another is longer than 1.
abbrev pub IsWeighed : Graph → Type 0
IsWeighed g = (u v : ℕ) → Edge g u v 0 → ⊥

Route-pos : (g : Graph) (src : ℕ) {h v d : ℕ} → IsWeighed g → Route g src h v d → 0 < d
Route-pos g src weighed (direct v zero e) = absurd (weighed src v e)
Route-pos g src weighed (direct v (suc w) e) = omega arith
Route-pos g src weighed (further d w r e) = omega (arith, Route-pos g src weighed r)

else_of : (A B : Type 0) (b : Bool) → b ≡ false → (if b then A else B) → B
else_of A B true e h = cc
else_of A B false e h = h

Via-own :
    (g : Graph) (src v : ℕ) (n : AllNodes)
    → IsWeighed g
    → n.distance ≤ 1
    → Via g src v n
    → n.next_hop ≡ src
Via-own g src v n weighed near via = elim (Bool-cases (n.prev_hop == src)) [
  | inl b ↦ ground (arith, b, via)
  | inr b ↦
      let (e, le, route, edge) =
        else_of ((n.next_hop ≡ src) × Edge g src v n.distance) (Behind g src v n)
          (n.prev_hop == src) b via in
      let none_left : n.distance - e ≡ 0 = omega (arith, Route-pos g src weighed route, le, near) in
      absurd (weighed n.prev_hop v (subst (Edge g n.prev_hop v) none_left edge))
]

-- At a host whose address is not that of the broadcast, with a table of nodes that is not empty, has
-- no address twice, no entry for the broadcast and none for the host itself, and where each entry has
-- a table of neighbors: if no link has the weight 0, then after the routes are computed a packet of
-- the own system for another host, which is a neighbor over a link of weight 1 and has an entry in
-- the table, is sent to the own address, and then dropped.
pub route_from-sys_to_mesh :
    (differs : Bool) (defsrc : ℕ) (mem : AllNodes) (nbs : List NodeNeighbors) (n : AllNodes)
    (ns : List AllNodes)
    → defsrc ≢ ether_broadcast
    → IsNodes defsrc (n ∷ ns)
    → IsWeighed (seen defsrc mem nbs (n ∷ ns))
    → (v : ℕ) → v ≢ defsrc
    → IsIn v 1 nbs
    → find addr_of v (n ∷ ns) ≢ none
    → (out : List AllNodes) × (route_from differs defsrc mem nbs (n ∷ ns) ≡ some out)
      × (sys_to_mesh out v ≡ (some defsrc, msg_drop))
unfolding sys_to_mesh
route_from-sys_to_mesh differs defsrc mem nbs n ns ne t weighed v other listed known =
    let self = own_entry defsrc mem nbs in
    let g = seen defsrc mem nbs (n ∷ ns) in
    let look = λ (u : ℕ). find-append addr_of u (n ∷ ns) (self ∷ []) in
    let edge : Edge g defsrc v 1 =
      (ground (arith, look defsrc, t.own, listed), ground (arith, look v, known, t.whole v)) in
    let (out, e, routed) = route_from-IsRouted differs defsrc mem nbs n ns ne t v other in
    let (out', e', within) =
      route_from-least differs defsrc mem nbs n ns ne t v 1 other (step 0 1 here edge) in
    let same : out ≡ out' = ground (arith, e, e') in
    elim (Option-cases (find addr_of v out)) [
      | inl a ↦ absurd (ground (arith, a, routed, edge))
      | inr c ↦
          let (m, a) = c in
          let near : m.distance ≤ 1 = ground (arith, a, same, within) in
          let via : Via g defsrc v m = ground (arith, a, near, routed) in
          let hop : m.next_hop ≡ defsrc = Via-own g defsrc v m weighed near via in
          (out, e, ground (arith, a, hop))
    ]
