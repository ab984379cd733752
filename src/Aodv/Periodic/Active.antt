-- ===== src/Aodv/Periodic/Active.antt =====
-- The searches that go on for the routes in use.
use des_routing_algorithms.Common.{
  ℕ, ◌≡◌, Bool, true, some, List, [], ◌∷◌, find, ◌==◌, arith, Bool-cases, inl, inr,
}
use des_routing_algorithms.Aodv.Timeval.{Dessert}
use des_routing_algorithms.Aodv.RoutingTable.Defs.{RtEntry, addr_of}
use des_routing_algorithms.Aodv.RoutingTable.Breaks.{get_active_routes, active_routes}
use des_routing_algorithms.Aodv.Series.{State}
use des_routing_algorithms.Aodv.Series.Calls.{IsCalled, Calls, Served, Calls-Served}
use des_routing_algorithms.Aodv.Series.Reach.{Reach}
use des_routing_algorithms.Aodv.Control.{Router}
use des_routing_algorithms.Aodv.Periodic.{send_rreqs, periodic_send_rreq}

active_routes-IsCalled :
    (ring_search : Bool) (host : ℕ) (e : RtEntry) (entries : List RtEntry)
    → find addr_of host entries ≡ some e
    → e.flags.route_local_used ≡ true
    → IsCalled host (send_rreqs ring_search (active_routes entries))
unfolding send_rreqs active_routes
active_routes-IsCalled ring_search host e [] h used = absurd (ground (arith, h))
active_routes-IsCalled ring_search host e (x ∷ xs) h used = elim (Bool-cases (x.addr == host)) [
  | inl same ↦
      let a : x.flags.route_local_used ≡ true = ground (arith, h, same, used) in
      rw (send_rreqs, active_routes, a) (inl (ground (arith, same)))
  | inr other ↦
      let rest = active_routes-IsCalled ring_search host e xs (ground (arith, h, other)) used in
      elim (Bool-cases x.flags.route_local_used) [
        | inl a ↦ rw (send_rreqs, active_routes, a) (inr rest)
        | inr a ↦ rw (send_rreqs, active_routes, a) rest
      ]
]

-- The task of the periodic RREQs calls `aodv_send_rreq` for each host whose entry in the routing
-- table is marked as used by the own system. From a state that the threads can reach, and whatever
-- all threads do between the calls: right after the call for the host a series for it is in the
-- list, and one is there at the end of the calls too, unless a step after the call is
-- `delete_series_ether` for the host or gives up a series for it.
pub periodic_send_rreq-Served :
    ⦃d : Dessert⦄ (ring_search : Bool) (r : Router) (end : State)
    (run : Calls (periodic_send_rreq ring_search r) r.node.series end)
    → Reach r.node.series
    → (host : ℕ) (e : RtEntry) → find addr_of host r.node.rt.tables.entries ≡ some e
    → e.flags.route_local_used ≡ true
    → Served host (periodic_send_rreq ring_search r) r.node.series end run
unfolding periodic_send_rreq get_active_routes
periodic_send_rreq-Served ring_search r end run reach host e h used =
    Calls-Served host (periodic_send_rreq ring_search r) r.node.series end run reach
      (active_routes-IsCalled ring_search host e r.node.rt.tables.entries h used)
