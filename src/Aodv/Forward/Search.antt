-- ===== src/Aodv/Forward/Search.antt =====
-- A packet that waits for a route, and the search for it.
use mathlib.Core.Path.{subst, sym}
use des_routing_algorithms.Common.{
  ℕ, ◌≡◌, ◌≢◌, refl, ◌⊎◌, ◌∙◌, Bool, true, false, none, [], ◌==◌, if◌then◌else◌, arith,
}
use des_routing_algorithms.Aodv.Timeval.{Timeval, Dessert}
use des_routing_algorithms.Aodv.RoutingTable.Defs.{local_used}
use des_routing_algorithms.Aodv.RoutingTable.Capture.{getroute2dest}
use des_routing_algorithms.Aodv.RoutingTable.Forwarding.{route_of, getroute2dest_route}
use des_routing_algorithms.Aodv.RoutingTable.Purge.{entry_for}
use des_routing_algorithms.Aodv.Series.{State, start_series, ttl_start, ttl_max}
use des_routing_algorithms.Aodv.Series.Searched.{searched, start-searched}
use des_routing_algorithms.Aodv.Series.Calls.{Calls, Removed, Calls-kept}
use des_routing_algorithms.Aodv.Series.Reach.{start, Reach, later, Reach-Inv}
use des_routing_algorithms.Aodv.Forward.{DataMsg, Node, ether_broadcast, sys2rp}

-- A packet of the own system for a host without a usable route, which is not the broadcast, at a node
-- whose list of series is one that the threads can reach, is not sent, and right after the start of a
-- series of RREQs for the host one is in the list. Whatever steps the threads do next, one is still in
-- the list, unless one of the steps is `delete_series_ether` for the host or gives up a series for it.
pub sys2rp-search :
    ⦃d : Dessert⦄ (timestamp now : Timeval) (ring_search : Bool) (m : DataMsg) (n : Node)
    (malloc : Bool × Bool × Bool × Bool) (end : State)
    (run : Calls [] (sys2rp timestamp now ring_search m n malloc).node.series end)
    → Reach n.series
    → m.ether_dhost ≢ ether_broadcast
    → route_of (entry_for m.ether_dhost n.rt.tables) ≡ none
    → let result = sys2rp timestamp now ring_search m n malloc in
      (result.outputs ≡ [])
      × (searched result.node.series m.ether_dhost ≡ true)
      × ((searched end m.ether_dhost ≡ true) ⊎ Removed m.ether_dhost [] result.node.series end run)
unfolding sys2rp
sys2rp-search timestamp now ring_search m n malloc end run r unicast no_route =
    let ttl : ℕ = if ring_search then ttl_start else ttl_max in
    let (m_rt, m_entry, m_fl, m_ts) = malloc in
    let result = sys2rp timestamp now ring_search m n malloc in
    let route : (getroute2dest n.rt m.ether_dhost timestamp now local_used m_rt).1 ≡ none =
      getroute2dest_route n.rt m.ether_dhost timestamp now local_used m_rt ∙ no_route in
    let other : (m.ether_dhost == ether_broadcast) ≡ false = ground arith in
    let started : result.node.series ≡ start_series m.ether_dhost ttl n.series =
      rw (sys2rp, other, route) refl in
    let there : searched result.node.series m.ether_dhost ≡ true = ground (
      arith,
      started,
      start-searched m.ether_dhost n.series (Reach-Inv n.series r) m.ether_dhost ttl,
    ) in
    let reached : Reach result.node.series =
      subst Reach (sym started) (later r (start m.ether_dhost ttl)) in
    (
      rw (sys2rp, other, route) refl,
      there,
      Calls-kept m.ether_dhost [] result.node.series end run reached there,
    )
