-- ===== src/Aodv/Forward/Route.antt =====
-- Where a packet from the mesh goes.
use des_routing_algorithms.Common.{
  ℕ, ◌≡◌, Bool, true, Option, none, some, List, [], ◌∷◌, ◌+◌, ◌-◌, ◌%◌, not, ◌&&◌, ltb, length,
  if◌then◌else◌, arith,
}
use des_routing_algorithms.Aodv.Timeval.{Timeval, Dessert, micros}
use des_routing_algorithms.Aodv.Timeslot.Order.{live}
use des_routing_algorithms.Aodv.SendLog.{getrerrcount}
use des_routing_algorithms.Aodv.SendLog.Count as Log
use des_routing_algorithms.Aodv.DataSeq.{capt_data_seq}
use des_routing_algorithms.Aodv.RoutingTable.Defs.{unused}
use des_routing_algorithms.Aodv.RoutingTable.Forwarding.{route_of, getroute2dest_route}
use des_routing_algorithms.Aodv.RoutingTable.Purge.{entry_for}
use des_routing_algorithms.Aodv.Rerr.{Exts, Rerr, create_rerr, add_dests, count_dests, mac_seq_size}
use des_routing_algorithms.Aodv.Forward.{
  DataMsg, RxFlags, Node, Output, msg_keep, msg_drop, mesh, mesh_rerr, no_route, forward,
  route_packet, report_no_route,
}

-- The packet as it is sent to the next hop: its TTL is one less, and its 8-bit count of hops one more.
abbrev sent_on : DataMsg → ℕ → DataMsg
sent_on m next_hop = record {
  ether_shost = m.ether_shost;
  ether_dhost = m.ether_dhost;
  next_hop = next_hop;
  ttl = m.ttl - 1;
  hops = (m.hops + 1) % 256;
  seq = m.seq;
}

-- A RERR that lists the destination only.
abbrev sole_rerr : List ℕ → ℕ → Rerr
sole_rerr ifaces dhost = record {
  ifaces = ifaces;
  dest_exts = (record { host = dhost; sequence_number = 4294967295 } ∷ []) ∷ [];
}

-- What is to be sent for a packet with this route, where so many RERRs were sent of late.
abbrev pub sent_for : DataMsg → List ℕ → Option (ℕ × ℕ) → ℕ → List Output
sent_for m ifaces (some (next_hop, iface)) rerr_count = mesh (sent_on m next_hop) (some iface) ∷ []
sent_for m ifaces none rerr_count =
    if ltb rerr_count 10 then mesh_rerr (sole_rerr ifaces m.ether_dhost) ∷ [] else []

module _ ⦃d : Dessert⦄ (x : Exts) (ifaces : List ℕ) (fits : x.addext [] mac_seq_size ≡ true)
    (timestamp now : Timeval) (m : DataMsg) where
  create_one :
      create_rerr x ifaces (no_route m.ether_dhost ∷ [])
      ≡ (some (sole_rerr ifaces m.ether_dhost), [])
  unfolding create_rerr add_dests count_dests
  create_one = ground (arith, fits)

  logged :
      (n : Node)
      → Log.IsValid n.rerr_log
      → (getrerrcount n.rerr_log timestamp).1
        ≡ length (live (micros timestamp) n.rerr_log.ts.elements)
  unfolding getrerrcount
  logged n v = (Log.getrreqcount_lem n.rerr_log timestamp v).0

  route_packet_sent :
      (n : Node) (malloc : Bool)
      → Log.IsValid n.rerr_log
      → let result = route_packet timestamp now x ifaces m n malloc in
        (result.verdict ≡ msg_drop)
        × (result.outputs
            ≡ sent_for m ifaces
                (route_of (entry_for m.ether_dhost n.rt.tables))
                (length (live (micros timestamp) n.rerr_log.ts.elements)))
  unfolding route_packet report_no_route
  route_packet_sent n malloc v = ground (
    arith,
    create_one,
    logged n v,
    getroute2dest_route n.rt m.ether_dhost timestamp now unused malloc,
  )

  -- A packet from the mesh is left to the other callbacks if it was not sent to this host or is for
  -- it; else it is dropped, and nothing is sent unless its TTL is greater than 0 and `capt_data_seq`
  -- says that it is new. Then it is sent to the next hop of the route to its destination, on the
  -- interface of the route, with a TTL that is less by one and a count of hops that is more by one,
  -- modulo 2 ^ 8; without a usable route a RERR is sent that names the destination with the number
  -- 2 ^ 32 - 1, if fewer than 10 RERRs were logged whose second has not passed. The log is valid, and
  -- an extension has room for a destination.
  pub forward_lem :
      (rx : RxFlags) (n : Node) (m_seq : Bool × Bool) (m_rt : Bool)
      → Log.IsValid n.rerr_log
      → let result = forward timestamp now x ifaces rx m n (m_seq, m_rt) in
        let for_others = rx.l2_dst && not rx.l25_dst in
        let is_new = (capt_data_seq n.data_seq m.ether_shost m.seq timestamp now m_seq).1 in
        (result.verdict ≡ (if for_others then msg_drop else msg_keep))
        × (result.outputs ≡ (
            if for_others && ltb 0 m.ttl && is_new
            then sent_for m ifaces
                (route_of (entry_for m.ether_dhost n.rt.tables))
                (length (live (micros timestamp) n.rerr_log.ts.elements))
            else []))
  unfolding forward
  forward_lem rx n m_seq m_rt v =
      let n' = record n {
        data_seq = (capt_data_seq n.data_seq m.ether_shost m.seq timestamp now m_seq).0;
      } in
      ground (arith, route_packet_sent n' m_rt v)
