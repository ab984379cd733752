-- ===== src/Aodv/Forward/Once.antt =====
-- What becomes of the copies of a packet, and how far it travels.
use des_routing_algorithms.Common.{
  ℕ, ◌+◌, ◌<◌, ◌≡◌, ◌⊎◌, inl, inr, refl, ap, Bool, true, false, List, [], arith, Option-cases, All,
}
use des_routing_algorithms.Aodv.Timeval.{Timeval, Dessert}
use des_routing_algorithms.Aodv.DataSeq.{DataSeq, capt_data_seq}
use des_routing_algorithms.Aodv.DataSeq.Once.{IsValid, Later, capt_data_seq-capt_data_seq}
use des_routing_algorithms.Aodv.RoutingTable.Defs.{unused}
use des_routing_algorithms.Aodv.RoutingTable.Capture.{getroute2dest}
use des_routing_algorithms.Aodv.Rerr.{Exts}
use des_routing_algorithms.Aodv.Forward.{
  DataMsg, RxFlags, Node, Handled, Output, mesh, mesh_rerr, sys, forward, route_packet,
  report_no_route,
}

module _ ⦃d : Dessert⦄ (x : Exts) (ifaces : List ℕ) where
  -- A report leaves the numbers of the packets alone, and so does a route.
  report-data_seq :
      (timestamp now : Timeval) (dhost : ℕ) (n : Node)
      → (report_no_route timestamp now x ifaces dhost n).node.data_seq ≡ n.data_seq
  unfolding report_no_route
  report-data_seq timestamp now dhost n = ground arith

  route-data_seq :
      (timestamp now : Timeval) (m : DataMsg) (n : Node) (malloc : Bool)
      → (route_packet timestamp now x ifaces m n malloc).node.data_seq ≡ n.data_seq
  unfolding route_packet
  route-data_seq timestamp now m n malloc = ground (
    arith,
    report-data_seq timestamp now m.ether_dhost
        (record n { rt = (getroute2dest n.rt m.ether_dhost timestamp now unused malloc).0 }),
  )

  module _ (rx : RxFlags) (m : DataMsg) (n : Node) (timestamp now : Timeval) (m_seq : Bool × Bool)
      (m_rt : Bool) where
    abbrev capture : DataSeq × Bool
    capture = capt_data_seq n.data_seq m.ether_shost m.seq timestamp now m_seq

    forward_known :
        capture.1 ≡ false → (forward timestamp now x ifaces rx m n (m_seq, m_rt)).outputs ≡ []
    unfolding forward
    forward_known k = ground arith

    forward_sent :
        ((forward timestamp now x ifaces rx m n (m_seq, m_rt)).outputs ≡ [])
        ⊎ ((capture.1 ≡ true)
            × ((forward timestamp now x ifaces rx m n (m_seq, m_rt)).node.data_seq ≡ capture.0))
    unfolding forward
    forward_sent =
        ground (arith, route-data_seq timestamp now m (record n { data_seq = capture.0 }) m_rt)

  module _ (rx rx' : RxFlags) (m m' : DataMsg) (n : Node) (timestamp now timestamp' now' : Timeval)
      (m_seq m_seq' : Bool × Bool) (m_rt m_rt' : Bool) where
    abbrev first_copy : Handled
    first_copy = forward timestamp now x ifaces rx m n (m_seq, m_rt)

    abbrev second_copy : Handled
    second_copy = forward timestamp' now' x ifaces rx' m' first_copy.node (m_seq', m_rt')

    -- Of two copies of a packet, with the number and the source of the first, that reach a node one
    -- after the other, over whatever ways, at most one is sent on or reported. The node's table of
    -- numbers is valid, has room for an element, and an entry does not expire at once.
    pub forward-forward :
        IsValid n.data_seq
        → Later timestamp now n.data_seq
        → m'.ether_shost ≡ m.ether_shost
        → m'.seq ≡ m.seq
        → (first_copy.outputs ≡ []) ⊎ (second_copy.outputs ≡ [])
    forward-forward v l same_source same_seq = elim (forward_sent rx m n timestamp now m_seq m_rt) [
      | inl none_sent ↦ inl none_sent
      | inr (ok, e) ↦ inr (
          forward_known rx' m' first_copy.node timestamp' now' m_seq' m_rt' (
            rw (e, same_source, same_seq)
              (ap (λ (r : DataSeq × Bool). r.1)
                (capt_data_seq-capt_data_seq n.data_seq m.ether_shost m.seq timestamp now v l m_seq
                  m_seq' timestamp' now' ok))))
    ]

  -- A packet that a node sends on has aged, and goes to the destination that it had.
  abbrev pub Aged : DataMsg → Output → Type 0
  Aged m (mesh m' _) =
      (m'.ttl + 1 ≡ m.ttl)
      × (m'.ether_dhost ≡ m.ether_dhost)
      × (m'.ether_shost ≡ m.ether_shost)
      × (m'.seq ≡ m.seq)
  Aged m (mesh_rerr r) = Unit
  Aged m (sys m') = Unit

  report-Aged :
      (timestamp now : Timeval) (m : DataMsg) (dhost : ℕ) (n : Node)
      → All (Aged m) (report_no_route timestamp now x ifaces dhost n).outputs
  unfolding report_no_route
  report-Aged timestamp now m dhost n = ground arith

  route-Aged :
      (timestamp now : Timeval) (m : DataMsg) (n : Node) (malloc : Bool)
      → 0 < m.ttl
      → All (Aged m) (route_packet timestamp now x ifaces m n malloc).outputs
  unfolding route_packet
  route-Aged timestamp now m n malloc h =
      elim (Option-cases (getroute2dest n.rt m.ether_dhost timestamp now unused malloc).1) [
        | inl e ↦
            rw (route_packet, e)
              (report-Aged timestamp now m m.ether_dhost (record n {
                rt = (getroute2dest n.rt m.ether_dhost timestamp now unused malloc).0;
              }))
        | inr (r, e) ↦ rw (route_packet, e) ((omega arith, refl, refl, refl), tt)
      ]

  pub forward-Aged :
      (timestamp now : Timeval) (rx : RxFlags) (m : DataMsg) (n : Node)
      (malloc : (Bool × Bool) × Bool)
      → All (Aged m) (forward timestamp now x ifaces rx m n malloc).outputs
  unfolding forward
  forward-Aged timestamp now rx m n (m_seq, m_rt) = ground (
    arith,
    route-Aged timestamp now m
        (record n {
          data_seq = (capt_data_seq n.data_seq m.ether_shost m.seq timestamp now m_seq).0;
        })
        m_rt,
  )
