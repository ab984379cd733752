-- ===== src/Aodv/Control/Handle.antt =====
-- The handlers of RREQs and RREPs.
use des_routing_algorithms.Common.{
  ℕ, ◌+◌, ◌-◌, ◌%◌, ◌^◌, Bool, true, not, Option, none, some, List, [], ◌∷◌, ◌++◌, map, ◌==◌,
  if◌then◌else◌,
}
use des_routing_algorithms.Aodv.Timeval.{Timeval, Dessert}
use des_routing_algorithms.Aodv.Metric.{Link, metric_do}
use des_routing_algorithms.Aodv.RoutingTable.Defs.{unused}
use des_routing_algorithms.Aodv.RoutingTable.Capture.{
  CaptResult, capt_old, capt_new, capt_metric_hit, capt_rreq, capt_rrep, getroute2dest,
}
use des_routing_algorithms.Aodv.RoutingTable.Query.{
  get_destination_sequence_number, get_hopcount, get_metric, add_precursor,
}
use des_routing_algorithms.Aodv.Neighbor.{reset_rssi}
use des_routing_algorithms.Aodv.Forward.{RxFlags, send_from_buffer}
use des_routing_algorithms.Aodv.Gossip.{gossip_none, gossip_capt_rreq, gossip}
use des_routing_algorithms.Aodv.Control.{
  Rreq, Rrep, ControlOutput, rrep_out, rreq_out, data_out, Router, Settings, create_rrep,
  gossip_msg, own_number, local_repair,
}

module _ ⦃d : Dessert⦄ (settings : Settings) (timestamp now : Timeval) (iface : ℕ)
    (link : Link) where
  abbrev pub capture_route : Router → (dest prev_hop seq metric hops : ℕ) → Router × Bool
  capture_route r dest prev_hop seq metric hops =
      let (rt', nt', used) =
        capt_rrep (λ p i nt. (reset_rssi nt p i).0) settings.signal_strength_threshold r.node.rt
          r.nt dest prev_hop iface seq metric hops timestamp now (true, true) in
      (record r { node = record (r.node) { rt = rt' }; nt = nt' }, used)

  -- The packets that wait for the host go to the neighbor.
  abbrev pub empty_buffer : ℕ → Router → (dest prev_hop : ℕ) → Option (Router × List ControlOutput)
  empty_buffer fuel r dest prev_hop = elim (send_from_buffer fuel dest prev_hop iface r.node) [
    | none ↦ none
    | some (node', sent) ↦ some (record r { node = node' }, map data_out sent)
  ]

  -- A RREQ that is new, after it was captured: the answer, or the RREQ itself.
  unfoldable pub answer_rreq :
      (lucky : Bool) → RxFlags → CaptResult → Rreq → Router → Option (Router × List ControlOutput)
  answer_rreq lucky rx result m r =
      let n = own_number result m r.seq_num_global in
      let (our_dest_seq_num, we_have_seq_num) =
        get_destination_sequence_number r.node.rt m.ether_dhost in
      let sent_on = gossip settings.gossip_type lucky r.hold (gossip_msg m) in
      if rx.l25_dst
      then some (
        record r { seq_num_global = n },
        rrep_out
              (create_rrep settings.defsrc settings.defsrc m.ether_shost m.prev_hop n 0
                settings.metric_startvalue)
              iface
            ∷ [],
      )
      else if local_repair m (our_dest_seq_num, we_have_seq_num)
      then some (
        r,
        rrep_out
              (create_rrep settings.defsrc m.ether_dhost m.ether_shost m.prev_hop our_dest_seq_num
                (get_hopcount r.node.rt m.ether_dhost).0 (get_metric r.node.rt m.ether_dhost).0)
              iface
            ∷ [],
      )
      else elim settings.gossip_type [
        | gossip_none ↦ some (r, if m.ttl == 0 then [] else rreq_out m ∷ [])
        | _ ↦ elim sent_on [
          | none ↦ none
          | some (hold', yes_send) ↦
              some (record r { hold = hold' }, if yes_send then rreq_out m ∷ [] else [])
        ]
      ]

  -- `msg->ttl`, `msg->u8` and `msg->u16` after a hop.
  abbrev pub aged_rreq : Rreq → Rreq
  aged_rreq m = record m {
    ttl = m.ttl - 1;
    hops = (m.hops + 1) % 2 ^ 8;
    metric = (metric_do settings.metric_type m.metric link).0;
  }

  unfoldable pub handle_rreq :
      ℕ → (lucky : Bool) → RxFlags → Rreq → Router → Option (Router × List ControlOutput)
  handle_rreq fuel lucky rx msg r =
      let m = aged_rreq msg in
      let (rt1, result) =
        capt_rreq settings.metric_type r.node.rt m.ether_dhost m.ether_shost m.prev_hop iface
          m.originator_sequence_number m.metric m.hops timestamp now (true, true) (true, true) in
      let r1 : Router = record r {
        node = record (r.node) { rt = rt1 };
        hold = gossip_capt_rreq r.hold (gossip_msg m);
      } in
      let (r2, updated_route) = capture_route r1 m.ether_shost m.prev_hop 0 m.metric m.hops in
      let buffered =
        if updated_route then empty_buffer fuel r2 m.ether_shost m.prev_hop else some (r2, []) in
      let go : CaptResult → Option (Router × List ControlOutput) = λ result. elim buffered [
        | none ↦ none
        | some (r3, packets) ↦ elim (answer_rreq lucky rx result m r3) [
          | none ↦ none
          | some (r4, answer) ↦ some (r4, packets ++ answer)
        ]
      ] in
      elim result [
        | none ↦ some (r1, [])
        | some capt_old ↦ some (r1, [])
        | some capt_new ↦ go capt_new
        | some capt_metric_hit ↦ go capt_metric_hit
      ]

  -- A RREP that was used and is for another node goes to that node.
  unfoldable pub pass_rrep : Rrep → Router → Router × List ControlOutput
  pass_rrep m r =
      let (rt1, route) = getroute2dest r.node.rt m.ether_dhost timestamp now unused true in
      elim route [
        | none ↦ (record r { node = record (r.node) { rt = rt1 } }, [])
        | some (next_hop, output_iface) ↦ (
          record r {
            node = record (r.node) {
              rt = (add_precursor rt1 m.ether_shost next_hop output_iface).0;
            };
          },
          rrep_out (record m { next_hop = next_hop; prev_hop = settings.defsrc }) output_iface ∷ [],
        )
      ]

  unfoldable pub handle_rrep : ℕ → RxFlags → Rrep → Router → Option (Router × List ControlOutput)
  handle_rrep fuel rx msg r =
      let m : Rrep = record msg {
        ttl = msg.ttl - 1;
        hops = (msg.hops + 1) % 2 ^ 8;
        metric = (metric_do settings.metric_type msg.metric link).0;
      } in
      let (r1, rrep_used) =
        capture_route r m.ether_shost m.prev_hop m.destination_sequence_number m.metric m.hops in
      if not rx.l2_dst
      then some (r, [])
      else if not rrep_used
      then some (r1, [])
      else if not rx.l25_dst
      then some (pass_rrep m r1)
      else empty_buffer fuel r1 m.ether_shost m.prev_hop
