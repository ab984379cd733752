-- ===== src/Aodv/Control.antt =====
-- des-aodv/trunk/src/pipeline/aodv_pipeline.c: what a node does with a RREQ or a RREP that a
-- neighbor sent. Memory is given. A result `none` is the end of the program, or that the fuel for the
-- packets that wait for a route was too little.
pub mod Handle
pub mod Answer
pub mod Hello
mod Tests
use des_routing_algorithms.Common.{
  ℕ, ◌+◌, ◌-◌, ◌%◌, ◌^◌, ℤ, Bool, true, false, not, ◌&&◌, ◌||◌, Option, none, some, List, [], ◌∷◌,
  ◌++◌, map, ◌==◌, if◌then◌else◌, is_pos,
}
use des_routing_algorithms.Aodv.Helper.{MetricType, comp_u32}
use des_routing_algorithms.Aodv.Timeval.{Timeval, Dessert}
use des_routing_algorithms.Aodv.Metric.{Link, metric_do}
use des_routing_algorithms.Aodv.PacketBuffer.{Sent}
use des_routing_algorithms.Aodv.RoutingTable.Defs.{Rt, unused}
use des_routing_algorithms.Aodv.RoutingTable.Capture.{
  CaptResult, capt_old, capt_new, capt_metric_hit, capt_rreq, capt_rrep, getroute2dest,
}
use des_routing_algorithms.Aodv.RoutingTable.Query.{
  get_destination_sequence_number, get_hopcount, get_metric, add_precursor, get_warn_status,
}
use des_routing_algorithms.Aodv.Neighbor.{Nt, reset_rssi, check2_dneigh}
use des_routing_algorithms.Aodv.Forward.{
  DataMsg, RxFlags, Node, Verdict, msg_keep, msg_drop, send_from_buffer,
}
use des_routing_algorithms.Aodv.Gossip as Gossip
use des_routing_algorithms.Aodv.Gossip.{
  GossipType, gossip_none, HoldQueue, gossip_capt_rreq, gossip,
}

-- A RREQ with the fields of its message; `prev_hop` is the neighbor that sent it.
pub record Rreq : Type 0 where
  pub ether_shost : ℕ
  pub ether_dhost : ℕ
  pub prev_hop : ℕ
  pub ttl : ℕ
  pub hops : ℕ
  pub metric : ℕ
  pub flag_u : Bool
  pub flag_d : Bool
  pub originator_sequence_number : ℕ
  pub destination_sequence_number : ℕ

-- A RREP likewise, with the neighbor that it is sent to.
pub record Rrep : Type 0 where
  pub ether_shost : ℕ
  pub ether_dhost : ℕ
  pub prev_hop : ℕ
  pub next_hop : ℕ
  pub ttl : ℕ
  pub hops : ℕ
  pub metric : ℕ
  pub destination_sequence_number : ℕ

pub data ControlOutput : Type 0 where
  rrep_out : Rrep → (iface : ℕ) → ControlOutput
  rreq_out : Rreq → ControlOutput
  data_out : Sent DataMsg → ControlOutput

-- `seq_num_global`, and the tables that the handlers reach.
pub record Router : Type 0 where
  pub node : Node
  pub nt : Nt
  pub hold : HoldQueue
  pub seq_num_global : ℕ

-- The settings of the daemon, and the address of the node.
pub record Settings : Type 0 where
  pub defsrc : ℕ
  pub metric_type : MetricType
  pub metric_startvalue : ℕ
  pub signal_strength_threshold : ℤ
  pub gossip_type : GossipType

unfoldable pub create_rrep :
    (self route_dest route_source rrep_next_hop destination_sequence_number hop_count
      initial_metric : ℕ)
    → Rrep
create_rrep self route_dest route_source rrep_next_hop destination_sequence_number hop_count
      initial_metric =
    record {
      ether_shost = route_dest;
      ether_dhost = route_source;
      prev_hop = self;
      next_hop = rrep_next_hop;
      ttl = 2 ^ 8 - 1;
      hops = hop_count;
      metric = initial_metric;
      destination_sequence_number = destination_sequence_number;
    }

-- What aodv_gossip.c reads of a RREQ.
abbrev pub gossip_msg : Rreq → Gossip.RreqMsg
gossip_msg m = record {
  ether_shost = m.ether_shost;
  ether_dhost = m.ether_dhost;
  hops = m.hops;
  originator_sequence_number = m.originator_sequence_number;
}

-- The number of the node after a RREQ for it.
unfoldable pub own_number : CaptResult → Rreq → ℕ → ℕ
own_number result m seq_num_global =
    let seq : ℕ = elim result [
      | capt_metric_hit ↦ (seq_num_global + 1) % 2 ^ 32
      | capt_old ↦ seq_num_global
      | capt_new ↦ seq_num_global
    ] in
    if not m.flag_u && is_pos (comp_u32 m.destination_sequence_number seq)
    then m.destination_sequence_number
    else seq

-- Whether a node on the way answers, with its number for the destination if it has one.
unfoldable pub local_repair : Rreq → ℕ × Bool → Bool
local_repair m (our_dest_seq_num, we_have_seq_num) =
    not m.flag_d
    && we_have_seq_num
    && not (not m.flag_u && is_pos (comp_u32 m.destination_sequence_number our_dest_seq_num))

-- `_create_rreq`: the number of the destination is 0 where none is known.
unfoldable pub create_rreq :
    (settings : Settings) (dest_only : Bool) → Rt → (dhost_ether ttl initial_metric : ℕ) → Rreq
create_rreq settings dest_only rt dhost_ether ttl initial_metric =
    let (last_destination_sequence_number, known) =
      get_destination_sequence_number rt dhost_ether in
    record {
      ether_shost = settings.defsrc;
      ether_dhost = dhost_ether;
      prev_hop = settings.defsrc;
      ttl = ttl;
      hops = 0;
      metric = initial_metric;
      flag_u = not known;
      flag_d = dest_only || get_warn_status rt dhost_ether;
      originator_sequence_number = 0;
      destination_sequence_number = last_destination_sequence_number;
    }
