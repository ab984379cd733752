-- ===== src/Aodv/Gossip/Tests.antt =====
-- A RREQ at a node that gossips.
use des_routing_algorithms.Common.{◌≡◌, refl, true, false, none, some, []}
use des_routing_algorithms.Aodv.Timeval.Clock.{clock}
use des_routing_algorithms.Aodv.Gossip.{RreqMsg, HoldQueue, gossip_type3, gossip, hold_queue_drop}
use des_routing_algorithms.Aodv.Gossip.Unlucky.{start, decide, Reach-gossip}

abbrev rreq : RreqMsg
rreq = record { ether_shost = 10; ether_dhost = 20; hops = 3; originator_sequence_number = 7 }

abbrev empty : HoldQueue
empty = record { held = []; registered = 0 }

lucky : gossip gossip_type3 true empty rreq ≡ some (empty, true)
unfolding gossip hold_queue_drop
lucky = refl

Reach-gossip_example : (gossip gossip_type3 false empty rreq ≡ none) × (empty.held ≡ [])
Reach-gossip_example = Reach-gossip empty rreq (decide gossip_type3 true true rreq start lucky)
