-- ===== src/Aodv/Control/Tests.antt =====
-- A RREQ that reaches the node that it asks for.
use des_routing_algorithms.Common.{
  ◌≤◌, ◌≡◌, refl, true, false, not, ◌||◌, ◌==◌, none, some, List, [], All, length, pos,
  if◌then◌else◌,
}
use des_routing_algorithms.Aodv.Helper.{hop_count}
use des_routing_algorithms.Aodv.Timeval.Clock.{clock, seconds}
use des_routing_algorithms.Aodv.Timeslot.{Timeslot}
use des_routing_algorithms.Aodv.Metric.{Link}
use des_routing_algorithms.Aodv.RoutingTable.Capture.{capt_new}
use des_routing_algorithms.Aodv.SendLog.{one_second}
use des_routing_algorithms.Aodv.Series.Reach.{init}
use des_routing_algorithms.Aodv.Forward.{RxFlags}
use des_routing_algorithms.Aodv.Gossip.{gossip_none}
use des_routing_algorithms.Aodv.Control.{Rreq, ControlOutput, Router, Settings}
use des_routing_algorithms.Aodv.Control.Handle.{answer_rreq}
use des_routing_algorithms.Aodv.Control.Answer.{Answers, answer_rreq-Answers}

abbrev no_elements : Timeslot
no_elements = record { elements = []; size = 0; purge_timeout = one_second }

abbrev router : Router
router = record {
  node = record {
    data_seq = record { ids = record { entries = []; fault = false }; ts = no_elements; brk = 1 };
    rt = record {
      tables = record { entries = []; nht = []; fault = false };
      ts = no_elements;
      brk = 1;
    };
    rerr_log = record { ts = no_elements; count = 0; pseudo_pointer = 0 };
    buffer = record { pbt = record { entries = []; fault = false }; ts = no_elements; brk = 1 };
    series = init;
    data_seq_global = 0;
  };
  nt = record {
    neighbors = record { entries = []; schedules = []; fault = false };
    ts = no_elements;
    brk = 1;
  };
  hold = record { held = []; registered = 0 };
  seq_num_global = 4;
}

abbrev settings : Settings
settings = record {
  defsrc = 20;
  metric_type = hop_count;
  metric_startvalue = 0;
  signal_strength_threshold = pos 0;
  gossip_type = gossip_none;
}

-- It asks for the number 9 at least.
abbrev rreq : Rreq
rreq = record {
  ether_shost = 10;
  ether_dhost = 20;
  prev_hop = 30;
  ttl = 5;
  hops = 2;
  metric = 2;
  flag_u = false;
  flag_d = false;
  originator_sequence_number = 1;
  destination_sequence_number = 9;
}

abbrev for_me : RxFlags
for_me = record { l2_dst = false; l25_dst = true; l25_broadcast = false; l25_multicast = false }

abbrev link : Link
link = record { avg_rssi = pos 0; link_etx_add = none; link_etx_mul = none; link_pdr = none }

answer_rreq-Answers_example :
    (r' : Router) × (outputs : List ControlOutput) × (answer_rreq settings
        (seconds 5)
        (seconds 5)
        2
        link
        false
        for_me
        capt_new
        rreq
        router
      ≡ some (r', outputs))
    × All (Answers settings for_me rreq) outputs
    × (if true || not (rreq.ttl == 0) then length outputs ≡ 1 else length outputs ≤ 1)
answer_rreq-Answers_example =
    answer_rreq-Answers settings (seconds 5) (seconds 5) 2 link false for_me capt_new rreq router
      refl
