-- ===== src/Aodv/Periodic/Tests.antt =====
-- A node with an active route to host 20.
use mathlib.Core.Path.{subst, sym}
use des_routing_algorithms.Common.{◌≡◌, refl, false, some, [], ◌∷◌, find}
use des_routing_algorithms.Aodv.Timeval.Clock.{clock}
use des_routing_algorithms.Aodv.Timeslot.{Timeslot}
use des_routing_algorithms.Aodv.SendLog.{one_second}
use des_routing_algorithms.Aodv.RoutingTable.Defs.{RtEntry, local_used}
use des_routing_algorithms.Aodv.RoutingTable.Breaks.{get_active_routes, active_routes}
use des_routing_algorithms.Aodv.Series.{
  State, sending, series_of, ttl_max, search, new_series, start_series, delete_series_ether, sent,
}
use des_routing_algorithms.Aodv.Series.Reach.{init, initial, send, reply}
use des_routing_algorithms.Aodv.Series.Calls.{Calls, call, other, returned, Served}
use des_routing_algorithms.Aodv.Control.{Router}
use des_routing_algorithms.Aodv.Periodic.{periodic_send_rreq, send_rreqs}
use des_routing_algorithms.Aodv.Periodic.Active.{periodic_send_rreq-Served}

abbrev no_elements : Timeslot
no_elements = record { elements = []; size = 0; purge_timeout = one_second }

abbrev route : RtEntry
route = record {
  self = 1;
  addr = 20;
  next_hop = 30;
  output_iface = 2;
  sequence_number = 5;
  metric = 3;
  hop_count = 3;
  flags = local_used;
  precursor_list = [];
}

abbrev router : Router
router = record {
  node = record {
    data_seq = record { ids = record { entries = []; fault = false }; ts = no_elements; brk = 1 };
    rt = record {
      tables = record { entries = route ∷ []; nht = []; fault = false };
      ts = no_elements;
      brk = 2;
    };
    rerr_log = record { ts = no_elements; count = 0; pseudo_pointer = 0 };
    buffer = record { pbt = record { entries = []; fault = false }; ts = no_elements; brk = 1 };
    series = init;
    data_seq_global = 0;
  };
  nt = record {
    neighbors = record { entries = []; schedules = []; fault = false };
    ts = no_elements;
    brk = 1;
  };
  hold = record { held = []; registered = 0 };
  seq_num_global = 4;
}

active : get_active_routes router.node.rt ≡ record { host = 20; sequence_number = 0 } ∷ []
unfolding get_active_routes active_routes
active = refl

calls : periodic_send_rreq false router ≡ (20, ttl_max) ∷ []
unfolding periodic_send_rreq send_rreqs get_active_routes active_routes
calls = refl

-- A RREP of another host comes before the call, and the RREQ is sent after it.
abbrev asked : State
asked = start_series 20 ttl_max (delete_series_ether 21 init)

abbrev later_on : State
later_on = sent false 1 asked

owned : find series_of 1 asked.owners ≡ some (record { series = 1; phase = sending })
unfolding start_series new_series delete_series_ether search
owned = refl

abbrev run : Calls ((20, ttl_max) ∷ []) init later_on
run = other (reply 21) (
    call 20 ttl_max
      (other (send 1 (record { series = 1; phase = sending }) false owned refl) returned))

abbrev run_of_task : Calls (periodic_send_rreq false router) init later_on
run_of_task = subst (λ cs. Calls cs init later_on) (sym calls) run

periodic_send_rreq-Served_example :
    Served 20 (periodic_send_rreq false router) init later_on run_of_task
periodic_send_rreq-Served_example =
    periodic_send_rreq-Served false router later_on run_of_task initial 20 route refl refl
