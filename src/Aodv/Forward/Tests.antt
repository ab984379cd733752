-- ===== src/Aodv/Forward/Tests.antt =====
-- Packets at a node with a route to host 20, and the theorems on them at these values.
use des_routing_algorithms.Common.{
  ℕ, ◌+◌, ◌<◌, ◌≡◌, ◌⊎◌, refl, arith, Bool, true, false, some, List, [], ◌∷◌, leb, if◌then◌else◌,
}
use des_routing_algorithms.Aodv.Timeval.Clock.{clock, seconds}
use des_routing_algorithms.Aodv.Timeslot.{Timeslot}
use des_routing_algorithms.Aodv.SendLog.{SendLog, one_second}
use des_routing_algorithms.Aodv.SendLog.Count as Log
use des_routing_algorithms.Aodv.DataSeq.{DataSeq, capt_data_seq}
use des_routing_algorithms.Aodv.DataSeq.Once.{IsValid}
use des_routing_algorithms.Aodv.RoutingTable.Defs.{RtEntry, unused}
use des_routing_algorithms.Aodv.RoutingTable.Capture.{getroute2dest}
use des_routing_algorithms.Aodv.RoutingTable.Purge.{entry_for}
use des_routing_algorithms.Aodv.RoutingTable.Forwarding.{route_of}
use des_routing_algorithms.Aodv.Rerr.{Exts}
use des_routing_algorithms.Aodv.Series.{State, take_task, delete_series_ether}
use des_routing_algorithms.Aodv.Series.Reach.{init, initial, take, reply}
use des_routing_algorithms.Aodv.Series.Searched.{searched}
use des_routing_algorithms.Aodv.Series.Calls.{Calls, other, returned, Removed}
use des_routing_algorithms.Aodv.Forward.{
  DataMsg, RxFlags, Node, Handled, msg_drop, mesh, forward, route_packet, sys2rp,
}
use des_routing_algorithms.Aodv.Forward.Once.{forward-forward}
use des_routing_algorithms.Aodv.Forward.Travel.{here, hop, Travels-ttl}
use des_routing_algorithms.Aodv.Forward.Route.{sent_for, forward_lem}
use des_routing_algorithms.Aodv.Forward.Search.{sys2rp-search}

abbrev small : List ℕ → ℕ → Bool
small before len = leb len 25

small_too_long : (before : List ℕ) (len : ℕ) → 25 < len → small before len ≡ false
small_too_long before len h = ground arith

abbrev exts : Exts
exts = record { max_data = 25; addext = small; too_long = small_too_long }

abbrev no_elements : Timeslot
no_elements = record { elements = []; size = 0; purge_timeout = seconds 6 }

abbrev ids : DataSeq
ids = record { ids = record { entries = []; fault = false }; ts = no_elements; brk = 1 }

ids-IsValid : IsValid ids
ids-IsValid = record {
  slot = record { desc = tt; unique = tt; counted = refl; fits = omega arith };
  selves = tt;
  srcs = tt;
  fresh = refl;
}

abbrev route : RtEntry
route = record {
  self = 1;
  addr = 20;
  next_hop = 30;
  output_iface = 2;
  sequence_number = 5;
  metric = 3;
  hop_count = 3;
  flags = unused;
  precursor_list = [];
}

abbrev log : SendLog
log = record {
  ts = record { elements = []; size = 0; purge_timeout = one_second };
  count = 0;
  pseudo_pointer = 0;
}

abbrev node : Node
node = record {
  data_seq = ids;
  rt = record {
    tables = record { entries = route ∷ []; nht = []; fault = false };
    ts = record {
      elements = record { purge_time = seconds 9; object = 1 } ∷ [];
      size = 1;
      purge_timeout = seconds 12;
    };
    brk = 2;
  };
  rerr_log = log;
  buffer = record { pbt = record { entries = []; fault = false }; ts = no_elements; brk = 1 };
  series = init;
  data_seq_global = 0;
}

abbrev packet : DataMsg
packet = record { ether_shost = 10; ether_dhost = 20; next_hop = 0; ttl = 64; hops = 2; seq = 7 }

abbrev passing : RxFlags
passing = record { l2_dst = true; l25_dst = false; l25_broadcast = false; l25_multicast = false }

abbrev passed : Handled
passed = forward (seconds 5) (seconds 5) exts (9 ∷ []) passing packet node ((true, true), true)

abbrev sent_on : DataMsg
sent_on = record packet { next_hop = 30; ttl = 63; hops = 3 }

goes_on : passed.outputs ≡ mesh sent_on (some 2) ∷ []
unfolding forward capt_data_seq route_packet getroute2dest
goes_on = refl

forward-forward_example :
    (passed.outputs ≡ [])
    ⊎ ((forward
          (seconds 6)
          (seconds 6)
          exts
          (9 ∷ [])
          passing
          packet
          passed.node
          ((true, true), true)).outputs
        ≡ [])
forward-forward_example =
    forward-forward exts (9 ∷ []) passing passing packet packet node (seconds 5) (seconds 5)
      (seconds 6) (seconds 6) (true, true) (true, true) true true ids-IsValid
      (omega arith, omega arith) refl refl

Travels-ttl_example :
    (1 + sent_on.ttl ≡ packet.ttl)
    × (sent_on.ether_dhost ≡ packet.ether_dhost)
    × (sent_on.ether_shost ≡ packet.ether_shost)
    × (sent_on.seq ≡ packet.seq)
Travels-ttl_example = Travels-ttl exts packet sent_on 1 (
    hop here (9 ∷ []) (seconds 5) (seconds 5) passing node ((true, true), true) (some 2) [] goes_on)

log-IsValid : Log.IsValid log
log-IsValid = record {
  slot = record { desc = tt; unique = tt; counted = refl; fits = omega arith };
  counted = refl;
  fresh = λ p h. refl;
}

forward_example :
    (passed.verdict ≡ msg_drop)
    × (passed.outputs ≡ (
        if (capt_data_seq ids 10 7 (seconds 5) (seconds 5) (true, true)).1
        then sent_for packet (9 ∷ []) (route_of (entry_for 20 node.rt.tables)) 0
        else []))
forward_example =
    forward_lem exts (9 ∷ []) refl (seconds 5) (seconds 5) packet passing node (true, true) true
      log-IsValid

-- There is no route to host 21.
abbrev elsewhere : DataMsg
elsewhere = record packet { ether_dhost = 21 }

abbrev searching : State
searching =
    (sys2rp (seconds 5) (seconds 5) false elsewhere node (true, true, true, true)).node.series

-- A RREP of another host comes, and the thread for the tasks looks for one.
abbrev later_on : State
later_on = take_task (seconds 6) (delete_series_ether 22 searching)

abbrev meanwhile : Calls [] searching later_on
meanwhile = other (reply 22) (other (take (seconds 6)) returned)

sys2rp-search_example :
    let result = sys2rp (seconds 5) (seconds 5) false elsewhere node (true, true, true, true) in
    (result.outputs ≡ [])
    × (searched searching 21 ≡ true)
    × ((searched later_on 21 ≡ true) ⊎ Removed 21 [] searching later_on meanwhile)
sys2rp-search_example =
    sys2rp-search (seconds 5) (seconds 5) false elsewhere node (true, true, true, true) later_on
      meanwhile initial (λ e. ground arith) refl
