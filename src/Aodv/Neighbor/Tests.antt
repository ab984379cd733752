-- ===== src/Aodv/Neighbor/Tests.antt =====
-- Runs of the neighbor table, and the theorems on it at these values.
use des_routing_algorithms.Common.{false, [], ◌∷◌, negsuc}
use des_routing_algorithms.Aodv.Timeval.Clock.{clock, seconds}
use des_routing_algorithms.Aodv.Neighbor.{NeighborEntry, Nt, sc_update_rssi}

-- Neighbor 7 at interface 2, at -60 dBm at best.
abbrev near : NeighborEntry
near = record { self = 1; ether_neighbor = 7; iface = 2; last_hello_seq = 4; max_rssi = negsuc 59 }

abbrev nt : Nt
nt = record {
  neighbors = record {
    entries = near ∷ [];
    schedules =
        record {
          execute_ts = seconds 4;
          ether_addr = 7;
          schedule_id = sc_update_rssi;
          schedule_param = 2;
        }
        ∷ [];
    fault = false;
  };
  ts = record {
    elements = record { purge_time = seconds 9; object = 1 } ∷ [];
    size = 1;
    purge_timeout = seconds 6;
  };
  brk = 2;
}
