-- ===== src/Aodv/PacketBuffer/Tests.antt =====
-- Runs of the packet buffer, and the theorems on it at these values.
use des_routing_algorithms.Common.{ℕ, ◌≡◌, refl, arith, false, some, [], ◌∷◌}
use des_routing_algorithms.Aodv.Timeval.Clock.{seconds}
use des_routing_algorithms.Aodv.PacketBuffer.{FifoList, PbEl, Pb, send_packets_from_buffer}
use des_routing_algorithms.Aodv.PacketBuffer.Drain.{Drained, stamped, send_packets_from_buffer_lem}

abbrev queue : FifoList ℕ
queue = record { packets = 101 ∷ 102 ∷ []; size = 2 }

abbrev waiting_el : PbEl ℕ
waiting_el = record { self = 1; dhost_ether = 20; fl = queue }

abbrev pb : Pb ℕ
pb = record {
  pbt = record { entries = waiting_el ∷ []; fault = false };
  ts = record {
    elements = record { purge_time = seconds 9; object = 1 } ∷ [];
    size = 1;
    purge_timeout = seconds 2;
  };
  brk = 2;
}

send_packets_from_buffer_example :
    (pb' : Pb ℕ) × (last : ℕ) × (send_packets_from_buffer 3 pb 20 30 2 65535
      ≡ some (pb', last, stamped 30 2 65535 (101 ∷ 102 ∷ [])))
    × Drained pb 20 pb'
send_packets_from_buffer_example =
    send_packets_from_buffer_lem (102 ∷ []) 101 3 pb 20 30 2 65535 waiting_el
      (record { selves = (refl, tt); dhosts = (refl, tt) }) refl refl (omega arith)
