-- ===== src/Aodv/Helper/Tests.antt =====
-- Runs of the comparisons, and the theorems on them at these values.
use des_routing_algorithms.Common.{arith}
use des_routing_algorithms.Aodv.Helper.{MacAddr}
use des_routing_algorithms.Aodv.Helper.Compare.{IsMac}

abbrev station : MacAddr
station = record { b0 = 2; b1 = 0; b2 = 94; b3 = 16; b4 = 0; b5 = 255 }

station-IsMac : IsMac station
station-IsMac = record {
  b0 = omega arith;
  b1 = omega arith;
  b2 = omega arith;
  b3 = omega arith;
  b4 = omega arith;
  b5 = omega arith;
}
