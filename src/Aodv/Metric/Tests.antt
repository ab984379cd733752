-- ===== src/Aodv/Metric/Tests.antt =====
-- Runs of the metric, and the theorems on it at these values.
use des_routing_algorithms.Common.{arith, none, some, negsuc}
use des_routing_algorithms.Aodv.Metric.{Link}
use des_routing_algorithms.Aodv.Metric.Hop.{InRange}

-- A good link, of -39 dBm.
abbrev near : Link
near = record {
  avg_rssi = negsuc 38;
  link_etx_add = some 1200;
  link_etx_mul = some 1800;
  link_pdr = none;
}

near-InRange : InRange near
near-InRange = record { etx_add = omega arith; etx_mul = omega arith; pdr = omega arith }

abbrev perfect : Link
perfect = record near { link_etx_mul = some 65535 }
