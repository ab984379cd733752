-- ===== src/Aodv/Metric.antt =====
-- des-aodv/trunk/src/pipeline/aodv_metric.c: the metric of a route after one more hop.
pub mod Hop
mod Tests
use des_routing_algorithms.Common.{
  ℕ, ◌+◌, ◌*◌, ◌-◌, ◌/◌, ◌%◌, ◌^◌, Bool, true, false, Option, none, some, ℤ, ltb, if◌then◌else◌,
}
use des_routing_algorithms.Aodv.Helper.{
  MetricType, rfc, hop_count, rssi, etx_add, etx_mul, pdr, other, rssi2interval,
}

-- AODV_MAX_METRIC
abbrev pub max_metric : ℕ
max_metric = 2 ^ 16 - 1

-- What the last hop's link is like: the average of `dessert_rssi_avg`, and the answers of the PDR
-- tracker, which knows no value for an unknown neighbor.
pub record Link : Type 0 where
  pub avg_rssi : ℤ
  pub link_etx_add : Option ℕ
  pub link_etx_mul : Option ℕ
  pub link_pdr : Option ℕ

abbrev pub or_else : Option ℕ → ℕ → ℕ
or_else none n = n
or_else (some m) n = m

-- The new value of `*metric`, and the result.
unfoldable pub metric_do : MetricType → ℕ → Link → ℕ × Bool
metric_do hop_count metric l = ((metric + 1) % 2 ^ 16, true)
metric_do rssi metric l = ((metric + rssi2interval l.avg_rssi) % 2 ^ 16, true)
metric_do etx_add metric l =
    let link = or_else l.link_etx_add max_metric in
    ((if ltb metric (max_metric - link) then metric + link else max_metric), true)
metric_do etx_mul metric l = elim l.link_etx_mul [
  | some link ↦ (metric * link / (max_metric / 32) % 2 ^ 16, true)
  | none ↦ (0, true)
]
metric_do pdr metric l = elim l.link_pdr [
  | some link ↦ (metric * link % 2 ^ 32 / max_metric % 2 ^ 16, true)
  | none ↦ (0, true)
]
metric_do rfc metric l = (metric, true)
metric_do other metric l = (metric, false)
