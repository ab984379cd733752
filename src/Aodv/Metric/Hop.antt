-- ===== src/Aodv/Metric/Hop.antt =====
-- How a hop changes the metric.
use des_routing_algorithms.Common.{
  ℕ, ◌+◌, ◌*◌, ◌/◌, ◌%◌, ◌^◌, ◌≤◌, ◌<◌, ◌≡◌, true, false, some, min, arith, is_pos,
}
use des_routing_algorithms.Aodv.Helper.{
  MetricType, rfc, hop_count, rssi, etx_add, etx_mul, pdr, other, rssi2interval, comp_metric,
}
use des_routing_algorithms.Aodv.Metric.{max_metric, Link, or_else, metric_do}

-- The weights are 1, 2, 4 or 8.
rssi2interval_bounds : (l : Link) → (1 ≤ rssi2interval l.avg_rssi) × (rssi2interval l.avg_rssi ≤ 8)
unfolding rssi2interval
rssi2interval_bounds l = ground arith

-- What the PDR tracker answers fits in 16 bits.
pub record InRange (l : Link) : Type 0 where
  pub etx_add : or_else l.link_etx_add 0 < 2 ^ 16
  pub etx_mul : or_else l.link_etx_mul 0 < 2 ^ 16
  pub pdr : or_else l.link_pdr 0 < 2 ^ 16

-- The products of 16-bit values fit in the 32 bits of `result`.
product_fits : (m l : ℕ) → m < 2 ^ 16 → l < 2 ^ 16 → m * l ≤ m * max_metric
product_fits m l h k = grind arith

pdr-le : (m l : ℕ) → m < 2 ^ 16 → l < 2 ^ 16 → m * l % 2 ^ 32 / max_metric % 2 ^ 16 ≤ m
pdr-le m l h k = omega (arith, product_fits m l h k)

-- Where the values of the link and the metric fit in 16 bits, ETX_ADD adds the value of the
-- link and stays at the maximum on an overflow.
pub metric_do-etx_add :
    (m : ℕ) (l : Link)
    → m < 2 ^ 16
    → InRange l
    → (metric_do etx_add m l).0 ≡ min max_metric (m + or_else l.link_etx_add max_metric)
unfolding metric_do
metric_do-etx_add m l h v = ground arith

-- The metrics for which a hop is a step to the worse: a counter must not be about to wrap, and
-- a factor of ETX_MUL not be above the divisor.
abbrev pub Steady : MetricType → ℕ → Link → Type 0
Steady hop_count m l = m + 1 < 2 ^ 16
Steady rssi m l = m + 8 < 2 ^ 16
Steady etx_mul m l = or_else l.link_etx_mul 0 ≤ max_metric / 32
Steady _ m l = Unit {0}

mul-le : (m l : ℕ) → l ≤ max_metric / 32 → m * l / (max_metric / 32) ≤ m
mul-le m l h = let p : m * l ≤ m * (max_metric / 32) = grind arith in omega (arith, p)

-- Where the values of the link and the metric fit in 16 bits, no counter is about to wrap and a
-- factor of ETX_MUL is not above its divisor, one more hop leaves the metric within 16 bits and
-- never makes it better.
pub hop_not_better :
    (t : MetricType) (m : ℕ) (l : Link)
    → m < 2 ^ 16
    → InRange l
    → Steady t m l
    → ((metric_do t m l).0 < 2 ^ 16) × (is_pos (comp_metric t (metric_do t m l).0 m) ≡ false)
unfolding metric_do comp_metric
hop_not_better hop_count m l h v s = ground arith
hop_not_better rssi m l h v s = ground (arith, rssi2interval_bounds l)
hop_not_better etx_add m l h v s = ground arith
hop_not_better etx_mul m l h v s = ground (arith, mul-le m (or_else l.link_etx_mul 0) s)
hop_not_better pdr m l h v s = ground (arith, pdr-le m (or_else l.link_pdr 0) h v.pdr)
hop_not_better rfc m l h v s = ground arith
hop_not_better other m l h v s = ground arith

-- A hop count of 2 ^ 16 - 1 wraps around, and is better than the one before it.
pub hop_count_wraps :
    (m : ℕ) (l : Link)
    → m + 1 ≡ 2 ^ 16
    → is_pos (comp_metric hop_count (metric_do hop_count m l).0 m) ≡ true
unfolding metric_do comp_metric
hop_count_wraps m l h = ground arith

-- A 16-bit sum of weights of signal strengths that wraps around is better than the one before
-- it.
pub rssi_wraps :
    (m : ℕ) (l : Link)
    → m < 2 ^ 16
    → 2 ^ 16 ≤ m + rssi2interval l.avg_rssi
    → is_pos (comp_metric rssi (metric_do rssi m l).0 m) ≡ true
unfolding metric_do comp_metric
rssi_wraps m l h k = ground (arith, rssi2interval_bounds l)

twice-le : (m l : ℕ) → 2 * (max_metric / 32) ≤ l → m * (2 * (max_metric / 32)) ≤ m * l
twice-le m l h = grind arith

-- For a link whose ETX_MUL is at least twice the divisor, which is a thirty-second of the
-- maximum, and a positive metric whose result fits in 16 bits, one more hop makes the metric
-- better.
pub etx_mul_improves :
    (m link : ℕ) (l : Link)
    → l.link_etx_mul ≡ some link
    → 0 < m
    → m * link < max_metric / 32 * 2 ^ 16
    → 2 * (max_metric / 32) ≤ link
    → is_pos (comp_metric etx_mul (metric_do etx_mul m l).0 m) ≡ true
unfolding metric_do comp_metric
etx_mul_improves m link l e h fits k = rw (e, metric_do) (ground (arith, twice-le m link k))
