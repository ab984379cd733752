-- ===== src/Aodv/PdrTracker/Metrics/Bounds.antt =====
-- The values of the metrics.
use native.Mathlib.Nat.{
  mul-div-mul_right, mul-div_left, div-le_of_le-mul, le-div_iff_mul-le, mul-le-mul, mul-le-mul_left,
  mul_comm, mul_assoc, div-mul-le_self,
}
use des_routing_algorithms.Common.{
  ℕ, zero, suc, ◌*◌, ◌/◌, ◌^◌, ◌≤◌, ◌<◌, ◌≡◌, inl, inr, refl, sym, ap, none, some, min, arith,
  if◌then◌else◌, leb, ◌==◌, ◌||◌, Bool-cases, false,
}
use des_routing_algorithms.Aodv.PdrTracker.{
  PdrEntry, max_metric, metric_of, quot, expected, min_tracking_interval,
}
use des_routing_algorithms.Aodv.PdrTracker.Metrics.{pdr_of, etx_mul_of, etx_add_of}

quot_pos : (a b : ℕ) → 0 < b → quot a b ≡ some (a / b)
quot_pos a zero h = absurd (omega arith)
quot_pos a (suc b) h = refl

div_mono : (a b k : ℕ) → 0 < k → a ≤ b → a / k ≤ b / k
div_mono a b k p h = (le-div_iff_mul-le p).1 (omega (arith, div-mul-le_self a k))

prod_pos : (e m : ℕ) → 0 < e → 0 < m → 0 < e * m
prod_pos e m p q = mul-le-mul p q

-- A share `k` of `m` of a ratio is no more than the ratio.
share_le : (a r k e m : ℕ) → k ≤ m → 0 < e → 0 < m → a * r * k / (e * m) ≤ a * r / e
share_le a r k e m h p q =
    rw (sym (mul-div-mul_right (a * r) e q))
      (div_mono (a * r * k) (a * r * m) (e * m) (prod_pos e m p q) (mul-le-mul_left (a * r) h))

ratio_le : (a r e : ℕ) → r ≤ e → a * r / e ≤ a
ratio_le a r e h = div-le_of_le-mul e (rw (mul_comm e a) (mul-le-mul_left a h))

as_metric : (a b : ℕ) → 0 < b → a / b ≤ max_metric → metric_of (quot a b) ≡ some (a / b)
as_metric a b p h = rw (quot_pos a b p) (ap some (omega arith))

module _ (m : ℕ) (e : PdrEntry) (pos : 0 < e.expected_hellos) where
  abbrev rcvd : ℕ
  rcvd = min e.window.rcvd_hello_count e.expected_hellos

  abbrev ratio : ℕ
  ratio = max_metric * rcvd / e.expected_hellos

  abbrev trips : ℕ
  trips = max_metric * rcvd * min e.nb_rcvd_hello_count m / (e.expected_hellos * m)

  ratio-max : ratio ≤ max_metric
  ratio-max = ratio_le max_metric rcvd e.expected_hellos (omega arith)

  pdr_of_lem : pdr_of e ≡ some ratio
  unfolding pdr_of
  pdr_of_lem = elim (Bool-cases (leb e.expected_hellos e.window.rcvd_hello_count)) [
    | inl h ↦
        let whole : rcvd ≡ e.expected_hellos = ground arith in
        rw (pdr_of, h, whole, mul-div_left max_metric pos)
    | inr h ↦
        let whole : rcvd ≡ e.window.rcvd_hello_count = ground arith in
        let fits : ratio ≤ max_metric = ratio-max in
        rw (pdr_of, h, whole)
          (as_metric (max_metric * e.window.rcvd_hello_count) e.expected_hellos pos
            (rw whole at fits))
  ]

  -- Where HELLOs are expected in both directions, the ratio of the received HELLOs and the ratio of
  -- the round trips are computed, the second is no more than the first, and both fit the 16 bits of a
  -- metric.
  pub etx_mul_of-pdr_of :
      0 < m
      → (p : ℕ) × (q : ℕ) × (pdr_of e ≡ some p)
        × (etx_mul_of m e ≡ some q)
        × (q ≤ p)
        × (p ≤ max_metric)
  unfolding etx_mul_of
  etx_mul_of-pdr_of pos' =
      let share : trips ≤ ratio =
        share_le max_metric rcvd (min e.nb_rcvd_hello_count m) e.expected_hellos m (omega arith) pos
          pos' in
      (
        ratio,
        trips,
        pdr_of_lem,
        as_metric _ (e.expected_hellos * m) (prod_pos e.expected_hellos m pos pos')
            (omega (arith, ratio-max)),
        share,
        ratio-max,
      )

-- Without a HELLO that was received, or without one that the neighbor received, the expected
-- transmissions are not computed: the division is by zero, whatever was written before it. With
-- both, and HELLOs expected in both directions, the number is computed, and lies between that of a
-- link without a loss, 256, and the largest metric.
pub etx_add_of_lem :
    (m : ℕ) (e : PdrEntry)
    → 0 < e.expected_hellos
    → 0 < m
    → if (e.window.rcvd_hello_count == 0) || (e.nb_rcvd_hello_count == 0)
      then etx_add_of m e ≡ none
      else (n : ℕ) × (etx_add_of m e ≡ some n) × (2 ^ 8 ≤ n) × (n ≤ max_metric)
unfolding etx_add_of
etx_add_of_lem m e pos pos' =
    let r : ℕ = min e.window.rcvd_hello_count e.expected_hellos in
    let k : ℕ = min e.nb_rcvd_hello_count m in
    elim (Bool-cases (e.window.rcvd_hello_count == 0)) [
      | inl h ↦
          let z : r ≡ 0 = ground arith in
          let none_sent : r * k ≡ 0 = rw z (omega arith) in rw (h, etx_add_of, none_sent) refl
      | inr h ↦ elim (Bool-cases (e.nb_rcvd_hello_count == 0)) [
        | inl g ↦
            let z : k ≡ 0 = ground arith in
            let none_sent : r * k ≡ 0 = rw z (omega arith) in rw (h, g, etx_add_of, none_sent) refl
        | inr g ↦
            let p : 0 < r * k = prod_pos r k (ground arith) (ground arith) in
            let least : 2 ^ 8 ≤ 2 ^ 8 * e.expected_hellos * m / (r * k) = (le-div_iff_mul-le p).1 (
              rw (mul_assoc (2 ^ 8) e.expected_hellos m)
                (mul-le-mul_left (2 ^ 8) (mul-le-mul (omega arith) (omega arith)))) in
            rw (h, g, etx_add_of, quot_pos (2 ^ 8 * e.expected_hellos * m) (r * k) p)
              (_, refl, omega (arith, least), omega arith)
      ]
    ]

-- The number of HELLOs that are expected fits into the time in which they are counted, and one is
-- expected at least. The interval is not 0, and the product with the factor, not 0 either, is an
-- `int`.
pub expected_lem :
    (factor interval : ℕ)
    → 0 < factor
    → 0 < interval
    → interval * factor < 2 ^ 31
    → (n : ℕ) × (expected factor interval ≡ some n)
      × (0 < n)
      × (n * interval ≤ (
          if leb min_tracking_interval (interval * factor)
          then interval * factor
          else min_tracking_interval))
unfolding expected
expected_lem factor interval f i small =
    let int : leb (2 ^ 31) (interval * factor) ≡ false = ground arith in
    elim (Bool-cases (leb min_tracking_interval (interval * factor))) [
      | inl h ↦ rw (int, h, expected) (factor, refl, f, rw (mul_comm factor interval) (omega arith))
      | inr h ↦
          let scaled : interval * 1 ≤ interval * factor = mul-le-mul_left interval f in
          let short : interval ≤ interval * factor = omega (arith, scaled) in
          rw (int, h, expected, quot_pos min_tracking_interval interval i)
            (
              _,
              refl,
              (le-div_iff_mul-le i).1 (ground arith),
              div-mul-le_self min_tracking_interval interval,
            )
    ]
