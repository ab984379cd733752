-- ===== src/Aodv/PdrTracker/Tests.antt =====
-- Runs of the PDR tracker, and the theorems on it at these values.
use des_routing_algorithms.Common.{ℕ, ◌^◌, ◌≤◌, ◌≡◌, refl, arith, true, false, some, [], ◌∷◌}
use des_routing_algorithms.Aodv.Timeval.Clock.{clock, seconds}
use des_routing_algorithms.Aodv.Timeslot.{
  timeslot_addobject, timeslot_addobject_varpurge, timeslot_deleteobject,
}
use des_routing_algorithms.Aodv.PdrTracker.{PdrEntry, max_metric}
use des_routing_algorithms.Aodv.PdrTracker.Capture.{capture_hello}
use des_routing_algorithms.Aodv.PdrTracker.Metrics.{pdr_of, etx_mul_of, etx_add_of}
use des_routing_algorithms.Aodv.PdrTracker.Metrics.Bounds.{etx_mul_of-pdr_of, etx_add_of_lem}
use des_routing_algorithms.Aodv.PdrTracker.Hellos.{Counted}
use des_routing_algorithms.Aodv.PdrTracker.Drift.{capture_hello-Counted}

-- Neighbor 7 with one HELLO, number 3, of ten that are expected in 10 s.
abbrev near : PdrEntry
near = record {
  self = 1;
  ether_neighbor = 7;
  hello_interv = 1000;
  expected_hellos = 10;
  nb_rcvd_hello_count = 5;
  ts = record {
    elements = record { purge_time = seconds 12; object = 2 } ∷ [];
    size = 1;
    purge_timeout = seconds 10;
  };
  window = record {
    msg_list = record { self = 2; seq_num = 3 } ∷ [];
    rcvd_hello_count = 1;
    fault = false;
  };
  purge_tv = seconds 20;
}

near-Counted : Counted 0 near
near-Counted = record {
  slot = record { desc = (tt, tt); unique = (refl, tt); counted = refl; fits = omega arith };
  counts = record {
    no_fault = refl;
    msgs = (refl, tt);
    seqs = (refl, tt);
    held = λ o h. ground arith;
    counted = refl;
  };
}

-- The same HELLO comes again.
twice : (capture_hello near 5 3 (seconds 3) (seconds 3) (true, true)).0.window.rcvd_hello_count ≡ 2
unfolding capture_hello timeslot_addobject timeslot_addobject_varpurge timeslot_deleteobject
twice = refl

capture_hello-Counted_example :
    Counted 1 (capture_hello near 5 3 (seconds 3) (seconds 3) (true, true)).0
capture_hello-Counted_example =
    capture_hello-Counted 0 near 5 3 (seconds 3) (seconds 3) (true, true) near-Counted (omega arith)
      refl

etx_mul_of-pdr_of_example :
    (p : ℕ) × (q : ℕ) × (pdr_of near ≡ some p)
    × (etx_mul_of 10 near ≡ some q)
    × (q ≤ p)
    × (p ≤ max_metric)
etx_mul_of-pdr_of_example = etx_mul_of-pdr_of 10 near (omega arith) (omega arith)

etx_add_of_example : (n : ℕ) × (etx_add_of 10 near ≡ some n) × (2 ^ 8 ≤ n) × (n ≤ max_metric)
etx_add_of_example = etx_add_of_lem 10 near (omega arith) (omega arith)
