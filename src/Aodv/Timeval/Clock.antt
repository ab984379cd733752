-- ===== src/Aodv/Timeval/Clock.antt =====
-- Functions on times that do what libdessert documents, for the tests.
use des_routing_algorithms.Common.{ℕ, ◌+◌, ◌*◌, ◌/◌, ◌%◌, ◌≡◌, sub_ℕ, ltb, is_pos, is_neg, arith}
use des_routing_algorithms.Aodv.Timeval.{Timeval, Dessert, micros}

abbrev pub of_micros : ℕ → Timeval
of_micros n = record { tv_sec = n / 1000000; tv_usec = n % 1000000 }

pub micros-of_micros : (n : ℕ) → micros (of_micros n) ≡ n
micros-of_micros n = omega arith

pub cmp_pos_lem : (a b : Timeval) → is_pos (sub_ℕ (micros a) (micros b)) ≡ ltb (micros b) (micros a)
cmp_pos_lem a b = ground arith

pub cmp_neg_lem : (a b : Timeval) → is_neg (sub_ℕ (micros a) (micros b)) ≡ ltb (micros a) (micros b)
cmp_neg_lem a b = ground arith

instance abbrev pub clock : Dessert
clock = record {
  timevalcmp = λ a b. sub_ℕ (micros a) (micros b);
  timevaladd2 = λ a b. of_micros (micros a + micros b);
  timevaladd = λ a sec usec. of_micros (micros a + sec * 1000000 + usec);
  ms2timeval = λ ms. of_micros (ms * 1000);
  cmp_pos = cmp_pos_lem;
  cmp_neg = cmp_neg_lem;
  micros-add2 = λ a b. micros-of_micros (micros a + micros b);
  micros-add = λ a sec usec. micros-of_micros (micros a + sec * 1000000 + usec);
  micros-ms = λ ms. micros-of_micros (ms * 1000);
}

abbrev pub seconds : ℕ → Timeval
seconds n = record { tv_sec = n; tv_usec = 0 }
