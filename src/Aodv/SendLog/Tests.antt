-- ===== src/Aodv/SendLog/Tests.antt =====
-- Runs of a log, and the theorems on it at these values.
use des_routing_algorithms.Common.{refl, arith, [], ◌∷◌}
use des_routing_algorithms.Aodv.Timeval.Clock.{clock, seconds}
use des_routing_algorithms.Aodv.SendLog.{SendLog, one_second}
use des_routing_algorithms.Aodv.SendLog.Count.{IsValid}

-- One message was logged at eight seconds.
abbrev log : SendLog
log = record {
  ts = record {
    elements = record { purge_time = seconds 9; object = 0 } ∷ [];
    size = 1;
    purge_timeout = one_second;
  };
  count = 1;
  pseudo_pointer = 1;
}

log-IsValid : IsValid log
log-IsValid = record {
  slot = record { desc = (tt, tt); unique = (refl, tt); counted = refl; fits = omega arith };
  counted = refl;
  fresh = λ p h. ground arith;
}
