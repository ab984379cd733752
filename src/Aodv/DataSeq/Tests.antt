-- ===== src/Aodv/DataSeq/Tests.antt =====
-- Runs of the table of data packets, and the theorems on it at these values.
use des_routing_algorithms.Common.{◌≡◌, refl, arith, true, false, [], ◌∷◌}
use des_routing_algorithms.Aodv.Timeval.Clock.{clock, seconds}
use des_routing_algorithms.Aodv.DataSeq.{DataPacketId, DataSeq, newer, capt_data_seq}
use des_routing_algorithms.Aodv.DataSeq.Once.{
  IsValid, capt_data_seq-capt_data_seq, capt_data_seq-replays,
}

-- The last packet of source 20 has the number 65000.
abbrev last : DataPacketId
last = record { self = 1; src_addr = 20; seq_num = 65000 }

abbrev ds : DataSeq
ds = record {
  ids = record { entries = last ∷ []; fault = false };
  ts = record {
    elements = record { purge_time = seconds 9; object = 1 } ∷ [];
    size = 1;
    purge_timeout = seconds 6;
  };
  brk = 2;
}

ds-IsValid : IsValid ds
ds-IsValid = record {
  slot = record { desc = (tt, tt); unique = (refl, tt); counted = refl; fits = omega arith };
  selves = (refl, tt);
  srcs = (refl, tt);
  fresh = refl;
}

accepted : (capt_data_seq ds 20 65001 (seconds 5) (seconds 5) (true, true)).1 ≡ true
unfolding capt_data_seq newer
accepted = refl

capt_data_seq-capt_data_seq_example :
    let ds' = (capt_data_seq ds 20 65001 (seconds 5) (seconds 5) (true, true)).0 in
    capt_data_seq ds' 20 65001 (seconds 6) (seconds 6) (true, true) ≡ (ds', false)
capt_data_seq-capt_data_seq_example =
    capt_data_seq-capt_data_seq ds 20 65001 (seconds 5) (seconds 5) ds-IsValid
      (omega arith, omega arith) (true, true) (true, true) (seconds 6) (seconds 6) accepted

capt_data_seq-replays_example :
    let (ds', accepted) = capt_data_seq ds 20 3 (seconds 5) (seconds 5) (true, true) in
    (accepted ≡ true) × ((capt_data_seq ds' 20 65000 (seconds 6) (seconds 6) (true, true)).1 ≡ true)
capt_data_seq-replays_example =
    capt_data_seq-replays ds 20 3 (seconds 5) (seconds 5) ds-IsValid (omega arith, omega arith)
      (true, true) (true, true) last (seconds 6) (seconds 6) refl (omega arith)
