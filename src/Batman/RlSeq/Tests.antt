-- ===== src/Batman/RlSeq/Tests.antt =====
-- Runs of the table of packet numbers, and the theorem on it at these values.
use des_routing_algorithms.Common.{ℕ, ◌≡◌, refl, arith, find, true, false, some, [], ◌∷◌}
use des_routing_algorithms.Batman.Window.{
  hf_seq_comp_i_j, place, drop_from_tail, batman_sw_dropsn, batman_sw_addsn,
}
use des_routing_algorithms.Batman.Window.Compare.{behind}
use des_routing_algorithms.Batman.Window.Chain as Windows
use des_routing_algorithms.Batman.Slot.{insert_el, purge_from_tail, ts_purgeobjects, ts_addobject}
use des_routing_algorithms.Batman.RlSeq.{
  RlPacketId, RlTable, rl_key, src_dest, on_rl_timeout, touch, next_packet_seq, rl_add_seq,
  rl_check_seq, rl_get_nextseq,
}
use des_routing_algorithms.Batman.RlSeq.Next.{rl_check_seq-rl_get_nextseq}
use des_routing_algorithms.Batman.RlSeq.Check.{IsValid, HasWindow, rl_check_seq-rl_add_seq}

-- The packets from 20 to 30 came up to the number 7.
abbrev packets : RlPacketId
packets = record {
  self = 1;
  src_dest_addr = src_dest 20 30;
  sw = record { seq_nums = 7 ∷ []; size = 1; window_size = 80 };
}

abbrev table : RlTable
table = record {
  rl = record { entrys = packets ∷ []; fault = false };
  ts = record { elements = record { timestamp = 100; object = 1 } ∷ []; purge_timeout = 80000 };
  brk = 2;
}

packets-IsValid : Windows.IsValid packets.sw
unfolding behind
packets-IsValid = record {
  desc = (omega arith, omega arith, omega arith, tt);
  counted = refl;
  wide = omega arith;
  narrow = omega arith;
}

table-IsValid : IsValid table
table-IsValid = record {
  keys = (refl, tt);
  selves = (refl, tt);
  slot = (refl, tt);
  fresh = refl;
  windows = λ k. windows k;
  timed = omega arith;
}
  where
    windows : (k : ℕ) → HasWindow (find rl_key k table.rl.entrys)
    windows k = ground (arith, packets-IsValid)

rl_check_seq-rl_add_seq_example :
    (t : RlTable) × (rl_add_seq (true, true, true, true) table 20 30 6 120 ≡ some t)
    × ((rl_check_seq t 20 30 6 130).1 ≡ true)
unfolding behind
rl_check_seq-rl_add_seq_example =
    rl_check_seq-rl_add_seq table 20 30 6 120 table-IsValid (omega arith) (omega arith, tt)
      (omega arith) 130 (omega arith)

next_number :
    (t : RlTable) × (rl_get_nextseq (true, true, true, true) table 20 30 120 ≡ some (t, 8))
unfolding rl_get_nextseq next_packet_seq touch batman_sw_addsn batman_sw_dropsn drop_from_tail place
    hf_seq_comp_i_j ts_addobject ts_purgeobjects purge_from_tail insert_el on_rl_timeout
next_number = (_, refl)

not_seen : (rl_check_seq table 20 30 6 120).1 ≡ false
unfolding rl_check_seq ts_purgeobjects purge_from_tail
not_seen = refl

rl_check_seq-rl_get_nextseq_example :
    (t : RlTable) × (rl_get_nextseq (true, true, true, true) table 20 30 120 ≡ some (t, 8))
    × ((rl_check_seq t 20 30 8 130).1 ≡ true)
rl_check_seq-rl_get_nextseq_example =
    rl_check_seq-rl_get_nextseq table 20 30 120 packets 7 [] table-IsValid refl refl
      (omega arith, tt) 130 (omega arith)
