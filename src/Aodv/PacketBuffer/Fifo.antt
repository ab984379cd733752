-- ===== src/Aodv/PacketBuffer/Fifo.antt =====
-- The queue of the packets for one host.
use des_routing_algorithms.Common.{
  ◌+◌, ◌^◌, ◌<◌, ◌≡◌, refl, true, false, [], ◌∷◌, ◌++◌, length, length-append, arith, ltb,
}
use des_routing_algorithms.Aodv.Timeslot.{inc32}
use des_routing_algorithms.Aodv.PacketBuffer.{FifoList, fifo_buffer_max_entry_size, fl_push_packet}

module _ {ℓ} {M : Type ℓ} where
  -- The size is the number of the packets.
  pub record IsFifo (fl : FifoList M) : Type ℓ where
    pub counted : fl.size ≡ length fl.packets
    pub fits : length fl.packets < 2 ^ 32

  -- A packet that is pushed with memory goes to the end of a queue with room for it, and the size of
  -- the queue stays right; without memory the queue is as it was.
  pub fl_push_packet_lem :
      (fl : FifoList M) (msg : M)
      → IsFifo fl
      → length fl.packets < fifo_buffer_max_entry_size
      → ((fl_push_packet fl msg true).packets ≡ fl.packets ++ msg ∷ [])
        × IsFifo (fl_push_packet fl msg true)
        × (fl_push_packet fl msg false ≡ fl)
  unfolding fl_push_packet
  fl_push_packet_lem fl msg v h = rw room (
    refl,
    record { counted = omega (arith, v.counted, longer); fits = omega (arith, longer) },
    refl,
  )
    where
      longer : length (fl.packets ++ msg ∷ []) ≡ length fl.packets + 1
      longer = omega (arith, length-append fl.packets (msg ∷ []))

      room : ltb fifo_buffer_max_entry_size (inc32 fl.size) ≡ false
      room = ground (arith, v.counted)
