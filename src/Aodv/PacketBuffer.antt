-- ===== src/Aodv/PacketBuffer.antt =====
-- des-aodv/trunk/src/database/packet_buffer/packet_buffer.c, and the loop of
-- pipeline/aodv_forward.c that empties it: packets that wait for a route. Messages have any type `M`;
-- a clone of a message is the message.
pub mod Fifo
pub mod Drain
mod Tests
use des_routing_algorithms.Common.{
  ℕ, zero, suc, ◌+◌, ◌-◌, ◌*◌, ◌/◌, ◌%◌, ◌^◌, Bool, true, false, Option, none, some, List, [], ◌∷◌,
  ◌++◌, find, delete, modify, ltb, if◌then◌else◌,
}
use des_routing_algorithms.Aodv.Timeval.{Timeval, Dessert}
use des_routing_algorithms.Aodv.Timeslot.{
  Timeslot, inc32, dec32, timeslot_create, timeslot_purgeobjects, timeslot_addobject,
  timeslot_deleteobject,
}

-- From `head` to `tail`.
pub record FifoList {ℓ} (M : Type ℓ) : Type ℓ where
  pub packets : List M
  pub size : ℕ

pub record PbEl {ℓ} (M : Type ℓ) : Type ℓ where
  pub self : ℕ
  pub dhost_ether : ℕ
  pub fl : FifoList M

-- What the purger reaches; `fault` is set when it follows an address of freed memory.
pub record Entries {ℓ} (M : Type ℓ) : Type ℓ where
  pub entries : List (PbEl M)
  pub fault : Bool

pub record Pb {ℓ} (M : Type ℓ) : Type ℓ where
  pub pbt : Entries M
  pub ts : Timeslot
  pub brk : ℕ

-- What is sent of a buffered message.
pub record Sent {ℓ} (M : Type ℓ) : Type ℓ where
  pub msg : M
  pub u16 : ℕ
  pub ether_dhost : ℕ
  pub iface : ℕ

-- FIFO_BUFFER_MAX_ENTRY_SIZE
abbrev pub fifo_buffer_max_entry_size : ℕ
fifo_buffer_max_entry_size = 2 ^ 32 - 1

module _ {ℓ} {M : Type ℓ} where
  abbrev pub self_of : PbEl M → ℕ
  self_of e = e.self

  abbrev pub dhost_of : PbEl M → ℕ
  dhost_of e = e.dhost_ether

  abbrev pub empty_fifo : FifoList M
  empty_fifo = record { packets = []; size = 0 }

  -- Without `fl->head`.
  abbrev pub drop_head : List M → List M
  drop_head [] = []
  drop_head (m ∷ ms) = ms

  unfoldable pub purge_packets : Timeval → ℕ → Entries M → Entries M
  purge_packets timestamp object t = elim (find self_of object t.entries) [
    | none ↦ record t { fault = true }
    | some _ ↦ record t { entries = delete self_of object t.entries }
  ]

  -- BLACKLIST_TIMEOUT, in milliseconds, is an argument.
  unfoldable pub pb_init : ℕ → Bool → Option (Pb M)
  pb_init blacklist_timeout malloc =
      elim (timeslot_create
        (record { tv_sec = blacklist_timeout / 1000; tv_usec = blacklist_timeout % 1000 * 1000 })
        malloc) [
          | none ↦ none
          | some ts ↦
              some (record { pbt = record { entries = []; fault = false }; ts = ts; brk = 1 })
        ]

  unfoldable pub fl_push_packet : FifoList M → M → Bool → FifoList M
  fl_push_packet fl msg false = fl
  fl_push_packet fl msg true =
      let packets = fl.packets ++ msg ∷ [] in
      let size = inc32 fl.size in
      if ltb fifo_buffer_max_entry_size size
      then record { packets = drop_head packets; size = dec32 size }
      else record { packets = packets; size = size }

  unfoldable pub fl_pop_packet : FifoList M → FifoList M × Option M
  fl_pop_packet fl = elim fl.packets [
    | [] ↦ (fl, none)
    | m ∷ ms ↦ (record { packets = ms; size = dec32 fl.size }, some m)
  ]

  unfoldable pub pb_pop_packet : Pb M → ℕ → Pb M × Option M
  pb_pop_packet pb dhost = elim (find dhost_of dhost pb.pbt.entries) [
    | none ↦ (pb, none)
    | some el ↦
        let (fl', msg) = fl_pop_packet el.fl in
        elim fl'.packets [
          | [] ↦ (
            record pb {
              pbt = record (pb.pbt) { entries = delete self_of el.self pb.pbt.entries };
              ts = (timeslot_deleteobject pb.ts el.self).0;
            },
            msg,
          )
          | _ ∷ _ ↦ (
            record pb {
              pbt = record (pb.pbt) {
                entries = modify self_of el.self (λ x. record x { fl = fl' }) pb.pbt.entries;
              };
            },
            msg,
          )
        ]
  ]

  -- The loop of `aodv_send_packets_from_buffer`, on fuel for the rounds: the buffer,
  -- `data_seq_global` and what is sent.
  unfoldable pub send_packets_from_buffer :
      ℕ → Pb M → (ether_dhost next_hop iface data_seq : ℕ) → Option (Pb M × ℕ × List (Sent M))
  send_packets_from_buffer zero pb dhost next_hop iface data_seq = none
  send_packets_from_buffer (suc fuel) pb dhost next_hop iface data_seq =
      let (pb', buffered) = pb_pop_packet pb dhost in
      let data_seq' = (data_seq + 1) % 2 ^ 16 in
      let more = send_packets_from_buffer fuel pb' dhost next_hop iface data_seq' in
      elim buffered [
        | none ↦ some (pb', data_seq, [])
        | some msg ↦ elim more [
          | none ↦ none
          | some (pb'', last, sent) ↦ some (
            pb'',
            last,
            record { msg = msg; u16 = data_seq'; ether_dhost = next_hop; iface = iface } ∷ sent,
          )
        ]
      ]

  module _ ⦃d : Dessert⦄ where
    unfoldable pub pb_cleanup : Pb M → Timeval → Pb M
    pb_cleanup pb timestamp =
        let (ts', pbt') = timeslot_purgeobjects purge_packets pb.ts timestamp pb.pbt in
        record pb { pbt = pbt'; ts = ts' }

    -- `malloc` says whether there is memory for the entry, the element of the queue and that of the
    -- timeslot.
    -- A packet is pushed to the entry at an address, which is refreshed.
    abbrev pub push_at : Pb M → ℕ → M → Timeval → Timeval → Bool → Bool → Pb M
    push_at pb object msg timestamp now m_fl m_ts =
        let written : Entries M = record (pb.pbt) {
          entries =
              modify self_of object (λ x. record x { fl = fl_push_packet x.fl msg m_fl })
                pb.pbt.entries;
        } in
        let (ts', pbt', _) =
          timeslot_addobject purge_packets pb.ts timestamp object now m_ts written in
        record pb { pbt = pbt'; ts = ts' }

    -- A new entry with an empty queue.
    abbrev pub with_el : Pb M → ℕ → Pb M
    with_el pb dhost = record pb {
      pbt = record (pb.pbt) {
        entries =
            pb.pbt.entries ++ record { self = pb.brk; dhost_ether = dhost; fl = empty_fifo } ∷ [];
      };
      brk = pb.brk + 1;
    }

    unfoldable pub pb_push_packet :
        Pb M → ℕ → M → Timeval → (now : Timeval) (malloc : Bool × Bool × Bool) → Pb M
    pb_push_packet pb dhost msg timestamp now (m_entry, m_fl, m_ts) =
        let pb1 = pb_cleanup pb timestamp in
        elim (find dhost_of dhost pb1.pbt.entries) [
          | none ↦
              if m_entry
              then push_at (with_el pb1 dhost) pb1.brk msg timestamp now m_fl m_ts
              else pb1
          | some el ↦ push_at pb1 el.self msg timestamp now m_fl m_ts
        ]
