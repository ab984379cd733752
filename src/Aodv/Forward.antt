-- ===== src/Aodv/Forward.antt =====
-- des-aodv/trunk/src/pipeline/aodv_forward.c: what a node does with a data packet from the mesh or
-- from its own system. The result of a handler is what is sent, and what libdessert is to do next.
pub mod Once
pub mod Travel
pub mod Route
pub mod Search
mod Tests
use des_routing_algorithms.Common.{
  ℕ, ◌+◌, ◌-◌, ◌*◌, ◌/◌, ◌%◌, ◌^◌, Bool, true, false, not, ◌&&◌, ◌||◌, Option, none, some, List, [],
  ◌∷◌, ◌++◌, leb, ◌==◌, if◌then◌else◌,
}
use des_routing_algorithms.Aodv.Timeval.{Timeval, Dessert}
use des_routing_algorithms.Aodv.SendLog.{SendLog, getrerrcount, putrerr}
use des_routing_algorithms.Aodv.DataSeq.{DataSeq, capt_data_seq}
use des_routing_algorithms.Aodv.PacketBuffer.{Pb, Sent, pb_push_packet, send_packets_from_buffer}
use des_routing_algorithms.Aodv.RoutingTable.Defs.{Rt, unused, local_used}
use des_routing_algorithms.Aodv.RoutingTable.Capture.{getroute2dest}
use des_routing_algorithms.Aodv.RoutingTable.Breaks.{LinkBreak}
use des_routing_algorithms.Aodv.Rerr.{Exts, Rerr, create_rerr, rerr_ratelimit}
use des_routing_algorithms.Aodv.Series.{
  State, start_series, delete_series_ether, ttl_max, ttl_start,
}

-- The fields of a message, and of its Ethernet header within, that the handlers read and write.
pub record DataMsg : Type 0 where
  pub ether_shost : ℕ
  pub ether_dhost : ℕ
  pub next_hop : ℕ
  pub ttl : ℕ
  pub hops : ℕ
  pub seq : ℕ

-- `proc->lflags`
pub record RxFlags : Type 0 where
  pub l2_dst : Bool
  pub l25_dst : Bool
  pub l25_broadcast : Bool
  pub l25_multicast : Bool

pub data Verdict : Type 0 where
  msg_keep msg_drop msg_needmsgproc : Verdict

-- A call of `dessert_meshsend` with the interface, if one is named, or of `dessert_syssend_msg`.
pub data Output : Type 0 where
  mesh : DataMsg → Option ℕ → Output
  mesh_rerr : Rerr → Output
  sys : DataMsg → Output

-- The tables that the handlers read and write, and `data_seq_global`.
pub record Node : Type 0 where
  pub data_seq : DataSeq
  pub rt : Rt
  pub rerr_log : SendLog
  pub buffer : Pb DataMsg
  pub series : State
  pub data_seq_global : ℕ

pub record Handled : Type 0 where
  pub node : Node
  pub outputs : List Output
  pub verdict : Verdict

abbrev pub dropped : Node → List Output → Handled
dropped n outputs = record { node = n; outputs = outputs; verdict = msg_drop }

abbrev pub kept : Node → Handled
kept n = record { node = n; outputs = []; verdict = msg_keep }

-- `msg->ttl--; msg->u8++;`
abbrev pub aged : DataMsg → DataMsg
aged m = record m { ttl = m.ttl - 1; hops = (m.hops + 1) % 2 ^ 8 }

-- `++data_seq_global`
abbrev pub next_seq : Node → ℕ
next_seq n = (n.data_seq_global + 1) % 2 ^ 16

abbrev pub ether_broadcast : ℕ
ether_broadcast = 2 ^ 48 - 1

-- The lowest bit of the first byte of an address, which is the lowest of its number.
abbrev pub group_bit : ℕ → Bool
group_bit dhost = dhost % 2 == 1

abbrev pub no_route : ℕ → LinkBreak
no_route dhost = record { host = dhost; sequence_number = 2 ^ 32 - 1 }

unfoldable pub forward_multicast : RxFlags → Node → Handled
forward_multicast rx n = if rx.l25_multicast then dropped n [] else kept n

-- `proc` is NULL where it is `none`; the flags that are left.
unfoldable pub sys_drop_multicast : Option RxFlags → DataMsg → Option RxFlags × Verdict
sys_drop_multicast none m = (none, msg_needmsgproc)
sys_drop_multicast (some rx) m =
    let rx' : RxFlags =
      if m.ether_dhost == ether_broadcast
      then record rx { l25_broadcast = true }
      else if group_bit m.ether_dhost
      then record rx { l25_multicast = true }
      else rx in
    (some rx', if rx'.l25_multicast then msg_drop else msg_keep)

module _ ⦃d : Dessert⦄ (timestamp now : Timeval) where
  -- The packet is captured after it aged; whether it is new.
  abbrev pub captured : DataMsg → Node → Bool × Bool → Node × Bool
  captured m n malloc =
      let (ds', is_new) = capt_data_seq n.data_seq m.ether_shost m.seq timestamp now malloc in
      (record n { data_seq = ds' }, is_new)

  unfoldable pub forward_broadcast : RxFlags → DataMsg → Node → (malloc : Bool × Bool) → Handled
  forward_broadcast rx m n malloc =
      let (n', is_new) = captured m n malloc in
      if not rx.l25_broadcast
      then kept n
      else if m.ttl == 0
      then dropped n []
      else if is_new
      then dropped n' (mesh (aged m) none ∷ sys (aged m) ∷ [])
      else dropped n' []

  unfoldable pub local_unicast : RxFlags → DataMsg → Node → (malloc : Bool × Bool) → Handled
  local_unicast rx m n malloc =
      let (n', is_new) = captured m n malloc in
      if not rx.l25_dst
      then dropped n []
      else if m.ttl == 0
      then dropped n []
      else if is_new
      then dropped n' (sys (aged m) ∷ [])
      else dropped n' []

  module _ (x : Exts) (ifaces : List ℕ) where
    -- The RERR for a destination without a route, if not too many were sent of late.
    unfoldable pub report_no_route : ℕ → Node → Handled
    report_no_route dhost n =
        let (log', rerr_count) = getrerrcount n.rerr_log timestamp in
        if leb (rerr_ratelimit x ifaces timestamp now) rerr_count
        then dropped (record n { rerr_log = log' }) []
        else elim (create_rerr x ifaces (no_route dhost ∷ [])).0 [
          | none ↦ dropped (record n { rerr_log = log' }) []
          | some r ↦
              dropped (record n { rerr_log = putrerr log' timestamp now true }) (mesh_rerr r ∷ [])
        ]

    -- A new packet takes the route to its destination, or a RERR is sent.
    unfoldable pub route_packet : DataMsg → Node → (malloc : Bool) → Handled
    route_packet m n malloc =
        let (rt', route) = getroute2dest n.rt m.ether_dhost timestamp now unused malloc in
        let n' = record n { rt = rt' } in
        elim route [
          | some (next_hop, iface) ↦
              dropped n' (mesh (record (aged m) { next_hop = next_hop }) (some iface) ∷ [])
          | none ↦ report_no_route m.ether_dhost n'
        ]

    unfoldable pub forward : RxFlags → DataMsg → Node → (malloc : (Bool × Bool) × Bool) → Handled
    forward rx m n (m_seq, m_rt) =
        let (n', is_new) = captured m n m_seq in
        if not rx.l2_dst || rx.l25_dst
        then kept n
        else if m.ttl == 0
        then dropped n []
        else if is_new
        then route_packet m n' m_rt
        else dropped n' []

  -- A packet of the own system.
  abbrev pub fresh_msg : DataMsg → DataMsg
  fresh_msg m = record m { ttl = 2 ^ 8 - 1; hops = 0 }

  -- `ring_search` is a setting of the daemon.
  unfoldable pub sys2rp :
      (ring_search : Bool) → DataMsg → Node → (malloc : Bool × Bool × Bool × Bool) → Handled
  sys2rp ring_search m n (m_rt, m_entry, m_fl, m_ts) =
      let (rt', route) = getroute2dest n.rt m.ether_dhost timestamp now local_used m_rt in
      if m.ether_dhost == ether_broadcast
      then dropped (record n { data_seq_global = next_seq n })
          (mesh (record (fresh_msg m) { seq = next_seq n }) none ∷ [])
      else elim route [
        | some (next_hop, iface) ↦
            dropped (record n { rt = rt'; data_seq_global = next_seq n })
              (mesh (record (fresh_msg m) { seq = next_seq n; next_hop = next_hop }) (some iface)
                ∷ [])
        | none ↦
            dropped
              (record n {
                rt = rt';
                buffer =
                    pb_push_packet n.buffer m.ether_dhost (fresh_msg m) timestamp now
                      (m_entry, m_fl, m_ts);
                series =
                    start_series m.ether_dhost (if ring_search then ttl_start else ttl_max)
                      n.series;
              })
              []
      ]

-- `aodv_send_packets_from_buffer`, on fuel for the packets.
unfoldable pub send_from_buffer :
    ℕ → (ether_dhost next_hop iface : ℕ) → Node → Option (Node × List (Sent DataMsg))
send_from_buffer fuel ether_dhost next_hop iface n =
    elim (send_packets_from_buffer fuel n.buffer ether_dhost next_hop iface n.data_seq_global) [
      | none ↦ none
      | some (buffer', last, sent) ↦ some (
        record n {
          buffer = buffer';
          data_seq_global = last;
          series = delete_series_ether ether_dhost n.series;
        },
        sent,
      )
    ]
