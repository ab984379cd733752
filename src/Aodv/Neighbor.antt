-- ===== src/Aodv/Neighbor.antt =====
-- des-aodv/trunk/src/database/neighbor_table/nt.c: the neighbors with a link in both directions, and
-- the tasks that their coming and going leads to.
pub mod Timeout
mod Tests
use des_routing_algorithms.Common.{
  ℕ, ◌+◌, ◌-◌, ◌*◌, ◌/◌, ◌%◌, ◌^◌, Bool, true, false, ◌&&◌, Option, none, some, List, [], ◌∷◌, ◌++◌,
  find, delete, modify, ltb, if◌then◌else◌, ℤ, pos, negsuc, sub_ℕ, is_pos, is_neg, is_zero,
}
use des_routing_algorithms.Aodv.Timeval.{Timeval, Dessert}
use des_routing_algorithms.Aodv.Timeslot.{
  Timeslot, timeslot_create, timeslot_purgeobjects, timeslot_addobject,
}
use des_routing_algorithms.Aodv.Schedule.{Schedules, addschedule, dropschedule}

pub record NeighborEntry : Type 0 where
  pub self : ℕ
  pub ether_neighbor : ℕ
  pub iface : ℕ
  pub last_hello_seq : ℕ
  pub max_rssi : ℤ

-- What the purger reaches: `nt.entries` and the schedule table. `fault` is set when it follows an
-- address of freed memory.
pub record Neighbors : Type 0 where
  pub entries : List NeighborEntry
  pub schedules : Schedules
  pub fault : Bool

pub record Nt : Type 0 where
  pub neighbors : Neighbors
  pub ts : Timeslot
  pub brk : ℕ

abbrev pub self_of : NeighborEntry → ℕ
self_of e = e.self

-- The bytes of the key: the address of the neighbor, and that of the interface.
abbrev pub addr_sum : ℕ → ℕ → ℕ
addr_sum ether_neighbor iface = iface * 2 ^ 48 + ether_neighbor

abbrev pub sum_of : NeighborEntry → ℕ
sum_of e = addr_sum e.ether_neighbor e.iface

-- AODV_SC_SEND_OUT_RERR and AODV_SC_UPDATE_RSSI
abbrev pub sc_send_out_rerr : ℕ
sc_send_out_rerr = 3

abbrev pub sc_update_rssi : ℕ
sc_update_rssi = 5

-- AODV_SIGNAL_STRENGTH_INIT is -120.
abbrev pub signal_strength_init : ℤ
signal_strength_init = negsuc 119

abbrev pub neighbor_entry_create : ℕ → ℕ → ℕ → NeighborEntry
neighbor_entry_create self ether_neighbor iface = record {
  self = self;
  ether_neighbor = ether_neighbor;
  iface = iface;
  last_hello_seq = 0;
  max_rssi = signal_strength_init;
}

-- a - b
abbrev pub sub_ℤ : ℤ → ℤ → ℤ
sub_ℤ (pos a) (pos b) = sub_ℕ a b
sub_ℤ (pos a) (negsuc b) = pos (a + b + 1)
sub_ℤ (negsuc a) (pos b) = negsuc (a + b)
sub_ℤ (negsuc a) (negsuc b) = sub_ℕ b a

-- The difference of two values of int8_t as an int8_t.
abbrev pub to_int8 : ℤ → ℤ
to_int8 (pos n) = if ltb n 128 then pos n else negsuc (255 - n)
to_int8 (negsuc n) = if ltb n 128 then negsuc n else pos (255 - n)

-- A write to the entry at an address.
abbrev pub write_entry : ℕ → (NeighborEntry → NeighborEntry) → Nt → Nt
write_entry p f nt = record nt {
  neighbors = record (nt.neighbors) { entries = modify self_of p f nt.neighbors.entries };
}

unfoldable pub reset_rssi : Nt → ℕ → ℕ → Nt × Bool
reset_rssi nt neighbor iface = elim (find sum_of (addr_sum neighbor iface) nt.neighbors.entries) [
  | none ↦ (nt, false)
  | some e ↦ (write_entry e.self (λ x. record x { max_rssi = signal_strength_init }) nt, true)
]

-- The value of `new` and of `diff`, for the average that libdessert has.
abbrev pub new_rssi : ℤ → ℤ
new_rssi avg_rssi = if is_zero avg_rssi then signal_strength_init else avg_rssi

unfoldable pub update_rssi : Nt → ℕ → ℕ → (avg_rssi : ℤ) → Nt × ℤ
update_rssi nt neighbor iface avg_rssi =
    elim (find sum_of (addr_sum neighbor iface) nt.neighbors.entries) [
      | none ↦ (nt, pos 0)
      | some e ↦
          let diff = to_int8 (sub_ℤ e.max_rssi (new_rssi avg_rssi)) in
          if is_neg diff
          then (write_entry e.self (λ x. record x { max_rssi = new_rssi avg_rssi }) nt, diff)
          else (nt, diff)
    ]

-- `hello_interval * (ALLOWED_HELLO_LOST + 1)` milliseconds are an argument.
unfoldable pub nt_init : ℕ → Bool → Option (List NeighborEntry × Timeslot)
nt_init hello_int_msek malloc =
    elim (timeslot_create
      (record { tv_sec = hello_int_msek / 1000; tv_usec = hello_int_msek % 1000 * 1000 }) malloc) [
        | none ↦ none
        | some ts ↦ some ([], ts)
      ]

-- The tasks without those for the neighbors' signal strengths, and how many neighbors there were.
unfoldable pub neighbor_destroy : List NeighborEntry → Schedules → ℕ → Schedules × ℕ
neighbor_destroy [] schedules count = (schedules, count)
neighbor_destroy (e ∷ es) schedules count =
    neighbor_destroy es (dropschedule schedules e.ether_neighbor sc_update_rssi).0
      ((count + 1) % 2 ^ 32)

-- The tables after the reset, the result and `*count_out`. Without memory for a timeslot
-- `nt.ts` is left leading to the old one, which is freed.
unfoldable pub neighbor_reset : Nt → ℕ → Bool → Nt × Bool × ℕ
neighbor_reset nt hello_int_msek malloc =
    let (schedules, count) = neighbor_destroy nt.neighbors.entries nt.neighbors.schedules 0 in
    let neighbors : Neighbors = record {
      entries = [];
      schedules = schedules;
      fault = nt.neighbors.fault;
    } in
    elim (nt_init hello_int_msek malloc) [
      | none ↦ (
        record nt {
          neighbors = record neighbors { fault = true };
          ts = record (nt.ts) { elements = []; size = 0 };
        },
        false,
        count,
      )
      | some (es, ts') ↦ (record nt { neighbors = neighbors; ts = ts' }, true, count)
    ]

module _ ⦃d : Dessert⦄ where
  -- `m_task` says whether there is memory for the task.
  unfoldable pub on_neighbor_timeout : Bool → Timeval → ℕ → Neighbors → Neighbors
  on_neighbor_timeout m_task timestamp object t = elim (find self_of object t.entries) [
    | none ↦ record t { fault = true }
    | some e ↦ record t {
      entries = delete self_of object t.entries;
      schedules =
          (dropschedule
            (addschedule t.schedules timestamp e.ether_neighbor sc_send_out_rerr 0 m_task).0
            e.ether_neighbor sc_update_rssi).0;
    }
  ]

  unfoldable pub nt_cleanup : Bool → Nt → Timeval → Nt
  nt_cleanup m_task nt timestamp =
      let (ts', neighbors') =
        timeslot_purgeobjects (on_neighbor_timeout m_task) nt.ts timestamp nt.neighbors in
      record nt { neighbors = neighbors'; ts = ts' }

  unfoldable pub check2_dneigh : Bool → Nt → ℕ → ℕ → Timeval → Nt × Bool
  check2_dneigh m_task nt neighbor iface timestamp =
      let nt' = nt_cleanup m_task nt timestamp in
      elim (find sum_of (addr_sum neighbor iface) nt'.neighbors.entries) [
        | none ↦ (nt', false)
        | some _ ↦ (nt', true)
      ]

  -- What follows once the neighbor has an entry.
  unfoldable pub hello_from :
      ℤ → Bool → Nt → NeighborEntry → (hello_seq : ℕ) (timestamp now : Timeval) (m_ts : Bool) → Nt
  hello_from threshold m_task nt e hello_seq timestamp now m_ts =
      let nt1 = write_entry e.self (λ x. record x { last_hello_seq = hello_seq }) nt in
      let schedules =
        if is_pos threshold
        then (addschedule nt1.neighbors.schedules timestamp e.ether_neighbor sc_update_rssi e.iface
            m_task).0
        else nt1.neighbors.schedules in
      let (ts', neighbors', _) =
        timeslot_addobject (on_neighbor_timeout m_task) nt1.ts timestamp e.self now m_ts
          (record (nt1.neighbors) { schedules = schedules }) in
      record nt1 { neighbors = neighbors'; ts = ts' }

  unfoldable pub cap2_dneigh :
      ℤ
      → Bool
      → Nt
      → (neighbor hello_seq iface : ℕ) (timestamp now : Timeval) (malloc : Bool × Bool) → Nt × Bool
  cap2_dneigh threshold m_task nt neighbor hello_seq iface timestamp now (m_entry, m_ts) =
      elim (find sum_of (addr_sum neighbor iface) nt.neighbors.entries) [
        | none ↦
            let e = neighbor_entry_create nt.brk neighbor iface in
            let nt1 : Nt = record nt {
              neighbors = record (nt.neighbors) { entries = nt.neighbors.entries ++ e ∷ [] };
              brk = nt.brk + 1;
            } in
            if m_entry
            then (hello_from threshold m_task nt1 e hello_seq timestamp now m_ts, true)
            else (nt, false)
        | some e ↦ (hello_from threshold m_task nt e hello_seq timestamp now m_ts, true)
      ]
