-- ===== src/Aodv/RoutingTable/Defs.antt =====
-- aodv_rt.h and the first part of aodv_rt.c: the state, the removal of an entry, new entries.
use des_routing_algorithms.Common.{
  ℕ, ◌+◌, ◌-◌, ◌^◌, Bool, true, false, ◌||◌, Option, none, some, List, [], ◌∷◌, ◌++◌, if◌then◌else◌,
  find, delete, modify,
}
use des_routing_algorithms.Aodv.Timeval.{Timeval, Dessert}
use des_routing_algorithms.Aodv.Timeslot.{Timeslot, timeslot_create, timeslot_addobject}

-- The bits of `flags`.
pub record Flags : Type 0 where
  pub route_invalid : Bool
  pub next_hop_unknown : Bool
  pub route_warn : Bool
  pub route_local_used : Bool
  pub route_new : Bool

abbrev pub unused : Flags
unused = record {
  route_invalid = false;
  next_hop_unknown = false;
  route_warn = false;
  route_local_used = false;
  route_new = false;
}

abbrev pub local_used : Flags
local_used = record unused { route_local_used = true }

-- `flags |= more`
abbrev pub set_flags : Flags → Flags → Flags
set_flags f more = record {
  route_invalid = f.route_invalid || more.route_invalid;
  next_hop_unknown = f.next_hop_unknown || more.next_hop_unknown;
  route_warn = f.route_warn || more.route_warn;
  route_local_used = f.route_local_used || more.route_local_used;
  route_new = f.route_new || more.route_new;
}

pub record Precursor : Type 0 where
  pub addr : ℕ
  pub iface : ℕ

pub record RtEntry : Type 0 where
  pub self : ℕ
  pub addr : ℕ
  pub next_hop : ℕ
  pub output_iface : ℕ
  pub sequence_number : ℕ
  pub metric : ℕ
  pub hop_count : ℕ
  pub flags : Flags
  pub precursor_list : List Precursor

pub record NhtDest : Type 0 where
  pub destination_host : ℕ
  pub rt_entry : ℕ

pub record NhtEntry : Type 0 where
  pub destination_host_next_hop : ℕ
  pub dest_list : List NhtDest

-- What the purger of the timeslot reaches: `rt.entries` and `nht`.
pub record Tables : Type 0 where
  pub entries : List RtEntry
  pub nht : List NhtEntry
  pub fault : Bool

pub record Rt : Type 0 where
  pub tables : Tables
  pub ts : Timeslot
  pub brk : ℕ

-- The fields that the tables are keyed by.
abbrev pub self_of : RtEntry → ℕ
self_of e = e.self

abbrev pub addr_of : RtEntry → ℕ
addr_of e = e.addr

abbrev pub host_of : NhtDest → ℕ
host_of d = d.destination_host

abbrev pub hop_of : NhtEntry → ℕ
hop_of n = n.destination_host_next_hop

-- `HASH_DEL(nht_entry->dest_list, …)`, and `HASH_DEL(nht, nht_entry)` if nothing is left.
unfoldable pub drop_dest : ℕ → ℕ → List NhtDest → List NhtEntry → List NhtEntry
drop_dest hop host [] nht = delete hop_of hop nht
drop_dest hop host (d ∷ ds) nht = modify hop_of hop (λ n. record n { dest_list = d ∷ ds }) nht

-- The removal of the mapping from a next hop to a destination.
unfoldable pub unlink : ℕ → ℕ → List NhtEntry → List NhtEntry
unlink hop host nht = elim (find hop_of hop nht) [
  | none ↦ nht
  | some n ↦ drop_dest hop host (delete host_of host n.dest_list) nht
]

-- The precursor list goes with the entry.
unfoldable pub purge_rt_entry : Timeval → ℕ → Tables → Tables
purge_rt_entry timestamp object t = elim (find self_of object t.entries) [
  | none ↦ record t { fault = true }
  | some e ↦ record t {
    entries = delete self_of object t.entries;
    nht = if e.flags.next_hop_unknown then t.nht else unlink e.next_hop e.addr t.nht;
  }
]

-- MY_ROUTE_TIMEOUT is 6000 ms.
abbrev pub my_route_timeout : Timeval
my_route_timeout = record { tv_sec = 6; tv_usec = 0 }

unfoldable pub rt_init : Bool → Option Rt
rt_init malloc = elim (timeslot_create my_route_timeout malloc) [
  | none ↦ none
  | some ts ↦
      some (record { tables = record { entries = []; nht = []; fault = false }; ts = ts; brk = 1 })
]

-- The entry after `memset` and the assignments.
abbrev pub new_entry : ℕ → ℕ → RtEntry
new_entry self destination_host = record {
  self = self;
  addr = destination_host;
  next_hop = 0;
  output_iface = 0;
  sequence_number = 0;
  metric = 2 ^ 16 - 1;
  hop_count = 2 ^ 8 - 1;
  flags = record unused { route_invalid = true; next_hop_unknown = true };
  precursor_list = [];
}

module _ ⦃d : Dessert⦄ where
  -- Whether there is memory for the entry and for its element of the timeslot.
  unfoldable pub rt_entry_create :
      Rt → ℕ → Timeval → (now : Timeval) (malloc : Bool × Bool) → Option (Rt × RtEntry)
  rt_entry_create rt destination_host timestamp now (false, _) = none
  rt_entry_create rt destination_host timestamp now (true, malloc) =
      let (ts', tables', _) =
        timeslot_addobject purge_rt_entry rt.ts timestamp rt.brk now malloc rt.tables in
      some
        (record { tables = tables'; ts = ts'; brk = rt.brk + 1 }, new_entry rt.brk destination_host)

  -- The entry for an address, created and added to the table if there is none.
  unfoldable pub find_or_create :
      Rt → ℕ → Timeval → (now : Timeval) (malloc : Bool × Bool) → Option (Rt × RtEntry)
  find_or_create rt host timestamp now malloc = elim (find addr_of host rt.tables.entries) [
    | some e ↦ some (rt, e)
    | none ↦ elim (rt_entry_create rt host timestamp now malloc) [
      | none ↦ none
      | some (rt', e) ↦ some (
        record rt' { tables = record (rt'.tables) { entries = rt'.tables.entries ++ e ∷ [] } },
        e,
      )
    ]
  ]
