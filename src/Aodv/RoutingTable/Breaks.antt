-- ===== src/Aodv/RoutingTable/Breaks.antt =====
-- aodv_rt.c: the routes over a next hop, which the table of next hops lists, and all routes.
use des_routing_algorithms.Common.{
  ℕ, ◌+◌, ◌%◌, ◌^◌, Bool, true, false, ◌||◌, not, Option, none, some, List, [], ◌∷◌, if◌then◌else◌,
  find, delete, modify,
}
use des_routing_algorithms.Aodv.RoutingTable.Defs.{RtEntry, NhtDest, Tables, Rt, self_of, hop_of}
use des_routing_algorithms.Aodv.RoutingTable.Query.{invalidate}

-- `dest->rt_entry`, followed for reading and for writing.
abbrev pub faulted : Tables → Tables
faulted t = record t { fault = true }

abbrev pub update_at : ℕ → (RtEntry → RtEntry) → Tables → Tables
update_at p f t = elim (find self_of p t.entries) [
  | none ↦ faulted t
  | some _ ↦ record t { entries = modify self_of p f t.entries }
]

-- `flags |= AODV_FLAGS_ROUTE_WARN`
abbrev pub set_warn : RtEntry → RtEntry
set_warn e = record e { flags = record (e.flags) { route_warn = true } }

-- `aodv_link_break_element_t`
pub record LinkBreak : Type 0 where
  pub host : ℕ
  pub sequence_number : ℕ

abbrev pub link_break : RtEntry → LinkBreak
link_break e = record { host = e.addr; sequence_number = e.sequence_number }

unfoldable pub collect_dests : List NhtDest → Tables → Tables × List LinkBreak
collect_dests [] t = (t, [])
collect_dests (x ∷ xs) t =
    let (t', rest) = collect_dests xs t in
    elim (find self_of x.rt_entry t.entries) [
      | none ↦ (faulted t', rest)
      | some e ↦ (t', link_break e ∷ rest)
    ]

-- The destinations are appended to a list that is empty at each call.
unfoldable pub get_destlist : Tables → ℕ → Tables × Option (List LinkBreak)
get_destlist t next_hop = elim (find hop_of next_hop t.nht) [
  | none ↦ (t, none)
  | some n ↦ let (t', l) = collect_dests n.dest_list t in (t', some l)
]

unfoldable pub invalidate_dests : List NhtDest → Tables → Tables
invalidate_dests [] t = t
invalidate_dests (x ∷ xs) t = invalidate_dests xs (update_at x.rt_entry invalidate t)

unfoldable pub inv_over_nexthop : Tables → ℕ → Tables × Bool
inv_over_nexthop t next_hop = elim (find hop_of next_hop t.nht) [
  | none ↦ (t, false)
  | some n ↦ (invalidate_dests n.dest_list t, true)
]

unfoldable pub remove_nexthop : Tables → ℕ → Tables × Bool
remove_nexthop t next_hop = elim (find hop_of next_hop t.nht) [
  | none ↦ (t, false)
  | some _ ↦ (record t { nht = delete hop_of next_hop t.nht }, true)
]

unfoldable pub active_routes : List RtEntry → List LinkBreak
active_routes [] = []
active_routes (e ∷ es) =
    let rest = active_routes es in
    if e.flags.route_local_used then record { host = e.addr; sequence_number = 0 } ∷ rest else rest

unfoldable pub get_active_routes : Rt → List LinkBreak
get_active_routes rt = active_routes rt.tables.entries

-- All entries become invalid; the second part is what is counted.
unfoldable pub invalidate_all : List RtEntry → ℕ → List RtEntry × ℕ
invalidate_all [] count = ([], count)
invalidate_all (e ∷ es) count =
    let (es', count') = invalidate_all es ((count + 1) % 2 ^ 32) in (invalidate e ∷ es', count')

unfoldable pub routing_reset : Rt → Rt × ℕ
routing_reset rt =
    let (es, count) = invalidate_all rt.tables.entries 0 in
    (record rt { tables = record (rt.tables) { entries = es } }, count)

-- A route over the next hop is warned of if it is used here and was not warned of before.
unfoldable pub warn_dests : List NhtDest → Tables → Tables × List LinkBreak
warn_dests [] t = (t, [])
warn_dests (x ∷ xs) t = elim (find self_of x.rt_entry t.entries) [
  | none ↦ warn_dests xs (faulted t)
  | some e ↦
      let rest = warn_dests xs t in
      let warned = warn_dests xs (update_at x.rt_entry set_warn t) in
      if e.flags.route_warn || not e.flags.route_local_used
      then rest
      else (warned.0, link_break e ∷ warned.1)
]

unfoldable pub get_warn_endpoints : Tables → ℕ → Tables × Option (List LinkBreak)
get_warn_endpoints t neighbor = elim (find hop_of neighbor t.nht) [
  | none ↦ (t, none)
  | some n ↦ elim n.dest_list [
    | [] ↦ (t, none)
    | x ∷ xs ↦ let (t', l) = warn_dests (x ∷ xs) t in (t', some l)
  ]
]
