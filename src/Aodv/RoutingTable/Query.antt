-- ===== src/Aodv/RoutingTable/Query.antt =====
-- aodv_rt.c: reading, invalidating and annotating single entries.
use des_routing_algorithms.Common.{
  ℕ, ◌-◌, ◌^◌, Bool, true, false, Option, none, some, [], ◌∷◌, ◌++◌, if◌then◌else◌, find, is_pos,
}
use des_routing_algorithms.Aodv.Helper.{comp_u32}
use des_routing_algorithms.Aodv.RoutingTable.Defs.{Precursor, RtEntry, Rt, addr_of}
use des_routing_algorithms.Aodv.RoutingTable.Capture.{write_entry}

-- An entry whose next hop is known.
abbrev pub known_entry : Rt → ℕ → Option RtEntry
known_entry rt host = elim (find addr_of host rt.tables.entries) [
  | none ↦ none
  | some e ↦ if e.flags.next_hop_unknown then none else some e
]

unfoldable pub getnexthop : Rt → ℕ → Option ℕ
getnexthop rt host = elim (known_entry rt host) [ none ↦ none | some e ↦ some e.next_hop ]

-- These write a value in either case: the number, and the result.
unfoldable pub get_destination_sequence_number : Rt → ℕ → ℕ × Bool
get_destination_sequence_number rt host = elim (known_entry rt host) [
  | none ↦ (0, false)
  | some e ↦ (e.sequence_number, true)
]

unfoldable pub get_hopcount : Rt → ℕ → ℕ × Bool
get_hopcount rt host = elim (known_entry rt host) [
  | none ↦ (2 ^ 8 - 1, false)
  | some e ↦ (e.hop_count, true)
]

unfoldable pub get_metric : Rt → ℕ → ℕ × Bool
get_metric rt host = elim (known_entry rt host) [
  | none ↦ (2 ^ 16 - 1, false)
  | some e ↦ (e.metric, true)
]

unfoldable pub get_warn_status : Rt → ℕ → Bool
get_warn_status rt host = elim (known_entry rt host) [ none ↦ false | some e ↦ e.flags.route_warn ]

-- `flags |= AODV_FLAGS_ROUTE_INVALID`
abbrev pub invalidate : RtEntry → RtEntry
invalidate e = record e { flags = record (e.flags) { route_invalid = true } }

unfoldable pub markrouteinv : Rt → ℕ → ℕ → Rt × Bool
markrouteinv rt host seq = elim (find addr_of host rt.tables.entries) [
  | none ↦ (rt, false)
  | some e ↦
      if is_pos (comp_u32 e.sequence_number seq)
      then (rt, false)
      else (write_entry e.self invalidate rt, true)
]

abbrev pub precursor_key : Precursor → ℕ
precursor_key x = x.addr

unfoldable pub add_precursor : Rt → (destination_addr precursor_addr iface : ℕ) → Rt × Bool
add_precursor rt destination precursor iface = elim (find addr_of destination rt.tables.entries) [
  | none ↦ (rt, false)
  | some e ↦ elim (find precursor_key precursor e.precursor_list) [
    | some _ ↦ (rt, false)
    | none ↦ (
      write_entry e.self
          (λ x. record x {
            precursor_list = x.precursor_list ++ record { addr = precursor; iface = iface } ∷ [];
          })
          rt,
      true,
    )
  ]
]
