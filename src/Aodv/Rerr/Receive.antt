-- ===== src/Aodv/Rerr/Receive.antt =====
-- pipeline/aodv_pipeline.c: what `aodv_handle_rerr` does with a RERR.
use des_routing_algorithms.Common.{
  ℕ, Bool, false, ◌||◌, Option, none, some, List, [], ◌∷◌, if◌then◌else◌, ◌==◌,
}
use des_routing_algorithms.Aodv.RoutingTable.Defs.{Rt}
use des_routing_algorithms.Aodv.RoutingTable.Query.{getnexthop, markrouteinv}
use des_routing_algorithms.Aodv.RoutingTable.Breaks.{LinkBreak}
use des_routing_algorithms.Aodv.Rerr.{Rerr, split_at}

-- MAX_MESH_IFACES_COUNT
abbrev pub max_mesh_ifaces_count : ℕ
max_mesh_ifaces_count = 8

-- The loop over the interfaces of the neighbor; the result says whether a route was marked.
unfoldable pub mark_over : List ℕ → ℕ → LinkBreak → Rt → Rt × Bool
mark_over [] next_hop dest rt = (rt, false)
mark_over (iface ∷ ifaces) next_hop dest rt =
    let (rt1, inv_route) =
      if iface == next_hop then markrouteinv rt dest.host dest.sequence_number else (rt, false) in
    let (rt2, more) = mark_over ifaces next_hop dest rt1 in (rt2, inv_route || more)

unfoldable pub handle_dest : List ℕ → LinkBreak → Rt → Rt × Bool
handle_dest ifaces dest rt = elim (getnexthop rt dest.host) [
  | none ↦ (rt, false)
  | some next_hop ↦ mark_over ifaces next_hop dest rt
]

-- The loop over the destinations of an extension.
unfoldable pub handle_dests : List ℕ → List LinkBreak → Rt → Rt × Bool
handle_dests ifaces [] rt = (rt, false)
handle_dests ifaces (dest ∷ ds) rt =
    let (rt1, marked) = handle_dest ifaces dest rt in
    let (rt2, more) = handle_dests ifaces ds rt1 in (rt2, marked || more)

-- The loop over the extensions.
unfoldable pub handle_exts : List ℕ → List (List LinkBreak) → Rt → Rt × Bool
handle_exts ifaces [] rt = (rt, false)
handle_exts ifaces (ds ∷ exts) rt =
    let (rt1, marked) = handle_dests ifaces ds rt in
    let (rt2, more) = handle_exts ifaces exts rt1 in (rt2, marked || more)

-- The table, and the message that is sent on, with the addresses of the own interfaces.
unfoldable pub handle_rerr : (my_ifaces : List ℕ) → Rerr → Rt → Rt × Option Rerr
handle_rerr my_ifaces msg rt =
    let (rt', rebroadcast_rerr) = handle_exts msg.ifaces msg.dest_exts rt in
    (
      rt',
      if rebroadcast_rerr
          then some (record msg { ifaces = (split_at max_mesh_ifaces_count my_ifaces).0 })
          else none,
    )
