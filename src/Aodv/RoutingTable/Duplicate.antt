-- ===== src/Aodv/RoutingTable/Duplicate.antt =====
-- A RREQ that is also used as a RREP, as `aodv_handle_rreq` does.
use des_routing_algorithms.Common.{ℕ, ◌≡◌, true, Option, none, some, find, Unique, ℤ}
use des_routing_algorithms.Aodv.Helper.{MetricType}
use des_routing_algorithms.Aodv.Timeval.{Timeval, Dessert}
use des_routing_algorithms.Aodv.RoutingTable.Defs.{RtEntry, Rt, self_of, addr_of}
use des_routing_algorithms.Aodv.RoutingTable.Capture.{
  CaptResult, capt_old, capt_rreq, capt_rrep, write_entry, reverse_route,
}

module _ {ℓ} ⦃d : Dessert⦄ {N : Type ℓ} (reset : ℕ → ℕ → N → N) (threshold : ℤ)
    (type : MetricType) where
  -- `aodv_db_capt_rrep` with the number 0, for a RREQ that is not old.
  unfoldable pub reply_route :
      Option CaptResult → Rt → N → (orig prev_hop iface metric hop_count : ℕ) → Timeval → Rt × N
  reply_route none rt nt orig prev_hop iface metric hop_count now = (rt, nt)
  reply_route (some capt_old) rt nt orig prev_hop iface metric hop_count now = (rt, nt)
  reply_route (some _) rt nt orig prev_hop iface metric hop_count now =
      let (rt', nt', _) =
        capt_rrep reset threshold rt nt orig prev_hop iface 0 metric hop_count now now
          (true, true) in
      (rt', nt')

  -- What `aodv_handle_rreq` does to the routing table for one copy of a RREQ, and how it was judged.
  unfoldable pub hear_rreq :
      Rt
      → N
      → (dest orig prev_hop iface seq metric hop_count : ℕ) → Timeval
      → Rt × N × Option CaptResult
  hear_rreq rt nt dest orig prev_hop iface seq metric hop_count now =
      let (rt1, result) =
        capt_rreq type rt dest orig prev_hop iface seq metric hop_count now now (true, true)
          (true, true) in
      let (rt2, nt2) = reply_route result rt1 nt orig prev_hop iface metric hop_count now in
      (rt2, nt2, result)

  module _ (rt : Rt) (nt : N) (dest orig prev_hop iface seq metric hop_count : ℕ) (now : Timeval)
      (x e : RtEntry) (unique : Unique self_of rt.tables.entries)
      (hx : find addr_of dest rt.tables.entries ≡ some x)
      (he : find addr_of orig rt.tables.entries ≡ some e) where
    abbrev used : Rt
    used = write_entry e.self (reverse_route prev_hop iface seq metric hop_count) rt

    abbrev reversed : RtEntry
    reversed = reverse_route prev_hop iface seq metric hop_count e
