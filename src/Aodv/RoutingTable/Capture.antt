-- ===== src/Aodv/RoutingTable/Capture.antt =====
-- aodv_rt.c: what a RREQ and a RREP do to the table, and the look-up of a route for a packet.
use des_routing_algorithms.Common.{
  ℕ, Bool, true, false, ◌||◌, ◌&&◌, not, Option, none, some, List, [], ◌∷◌, ◌++◌, if◌then◌else◌,
  find, modify, ℤ, is_pos, is_neg, is_zero,
}
use des_routing_algorithms.Aodv.Helper.{comp_u32, MetricType, comp_metric}
use des_routing_algorithms.Aodv.Timeval.{Timeval, Dessert}
use des_routing_algorithms.Aodv.Timeslot.{timeslot_addobject, timeslot_purgeobjects}
use des_routing_algorithms.Aodv.RoutingTable.Defs.{
  Flags, set_flags, RtEntry, NhtDest, NhtEntry, Rt, self_of, addr_of, host_of, hop_of, unlink,
  purge_rt_entry, find_or_create,
}

-- `aodv_capt_rreq_result_t`
pub data CaptResult : Type 0 where
  capt_old capt_new capt_metric_hit : CaptResult

-- A write to the entry at an address.
abbrev pub write_entry : ℕ → (RtEntry → RtEntry) → Rt → Rt
write_entry p f rt = record rt {
  tables = record (rt.tables) { entries = modify self_of p f rt.tables.entries };
}

-- The route to the originator after a RREQ that is used; `flags &= ~AODV_FLAGS_ROUTE_NEW`.
abbrev pub reverse_route : ℕ → ℕ → ℕ → ℕ → ℕ → RtEntry → RtEntry
reverse_route prev_hop iface seq metric hop_count e = record e {
  next_hop = prev_hop;
  output_iface = iface;
  sequence_number = seq;
  metric = metric;
  hop_count = hop_count;
  flags = record (e.flags) { route_new = false };
}

-- Whether a RREQ with these values is new, a better way for a known one, or old.
unfoldable pub judge_rreq : MetricType → RtEntry → (seq metric : ℕ) → CaptResult
judge_rreq type orig seq metric =
    let seq_num_cmp = comp_u32 orig.sequence_number seq in
    let newer = is_neg seq_num_cmp in
    let same_seq_num = is_zero seq_num_cmp in
    let metric_hit = is_neg (comp_metric type orig.metric metric) in
    if newer || (same_seq_num && metric_hit)
    then (if same_seq_num && metric_hit then capt_metric_hit else capt_new)
    else capt_old

-- The route is written unless the RREQ is old.
unfoldable pub update_route : CaptResult → ℕ → (RtEntry → RtEntry) → Rt → Rt
update_route capt_old p f rt = rt
update_route _ p f rt = write_entry p f rt

-- The flags, addresses and numbers of the entry after a RREP that is used.
abbrev pub forward_route : ℕ → ℕ → ℕ → ℕ → ℕ → RtEntry → RtEntry
forward_route next_hop iface seq metric hop_count e = record e {
  next_hop = next_hop;
  output_iface = iface;
  sequence_number = seq;
  metric = metric;
  hop_count = hop_count;
  flags = record (e.flags) { next_hop_unknown = false; route_invalid = false; route_warn = false };
}

-- The mapping from the next hop to the destination, made or set to the entry at `p`.
abbrev pub put_dest : ℕ → ℕ → List NhtDest → List NhtDest
put_dest host p ds = elim (find host_of host ds) [
  | none ↦ ds ++ record { destination_host = host; rt_entry = p } ∷ []
  | some _ ↦ modify host_of host (λ x. record x { rt_entry = p }) ds
]

abbrev pub with_hop : ℕ → List NhtEntry → List NhtEntry
with_hop hop nht = elim (find hop_of hop nht) [
  | none ↦ nht ++ record { destination_host_next_hop = hop; dest_list = [] } ∷ []
  | some _ ↦ nht
]

unfoldable pub link : ℕ → ℕ → ℕ → List NhtEntry → List NhtEntry
link hop host p nht =
    modify hop_of hop (λ n. record n { dest_list = put_dest host p n.dest_list }) (with_hop hop nht)

-- The mutation of a route by a RREP that is used. `unlink` is done if the old next hop was known.
unfoldable pub use_rrep : Rt → RtEntry → (next_hop iface seq metric hop_count : ℕ) → Rt
use_rrep rt e next_hop iface seq metric hop_count = record rt {
  tables = record (rt.tables) {
    entries =
        modify self_of e.self (forward_route next_hop iface seq metric hop_count) rt.tables.entries;
    nht = link next_hop e.addr e.self (
        if e.flags.next_hop_unknown then rt.tables.nht else unlink e.next_hop e.addr rt.tables.nht);
  };
}

module _ ⦃d : Dessert⦄ where
  -- `none` where the function returns false, with the table as it is then.
  unfoldable pub capt_rreq :
      MetricType
      → Rt
      → (destination_host originator_host prev_hop iface seq metric hop_count : ℕ)
      → (timestamp now : Timeval) (malloc_dest malloc_orig : Bool × Bool) → Rt × Option CaptResult
  capt_rreq type rt destination_host originator_host prev_hop iface seq metric hop_count timestamp
        now malloc_dest malloc_orig =
      elim (find_or_create rt destination_host timestamp now malloc_dest) [
        | none ↦ (rt, none)
        | some (rt1, _) ↦ elim (find_or_create rt1 originator_host timestamp now malloc_orig) [
          | none ↦ (rt1, none)
          | some (rt2, orig) ↦
              let result = judge_rreq type orig seq metric in
              (
                update_route result orig.self (reverse_route prev_hop iface seq metric hop_count)
                    rt2,
                some result,
              )
        ]
      ]

  -- `reset_rssi` is `db_nt_reset_rssi` on the neighbor table, of type `N`, which is called if
  -- `signal_strength_threshold` is positive.
  unfoldable pub capt_rrep {ℓ} :
      {N : Type ℓ} (reset_rssi : ℕ → ℕ → N → N) (signal_strength_threshold : ℤ)
      → Rt
      → N
      → (destination_host next_hop iface seq metric hop_count : ℕ)
      → (timestamp now : Timeval) (malloc : Bool × Bool) → Rt × N × Bool
  capt_rrep reset_rssi threshold rt nt destination_host next_hop iface seq metric hop_count
        timestamp now malloc =
      elim (find_or_create rt destination_host timestamp now malloc) [
        | none ↦ (rt, nt, false)
        | some (rt1, e) ↦
            let nt' = if is_pos threshold then reset_rssi next_hop iface nt else nt in
            let next_hop_known = not e.flags.next_hop_unknown in
            let old = is_pos (comp_u32 e.sequence_number seq) in
            if next_hop_known && old
            then (rt1, nt', false)
            else (use_rrep rt1 e next_hop iface seq metric hop_count, nt', true)
      ]

  -- The next hop and the interface, if there is a valid route.
  unfoldable pub getroute2dest :
      Rt
      → (destination_host : ℕ) (timestamp now : Timeval) (flags : Flags) (malloc : Bool)
      → Rt × Option (ℕ × ℕ)
  getroute2dest rt destination_host timestamp now flags malloc =
      elim (find addr_of destination_host rt.tables.entries) [
        | none ↦ (rt, none)
        | some e ↦
            if e.flags.next_hop_unknown || e.flags.route_invalid
            then (rt, none)
            else let rt1 =
                write_entry e.self (λ x. record x { flags = set_flags x.flags flags }) rt in
              let (ts', tables', _) =
                timeslot_addobject purge_rt_entry rt1.ts timestamp e.self now malloc rt1.tables in
              (record rt1 { tables = tables'; ts = ts' }, some (e.next_hop, e.output_iface))
      ]

  unfoldable pub rt_cleanup : Rt → Timeval → Rt
  rt_cleanup rt timestamp =
      let (ts', tables') = timeslot_purgeobjects purge_rt_entry rt.ts timestamp rt.tables in
      record rt { tables = tables'; ts = ts' }
