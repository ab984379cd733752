-- ===== src/Aodv/RoutingTable/Dangling.antt =====
-- The table of next hops after a RREQ has changed an entry.
use des_routing_algorithms.Common.{
  ℕ, ◌≡◌, ◌≢◌, refl, true, false, none, some, List, [], ◌∷◌, find, arith, Option-cases, inl, inr,
  modify-Unique_by, find-modify_self, modify,
}
use des_routing_algorithms.Aodv.Timeval.{Timeval}
use des_routing_algorithms.Aodv.RoutingTable.Defs.{
  RtEntry, Tables, NhtDest, Rt, self_of, addr_of, hop_of, host_of, purge_rt_entry,
}
use des_routing_algorithms.Aodv.RoutingTable.Capture.{reverse_route, write_entry}
use des_routing_algorithms.Aodv.RoutingTable.Breaks.{collect_dests, get_destlist}
use des_routing_algorithms.Aodv.RoutingTable.Purge.{IsSound, at, at-purge_rt_entry}
use des_routing_algorithms.Aodv.RoutingTable.Hops.{target, pointer, IsNht, target-unlink}
use des_routing_algorithms.Aodv.RoutingTable.Links.{IsLinked}

-- Following an address where no entry lies is a fault.
collect_dests-fault :
    (host : ℕ) (xs : List NhtDest) (t : Tables) (p : ℕ)
    → pointer (find host_of host xs) ≡ some p
    → at p t ≡ none
    → (collect_dests xs t).0.fault ≡ true
unfolding collect_dests
collect_dests-fault host [] t p h k = cc
collect_dests-fault host (x ∷ xs) t p h k = ground (arith, collect_dests-fault host xs t p)

get_destlist-fault :
    (t : Tables) (hop host p : ℕ)
    → target hop host t.nht ≡ some p
    → at p t ≡ none
    → (get_destlist t hop).0.fault ≡ true
unfolding get_destlist
get_destlist-fault t hop host p h k = elim (Option-cases (find hop_of hop t.nht)) [
  | inl e ↦ absurd (ground arith)
  | inr (n, e) ↦ rw (e, get_destlist) (collect_dests-fault host n.dest_list t p (ground arith) k)
]

-- A write that keeps the keys.
written-IsSound :
    (f : RtEntry → RtEntry)
    → ((x : RtEntry) → (f x).self ≡ x.self)
    → ((x : RtEntry) → (f x).addr ≡ x.addr)
    → (p : ℕ) (t : Tables) → IsSound t
    → IsSound (record t { entries = modify self_of p f t.entries })
written-IsSound f same_self same_addr p t v = record {
  no_fault = v.no_fault;
  selves = modify-Unique_by self_of self_of f same_self p t.entries v.selves;
  addrs = modify-Unique_by addr_of self_of f same_addr p t.entries v.addrs;
}

-- The expiry of an entry whose next hop was overwritten leaves the list of the old next hop.
purged_reversed :
    (prev_hop iface seq metric hop_count : ℕ) (e : RtEntry) (ts : Timeval) (t : Tables)
    → at e.self t ≡ some (reverse_route prev_hop iface seq metric hop_count e)
    → e.flags.next_hop_unknown ≡ false
    → prev_hop ≢ e.next_hop
    → IsNht t.nht
    → target e.next_hop e.addr t.nht ≡ some e.self
    → target e.next_hop e.addr (purge_rt_entry ts e.self t).nht ≡ some e.self
unfolding purge_rt_entry
purged_reversed prev_hop iface seq metric hop_count e ts t found known other n listed =
    rw (found, purge_rt_entry, known)
      (ground (arith, target-unlink prev_hop e.addr e.next_hop e.addr t.nht n))

-- In a sound table whose addresses lead where they should, a RREQ that is used for an entry
-- over another neighbor than its known and listed next hop writes the next hop of the entry
-- only. When the entry then expires, its address stays listed for the old next hop though no
-- entry lies there, and the list of destinations over that next hop follows it.
pub reverse_route-dangles :
    (rt : Rt) (e : RtEntry) (prev_hop iface seq metric hop_count : ℕ) (ts : Timeval)
    → IsSound rt.tables
    → IsLinked rt.tables
    → at e.self rt.tables ≡ some e
    → e.flags.next_hop_unknown ≡ false
    → target e.next_hop e.addr rt.tables.nht ≡ some e.self
    → prev_hop ≢ e.next_hop
    → let rt' = write_entry e.self (reverse_route prev_hop iface seq metric hop_count) rt in
      let t = purge_rt_entry ts e.self rt'.tables in
      (target e.next_hop e.addr t.nht ≡ some e.self)
      × (at e.self t ≡ none)
      × ((get_destlist t e.next_hop).0.fault ≡ true)
reverse_route-dangles rt e prev_hop iface seq metric hop_count ts v l k known listed other =
    let rt' = write_entry e.self (reverse_route prev_hop iface seq metric hop_count) rt in
    let t = purge_rt_entry ts e.self rt'.tables in
    let sound =
      written-IsSound (reverse_route prev_hop iface seq metric hop_count) (λ x. refl) (λ x. refl)
        e.self rt.tables v in
    let found : at e.self rt'.tables ≡ some (reverse_route prev_hop iface seq metric hop_count e) =
      ground (
        arith,
        find-modify_self self_of (reverse_route prev_hop iface seq metric hop_count) (λ x. refl)
            e.self rt.tables.entries,
      ) in
    let gone : at e.self t ≡ none =
      ground (arith, at-purge_rt_entry ts e.self e.self rt'.tables sound) in
    let kept : target e.next_hop e.addr t.nht ≡ some e.self =
      purged_reversed prev_hop iface seq metric hop_count e ts rt'.tables found known other l.nht
        listed in
    (kept, gone, get_destlist-fault t e.next_hop e.addr e.self kept gone)
