-- ===== src/Aodv/RoutingTable/Forwarding.antt =====
-- The routes that packets are sent over.
use mathlib.Core.Path.{subst}
use des_routing_algorithms.Common.{
  ℕ, ◌+◌, ◌-◌, ◌^◌, ◌<◌, ◌≡◌, ◌≢◌, refl, ap, ◌∙◌, Bool, true, false, ◌||◌, Option, none, some,
  arith, if◌then◌else◌, ◌==◌, Option-cases, Bool-cases, inl, inr, length, modify, ℤ, is_pos,
  found_by,
}
use des_routing_algorithms.Aodv.Helper.{comp_u32}
use des_routing_algorithms.Aodv.Timeval.{Timeval, Dessert, micros}
use des_routing_algorithms.Aodv.Timeslot.{
  TsElement, Timeslot, timeslot_addobject, timeslot_addobject_varpurge,
}
use des_routing_algorithms.Aodv.Timeslot.Purge.{purge_all}
use des_routing_algorithms.Aodv.Timeslot.Order.{live, expired}
use des_routing_algorithms.Aodv.Timeslot.Lookup.{find-live, find-expired}
use des_routing_algorithms.Aodv.Timeslot.Valid as Slot
use des_routing_algorithms.Aodv.Timeslot.Add as Add
use des_routing_algorithms.Aodv.RoutingTable.Defs.{
  RtEntry, Tables, Rt, Flags, self_of, addr_of, purge_rt_entry, set_flags,
}
use des_routing_algorithms.Aodv.RoutingTable.Capture.{write_entry, capt_rrep, getroute2dest}
use des_routing_algorithms.Aodv.RoutingTable.Query.{invalidate, markrouteinv}
use des_routing_algorithms.Aodv.RoutingTable.Purge.{at, entry_for, Owned}
use des_routing_algorithms.Aodv.RoutingTable.Valid.{IsValid, purged-IsSound, at-purged}
use des_routing_algorithms.Aodv.RoutingTable.Routes.{
  write_entry-IsValid, entry_for-write_entry, Captured, capt_rrep-Captured,
}

-- The route that a packet for a host may take.
abbrev pub route_of : Option RtEntry → Option (ℕ × ℕ)
route_of none = none
route_of (some e) =
    if e.flags.next_hop_unknown || e.flags.route_invalid
    then none
    else some (e.next_hop, e.output_iface)

module _ ⦃d : Dessert⦄ where
  -- Refreshing an entry that the table has.
  module _ (rt : Rt) (timestamp now : Timeval) (o : ℕ) (v : IsValid rt)
      (there : at o rt.tables ≢ none) where
    abbrev refreshed : Timeslot × Tables × Bool → Rt
    refreshed r = record rt { tables = r.1; ts = r.0 }

    abbrev element : TsElement
    element = record { purge_time = d.timevaladd2 rt.ts.purge_timeout timestamp; object = o }

    module _ (u : Timeslot) (w : Slot.IsValid u)
        (l : (p : ℕ)
          → Slot.lookup p u ≡ (if o == p then some element else Slot.lookup p rt.ts)) where
      still_owned : (p : ℕ) → at p rt.tables ≡ none → Slot.lookup p u ≡ none
      still_owned p h = ground (arith, l p, v.owned p h)

      expired-Owned : Owned (expired (micros now) u.elements) rt.tables
      expired-Owned p h =
          ground (arith, find-expired p (micros now) u.elements w.unique, still_owned p h)

      purge_refreshed : IsValid (
          refreshed (
            record u {
              elements = live (micros now) u.elements;
              size = u.size - length (expired (micros now) u.elements);
            },
            purge_all purge_rt_entry rt.tables (expired (micros now) u.elements),
            true,
          ))
      purge_refreshed = record {
        slot = Slot.purged-IsValid u (micros now) w;
        sound = purged-IsSound u rt.tables (micros now) w v.sound expired-Owned;
        fresh = λ p h.
            ground
              (arith, at-purged u rt.tables (micros now) w v.sound expired-Owned p, v.fresh p h);
        owned = λ p h. ground (
          arith,
          at-purged u rt.tables (micros now) w v.sound expired-Owned p,
          find-live p (micros now) u.elements w.unique,
          still_owned p,
        );
      }

    refreshed-IsValid :
        (malloc : Bool)
        → length rt.ts.elements + 1 < 2 ^ 32
        → IsValid
            (refreshed (timeslot_addobject purge_rt_entry rt.ts timestamp o now malloc rt.tables))
    unfolding timeslot_addobject timeslot_addobject_varpurge
    refreshed-IsValid false h = v
    refreshed-IsValid true h =
        Add.addobject_varpurge_cases purge_rt_entry rt.ts timestamp rt.ts.purge_timeout now o v.slot
          (λ r. IsValid (refreshed r)) rt.tables h
          (λ e. record {
            slot = record {
              desc = (tt, tt);
              unique = (refl, tt);
              counted = refl;
              fits = omega arith;
            };
            sound = v.sound;
            fresh = v.fresh;
            owned = λ p k. ground arith;
          })
          (λ u w l n t. purge_refreshed u w l)

  pub getroute2dest_route :
      (rt : Rt) (host : ℕ) (timestamp now : Timeval) (flags : Flags) (malloc : Bool)
      → (getroute2dest rt host timestamp now flags malloc).1 ≡ route_of (entry_for host rt.tables)
  unfolding getroute2dest
  getroute2dest_route rt host timestamp now flags malloc =
      elim (Option-cases (entry_for host rt.tables)) [
        | inl k ↦ rw (k, getroute2dest)
        | inr (e, k) ↦ rw (k, getroute2dest) (ground arith)
      ]

  -- Looking up a route, which refreshes it and purges what has expired, keeps a valid table
  -- valid where its timeslot has room for an element.
  pub getroute2dest-IsValid :
      (rt : Rt) (host : ℕ) (timestamp now : Timeval) (flags : Flags) (malloc : Bool)
      → IsValid rt
      → length rt.ts.elements + 1 < 2 ^ 32
      → IsValid (getroute2dest rt host timestamp now flags malloc).0
  unfolding getroute2dest
  getroute2dest-IsValid rt host timestamp now flags malloc v h =
      elim (Option-cases (entry_for host rt.tables)) [
        | inl k ↦ rw (k, getroute2dest) v
        | inr (e, k) ↦ elim (Bool-cases (e.flags.next_hop_unknown || e.flags.route_invalid)) [
          | inl b ↦ rw (k, getroute2dest, b) v
          | inr b ↦
              let mark = λ (x : RtEntry). record x { flags = set_flags x.flags flags } in
              let w : IsValid (write_entry e.self mark rt) =
                write_entry-IsValid mark (λ x. refl) (λ x. refl) e.self rt v in
              rw (k, getroute2dest, b)
                (refreshed-IsValid (write_entry e.self mark rt) timestamp now e.self w
                  (found_by addr_of self_of host (modify self_of e.self mark rt.tables.entries)
                    (mark e) (entry_for-write_entry mark (λ x. refl) (λ x. refl) host rt e v k))
                  malloc h)
        ]
      ]

  -- A packet for a host whose RREP a valid table has used takes the way that the RREP came.
  -- The timeslot has room for an element, and an entry that is made does not expire at once.
  pub getroute2dest-capt_rrep {ℓ} :
      {N : Type ℓ} (reset : ℕ → ℕ → N → N) (threshold : ℤ) (rt : Rt) (nt : N)
      (host next_hop iface seq metric hop_count : ℕ) (timestamp now now' : Timeval)
      (malloc : Bool × Bool) (flags : Flags) (malloc' : Bool)
      → IsValid rt
      → micros now < micros rt.ts.purge_timeout + micros timestamp
      → length rt.ts.elements + 1 < 2 ^ 32
      → (capt_rrep reset threshold rt nt host next_hop iface seq metric hop_count timestamp now
          malloc).2
        ≡ true
      → let rt' =
          (capt_rrep reset threshold rt nt host next_hop iface seq metric hop_count timestamp now
            malloc).0 in
        (getroute2dest rt' host now' now' flags malloc').1 ≡ some (next_hop, iface)
  getroute2dest-capt_rrep reset threshold rt nt host next_hop iface seq metric hop_count timestamp
        now now' malloc flags malloc' v later h used =
      let after : Rt =
        (capt_rrep reset threshold rt nt host next_hop iface seq metric hop_count timestamp now
          malloc).0 in
      let captured = subst (Captured rt host next_hop iface seq metric hop_count after) used (
        capt_rrep-Captured reset threshold rt nt host next_hop iface seq metric hop_count timestamp
          now malloc v later h) in
      getroute2dest_route after host now' now' flags malloc' ∙ ap route_of captured.1.1

  -- Marking a route invalid keeps a valid table valid. A route that was marked is not used
  -- for packets; if none was marked, packets take the way they took before.
  pub getroute2dest-markrouteinv :
      (rt : Rt) (host seq : ℕ) (timestamp now : Timeval) (flags : Flags) (malloc : Bool)
      → IsValid rt
      → let (rt', marked) = markrouteinv rt host seq in
        IsValid rt'
        × (getroute2dest rt' host timestamp now flags malloc).1
          ≡ (if marked then none else route_of (entry_for host rt.tables))
  unfolding markrouteinv
  getroute2dest-markrouteinv rt host seq timestamp now flags malloc v =
      elim (Option-cases (entry_for host rt.tables)) [
        | inl k ↦
            rw (k, markrouteinv)
              (v, getroute2dest_route rt host timestamp now flags malloc ∙ ap route_of k)
        | inr (e, k) ↦ elim (Bool-cases (is_pos (comp_u32 e.sequence_number seq))) [
          | inl b ↦
              rw (k, markrouteinv, b)
                (v, getroute2dest_route rt host timestamp now flags malloc ∙ ap route_of k)
          | inr b ↦
              rw (k, markrouteinv, b)
                (
                  write_entry-IsValid invalidate (λ x. refl) (λ x. refl) e.self rt v,
                  getroute2dest_route (write_entry e.self invalidate rt) host timestamp now flags
                        malloc
                      ∙ ap route_of
                          (entry_for-write_entry invalidate (λ x. refl) (λ x. refl) host rt e v k)
                      ∙ ground arith,
                )
        ]
      ]
