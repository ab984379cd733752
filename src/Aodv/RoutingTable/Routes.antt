-- ===== src/Aodv/RoutingTable/Routes.antt =====
-- What a RREP does to the routes.
use des_routing_algorithms.Common.{
  ℕ, ◌+◌, ◌^◌, ◌<◌, ◌≡◌, ◌⊎◌, refl, ap, ◌∙◌, Bool, true, false, not, ◌&&◌, none, some, find, arith,
  Option-cases, Bool-cases, inl, inr, length, modify, ==_refl, find-modify_by, modify-Unique,
  modify-Unique_by, ℤ, is_pos,
}
use des_routing_algorithms.Aodv.Helper.{comp_u32}
use des_routing_algorithms.Aodv.Timeval.{Timeval, Dessert, micros}
use des_routing_algorithms.Aodv.RoutingTable.Defs.{
  RtEntry, Rt, self_of, addr_of, find_or_create, new_entry,
}
use des_routing_algorithms.Aodv.RoutingTable.Capture.{
  write_entry, forward_route, use_rrep, capt_rrep,
}
use des_routing_algorithms.Aodv.RoutingTable.Purge.{at, entry_for}
use des_routing_algorithms.Aodv.RoutingTable.Valid.{IsValid}
use des_routing_algorithms.Aodv.RoutingTable.Create.{Created, find_or_create-Ends}

module _ (f : RtEntry → RtEntry) (self : (x : RtEntry) → (f x).self ≡ x.self)
    (addr : (x : RtEntry) → (f x).addr ≡ x.addr) where
  -- A write to an entry that leaves its address alone keeps the table valid.
  pub write_entry-IsValid : (p : ℕ) (rt : Rt) → IsValid rt → IsValid (write_entry p f rt)
  write_entry-IsValid p rt v = record {
    slot = v.slot;
    sound = record {
      addrs = modify-Unique_by addr_of self_of f addr p rt.tables.entries v.sound.addrs;
      selves = modify-Unique self_of f self p rt.tables.entries v.sound.selves;
      no_fault = v.sound.no_fault;
    };
    fresh = λ q h. absent q (v.fresh q h);
    owned = λ q h. v.owned q (present q h);
  }
    where
      absent :
          (q : ℕ)
          → at q rt.tables ≡ none
          → find self_of q (modify self_of p f rt.tables.entries) ≡ none
      absent q e =
          find-modify_by self_of self_of f self q p rt.tables.entries v.sound.selves ∙ ground arith

      present :
          (q : ℕ)
          → find self_of q (modify self_of p f rt.tables.entries) ≡ none
          → at q rt.tables ≡ none
      present q e =
          ground (arith, find-modify_by self_of self_of f self q p rt.tables.entries v.sound.selves)

  pub entry_for-write_entry :
      (h : ℕ) (rt : Rt) (e : RtEntry)
      → IsValid rt
      → entry_for h rt.tables ≡ some e
      → entry_for h (write_entry e.self f rt).tables ≡ some (f e)
  entry_for-write_entry h rt e v k =
      find-modify_by addr_of self_of f addr h e.self rt.tables.entries v.sound.selves
      ∙ rw (k, ==_refl e.self)

module _ ⦃d : Dessert⦄ where
  use_rrep-IsValid :
      (rt : Rt) (e : RtEntry) (next_hop iface seq metric hop_count : ℕ)
      → IsValid rt
      → IsValid (use_rrep rt e next_hop iface seq metric hop_count)
  unfolding use_rrep
  use_rrep-IsValid rt e next_hop iface seq metric hop_count v =
      let w : IsValid (write_entry e.self (forward_route next_hop iface seq metric hop_count) rt) =
        write_entry-IsValid (forward_route next_hop iface seq metric hop_count) (λ x. refl)
          (λ x. refl) e.self rt v in
      record {
        slot = w.slot;
        sound = record {
          addrs = w.sound.addrs;
          selves = w.sound.selves;
          no_fault = w.sound.no_fault;
        };
        fresh = w.fresh;
        owned = w.owned;
      }

  -- Why a RREP is not used: the next hop is known and the number of the entry is ahead.
  abbrev pub Refuses : RtEntry → ℕ → Type 0
  Refuses e seq =
      (e.flags.next_hop_unknown ≡ false) × (is_pos (comp_u32 e.sequence_number seq) ≡ true)

  -- What a call of `aodv_db_rt_capt_rrep` promises, with `rt` before and `rt'` after. A RREP that is
  -- used takes the place of the route, which did not refuse it.
  abbrev pub Captured : Rt → (host next_hop iface seq metric hop_count : ℕ) → Rt → Bool → Type 0
  Captured rt host next_hop iface seq metric hop_count rt' true =
      IsValid rt'
      × ((e : RtEntry) × (entry_for host rt'.tables
            ≡ some (forward_route next_hop iface seq metric hop_count e))
          × ¬ Refuses e seq
          × ((entry_for host rt.tables ≡ some e) ⊎ (e ≡ new_entry rt.brk host)))
  Captured rt host next_hop iface seq metric hop_count rt' false =
      (rt' ≡ rt)
      × ((entry_for host rt.tables ≡ none)
          ⊎ ((e : RtEntry) × (entry_for host rt.tables ≡ some e) × Refuses e seq))

  entry_of :
      (rt : Rt) (host : ℕ) (rt1 : Rt) (e : RtEntry)
      → Created rt host rt1 e
      → ((entry_for host rt.tables ≡ some e) × (rt1 ≡ rt)) ⊎ (e ≡ new_entry rt.brk host)
  entry_of rt host rt1 e c = elim c.origin [ inl o ↦ inl o | inr o ↦ inr o.1 ]

  entry_for-use_rrep :
      (host : ℕ) (rt : Rt) (e : RtEntry) (next_hop iface seq metric hop_count : ℕ)
      → IsValid rt
      → entry_for host rt.tables ≡ some e
      → entry_for host (use_rrep rt e next_hop iface seq metric hop_count).tables
        ≡ some (forward_route next_hop iface seq metric hop_count e)
  unfolding use_rrep
  entry_for-use_rrep host rt e next_hop iface seq metric hop_count v k =
      entry_for-write_entry (forward_route next_hop iface seq metric hop_count) (λ x. refl)
        (λ x. refl) host rt e v k

  -- The two ends of a call that has an entry.
  Captured-used :
      (rt : Rt) (host next_hop iface seq metric hop_count : ℕ) (rt1 : Rt) (e : RtEntry)
      → Created rt host rt1 e
      → (not e.flags.next_hop_unknown && is_pos (comp_u32 e.sequence_number seq)) ≡ false
      → Captured rt host next_hop iface seq metric hop_count
          (use_rrep rt1 e next_hop iface seq metric hop_count)
          true
  Captured-used rt host next_hop iface seq metric hop_count rt1 e c k = (
    use_rrep-IsValid rt1 e next_hop iface seq metric hop_count c.valid,
    (
      e,
      entry_for-use_rrep host rt1 e next_hop iface seq metric hop_count c.valid c.found,
      (λ r. ground arith),
      elim (entry_of rt host rt1 e c) [ inl o ↦ inl o.0 | inr o ↦ inr o ],
    ),
  )

  Captured-refused :
      (rt : Rt) (host next_hop iface seq metric hop_count : ℕ) (rt1 : Rt) (e : RtEntry)
      → Created rt host rt1 e
      → (not e.flags.next_hop_unknown && is_pos (comp_u32 e.sequence_number seq)) ≡ true
      → Captured rt host next_hop iface seq metric hop_count rt1 false
  Captured-refused rt host next_hop iface seq metric hop_count rt1 e c k =
      elim (entry_of rt host rt1 e c) [
        | inl o ↦ (o.1, inr (e, o.0, ground arith))
        | inr o ↦ absurd (ground (arith, ap (λ (x : RtEntry). x.flags.next_hop_unknown) o))
      ]

  module _ {ℓ} {N : Type ℓ} (reset : ℕ → ℕ → N → N) (threshold : ℤ) where
    pub capt_rrep-Captured :
        (rt : Rt) (nt : N) (host next_hop iface seq metric hop_count : ℕ) (timestamp now : Timeval)
        (malloc : Bool × Bool)
        → IsValid rt
        → micros now < micros rt.ts.purge_timeout + micros timestamp
        → length rt.ts.elements + 1 < 2 ^ 32
        → let (rt', nt', used) =
            capt_rrep reset threshold rt nt host next_hop iface seq metric hop_count timestamp now
              malloc in
          Captured rt host next_hop iface seq metric hop_count rt' used
    unfolding capt_rrep
    capt_rrep-Captured rt nt host next_hop iface seq metric hop_count timestamp now malloc v later
          h =
        let ends = find_or_create-Ends rt host timestamp now v malloc later h in
        elim (Option-cases (find_or_create rt host timestamp now malloc)) [
          | inl k ↦ rw (k, capt_rrep) (refl, inl (rw k at ends))
          | inr ((rt1, e), k) ↦
              let c : Created rt host rt1 e = rw k at ends in
              elim (Bool-cases
                (not e.flags.next_hop_unknown && is_pos (comp_u32 e.sequence_number seq))) [
                  | inl b ↦
                      rw (k, capt_rrep, b)
                        (Captured-refused rt host next_hop iface seq metric hop_count rt1 e c b)
                  | inr b ↦
                      rw (k, capt_rrep, b)
                        (Captured-used rt host next_hop iface seq metric hop_count rt1 e c b)
                ]
        ]
