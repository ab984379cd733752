-- ===== src/Aodv/RoutingTable/Links.antt =====
-- When the addresses in the table of next hops lead to the entries that they stand for.
use mathlib.Core.Path.{subst}
use des_routing_algorithms.Common.{
  ℕ, ◌≡◌, ◌≢◌, refl, sym, ◌∙◌, false, ◌&&◌, Option, none, some, arith, if◌then◌else◌, ◌==◌,
  Option-cases, Bool-cases, inl, inr, find-modify_self, find-modify_ne, modify, ==_refl,
}
use des_routing_algorithms.Aodv.Timeval.{Timeval}
use des_routing_algorithms.Aodv.RoutingTable.Defs.{
  RtEntry, Tables, Rt, self_of, unlink, purge_rt_entry,
}
use des_routing_algorithms.Aodv.RoutingTable.Capture.{forward_route, use_rrep, link}
use des_routing_algorithms.Aodv.RoutingTable.Purge.{IsSound, at, at-purge_rt_entry}
use des_routing_algorithms.Aodv.RoutingTable.Hops.{
  target, IsNht, target-link, target-unlink, link-IsNht, unlink-IsNht,
}

-- The entry at an address is that for the destination, and leads over the next hop.
abbrev pub LeadsTo : ℕ → ℕ → Option RtEntry → Type 0
LeadsTo hop host none = ⊥
LeadsTo hop host (some e) =
    (e.addr ≡ host) × (e.next_hop ≡ hop) × (e.flags.next_hop_unknown ≡ false)

abbrev pub Follows : ℕ → ℕ → Tables → Option ℕ → Type 0
Follows hop host t none = Unit {0}
Follows hop host t (some p) = LeadsTo hop host (at p t)

pub record IsLinked (t : Tables) : Type 0 where
  pub nht : IsNht t.nht
  pub leads : (hop host : ℕ) → Follows hop host t (target hop host t.nht)

module _ (t : Tables) (v : IsSound t) (l : IsLinked t) where
  -- An address of another entry leads on after the removal of the entry `e`.
  purged_leads :
      (ts : Timeval) (o : ℕ) (e : RtEntry)
      → at o t ≡ some e
      → (hop host : ℕ) (q : Option ℕ) → Follows hop host t q
      → q ≡ target hop host t.nht
      → Follows hop host (purge_rt_entry ts o t) (
          if e.flags.next_hop_unknown
          then q
          else if (e.next_hop == hop) && (e.addr == host)
          then none
          else q)
  purged_leads ts o e k hop host none f r = ground arith
  purged_leads ts o e k hop host (some p) f r = ground (arith, at-purge_rt_entry ts o p t v)

  target-purged :
      (ts : Timeval) (o : ℕ) (e : RtEntry)
      → at o t ≡ some e
      → (hop host : ℕ)
      → target hop host (purge_rt_entry ts o t).nht ≡ (
          if e.flags.next_hop_unknown
          then target hop host t.nht
          else if (e.next_hop == hop) && (e.addr == host)
          then none
          else target hop host t.nht)
  unfolding purge_rt_entry
  target-purged ts o e k hop host =
      rw (k, purge_rt_entry) (ground (arith, target-unlink e.next_hop e.addr hop host t.nht l.nht))

  nht-purged : (ts : Timeval) (o : ℕ) → IsNht (purge_rt_entry ts o t).nht
  unfolding purge_rt_entry
  nht-purged ts o = elim (Option-cases (at o t)) [
    | inl k ↦ rw (k, purge_rt_entry) l.nht
    | inr (e, k) ↦ elim (Bool-cases e.flags.next_hop_unknown) [
      | inl b ↦ rw (k, purge_rt_entry, b) l.nht
      | inr b ↦ rw (k, purge_rt_entry, b) (unlink-IsNht e.next_hop e.addr t.nht l.nht)
    ]
  ]

  -- Removing an entry of a sound table leaves every address in the table of next hops leading
  -- to an entry for its destination over that next hop, if they all did before.
  pub purge_rt_entry-IsLinked :
      (ts : Timeval) (o : ℕ) → at o t ≢ none → IsLinked (purge_rt_entry ts o t)
  purge_rt_entry-IsLinked ts o there = elim (Option-cases (at o t)) [
    | inl k ↦ absurd (there k)
    | inr (e, k) ↦ record {
      nht = nht-purged ts o;
      leads = λ hop host.
          subst (Follows hop host (purge_rt_entry ts o t)) (sym (target-purged ts o e k hop host))
            (purged_leads ts o e k hop host (target hop host t.nht) (l.leads hop host) refl);
    }
  ]

  module _ (e : RtEntry) (next_hop iface seq metric hop_count : ℕ) (k : at e.self t ≡ some e) where
    abbrev after_rrep : Tables
    after_rrep = record {
      entries = modify self_of e.self (forward_route next_hop iface seq metric hop_count) t.entries;
      nht =
          link next_hop e.addr e.self
            (if e.flags.next_hop_unknown then t.nht else unlink e.next_hop e.addr t.nht);
      fault = t.fault;
    }

    at-after_rrep :
        (p : ℕ)
        → at p after_rrep ≡ (
            if e.self == p
            then some (forward_route next_hop iface seq metric hop_count e)
            else at p t)
    at-after_rrep p = ground (
      arith,
      find-modify_self self_of (forward_route next_hop iface seq metric hop_count) (λ x. refl)
          e.self t.entries,
      find-modify_ne self_of (forward_route next_hop iface seq metric hop_count) (λ x. refl) p
          e.self t.entries,
    )

    kept_leads :
        (hop host : ℕ) (q : Option ℕ)
        → Follows hop host t q
        → Follows hop host after_rrep (
            if (next_hop == hop) && (e.addr == host)
            then some e.self
            else if e.flags.next_hop_unknown
            then q
            else if (e.next_hop == hop) && (e.addr == host)
            then none
            else q)
    kept_leads hop host none f = ground (arith, at-after_rrep e.self)
    kept_leads hop host (some p) f = ground (arith, at-after_rrep e.self, at-after_rrep p)

    target-after_rrep :
        (hop host : ℕ)
        → target hop host after_rrep.nht ≡ (
            if (next_hop == hop) && (e.addr == host)
            then some e.self
            else if e.flags.next_hop_unknown
            then target hop host t.nht
            else if (e.next_hop == hop) && (e.addr == host)
            then none
            else target hop host t.nht)
    target-after_rrep hop host = elim (Bool-cases e.flags.next_hop_unknown) [
      | inl b ↦ rw b (target-link next_hop e.addr hop host e.self t.nht)
      | inr b ↦ rw b (
          ground (
            arith,
            target-link next_hop e.addr hop host e.self (unlink e.next_hop e.addr t.nht),
            target-unlink e.next_hop e.addr hop host t.nht l.nht,
          ))
    ]

    nht-after_rrep : IsNht after_rrep.nht
    nht-after_rrep = elim (Bool-cases e.flags.next_hop_unknown) [
      | inl b ↦ rw b (link-IsNht next_hop e.addr e.self t.nht l.nht)
      | inr b ↦
          rw b (link-IsNht next_hop e.addr e.self _ (unlink-IsNht e.next_hop e.addr t.nht l.nht))
    ]

    after_rrep-IsLinked : IsLinked after_rrep
    after_rrep-IsLinked = record {
      nht = nht-after_rrep;
      leads = λ hop host.
          subst (Follows hop host after_rrep) (sym (target-after_rrep hop host))
            (kept_leads hop host (target hop host t.nht) (l.leads hop host));
    }

-- A RREP that is used for an entry of a sound table leaves every address in the table of next
-- hops leading to an entry for its destination over that next hop, if they all did before; the
-- new route is among them.
pub use_rrep-IsLinked :
    (rt : Rt) (e : RtEntry) (next_hop iface seq metric hop_count : ℕ)
    → IsSound rt.tables
    → IsLinked rt.tables
    → at e.self rt.tables ≡ some e
    → IsLinked (use_rrep rt e next_hop iface seq metric hop_count).tables
      × (target next_hop e.addr (use_rrep rt e next_hop iface seq metric hop_count).tables.nht
          ≡ some e.self)
unfolding use_rrep
use_rrep-IsLinked rt e next_hop iface seq metric hop_count v l k = (
  after_rrep-IsLinked rt.tables v l e next_hop iface seq metric hop_count k,
  target-after_rrep rt.tables v l e next_hop iface seq metric hop_count k next_hop e.addr
      ∙ rw (==_refl next_hop, ==_refl e.addr) refl,
)
