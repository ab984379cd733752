-- ===== src/Aodv/RoutingTable/Valid.antt =====
-- The invariant of the routing table, and the periodic clean-up.
use des_routing_algorithms.Common.{ℕ, ◌≤◌, ◌≡◌, ◌≢◌, ap, ◌∙◌, none, find, arith}
use des_routing_algorithms.Aodv.Timeval.{Timeval, Dessert, micros}
use des_routing_algorithms.Aodv.Timeslot.{Timeslot, object_of}
use des_routing_algorithms.Aodv.Timeslot.Purge.{purge_all}
use des_routing_algorithms.Aodv.Timeslot.Order.{live, expired}
use des_routing_algorithms.Aodv.Timeslot.Lookup.{
  expired_of, find-live, find-expired, expired-Unique,
}
use des_routing_algorithms.Aodv.Timeslot.Valid as Slot
use des_routing_algorithms.Aodv.RoutingTable.Defs.{Tables, Rt, purge_rt_entry}
use des_routing_algorithms.Aodv.RoutingTable.Capture.{rt_cleanup}
use des_routing_algorithms.Aodv.RoutingTable.Purge.{IsSound, at, Owned, unless, at-purge_all}

pub record IsValid (rt : Rt) : Type 0 where
  pub slot : Slot.IsValid rt.ts
  pub sound : IsSound rt.tables
  pub fresh : (p : ℕ) → rt.brk ≤ p → at p rt.tables ≡ none
  pub owned : Owned rt.ts.elements rt.tables

module _ ⦃d : Dessert⦄ (u : Timeslot) (t : Tables) (now : ℕ) (w : Slot.IsValid u)
    (s : IsSound t) where
  -- A purge whose objects all have entries.
  module _ (o : Owned (expired now u.elements) t) where
    abbrev pub purged : Tables
    purged = purge_all purge_rt_entry t (expired now u.elements)

    pub purged-IsSound : IsSound purged
    purged-IsSound =
        (at-purge_all (expired now u.elements) t 0 s (expired-Unique now u.elements w.unique) o).0

    -- An entry stays unless its element has expired.
    pub at-purged : (p : ℕ) → at p purged ≡ unless (expired_of now (Slot.lookup p u)) (at p t)
    at-purged p =
        (at-purge_all (expired now u.elements) t p s (expired-Unique now u.elements w.unique) o).1
        ∙ ap (λ e. unless e (at p t)) (find-expired p now u.elements w.unique)

    -- What is left in the timeslot has an entry, if only the object `q` had none before.
    pub purged-Owned :
        (q : ℕ)
        → ((p : ℕ) → p ≢ q → at p t ≡ none → Slot.lookup p u ≡ none)
        → (p : ℕ) → p ≢ q
        → at p purged ≡ none
        → find object_of p (live now u.elements) ≡ none
    purged-Owned q own p ne h =
        ground (arith, at-purged p, find-live p now u.elements w.unique, own p ne)

module _ ⦃d : Dessert⦄ (rt : Rt) (v : IsValid rt) (now : Timeval) where
  cleanup-Owned : Owned (expired (micros now) rt.ts.elements) rt.tables
  cleanup-Owned p h =
      ground (arith, find-expired p (micros now) rt.ts.elements v.slot.unique, v.owned p h)

  -- The periodic clean-up keeps a valid table valid, follows no address of freed memory, and
  -- removes exactly the entries whose time has passed.
  pub rt_cleanup-IsValid :
      IsValid (rt_cleanup rt now)
      × ((p : ℕ)
          → at p (rt_cleanup rt now).tables
            ≡ unless (expired_of (micros now) (Slot.lookup p rt.ts)) (at p rt.tables))
  unfolding rt_cleanup
  rt_cleanup-IsValid = rw (Slot.purgeobjects_lem purge_rt_entry rt.ts now rt.tables v.slot) (
    record {
      slot = Slot.purged-IsValid rt.ts (micros now) v.slot;
      sound = purged-IsSound rt.ts rt.tables (micros now) v.slot v.sound cleanup-Owned;
      fresh = λ p h. ground (
        arith,
        at-purged rt.ts rt.tables (micros now) v.slot v.sound cleanup-Owned p,
        v.fresh p h,
      );
      owned = λ p h. ground (
        arith,
        at-purged rt.ts rt.tables (micros now) v.slot v.sound cleanup-Owned p,
        find-live p (micros now) rt.ts.elements v.slot.unique,
        v.owned p,
      );
    },
    at-purged rt.ts rt.tables (micros now) v.slot v.sound cleanup-Owned,
  )
