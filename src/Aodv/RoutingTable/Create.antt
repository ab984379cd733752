-- ===== src/Aodv/RoutingTable/Create.antt =====
-- Searching for an entry, and making a new one.
use des_routing_algorithms.Common.{
  ℕ, ◌+◌, ◌-◌, ◌^◌, ◌≤◌, ◌<◌, ◌≡◌, ◌≢◌, ◌⊎◌, refl, Bool, true, false, Option, none, some, [], ◌∷◌,
  ◌++◌, find, arith, if◌then◌else◌, ◌==◌, Option-cases, inl, inr, length, find-append,
  append-Unique,
}
use des_routing_algorithms.Aodv.Timeval.{Timeval, Dessert, micros}
use des_routing_algorithms.Aodv.Timeslot.{
  TsElement, Timeslot, object_of, timeslot_addobject, timeslot_addobject_varpurge,
}
use des_routing_algorithms.Aodv.Timeslot.Purge.{purge_all}
use des_routing_algorithms.Aodv.Timeslot.Order.{live, expired}
use des_routing_algorithms.Aodv.Timeslot.Lookup.{expired_of, find-expired}
use des_routing_algorithms.Aodv.Timeslot.Valid as Slot
use des_routing_algorithms.Aodv.Timeslot.Add as Add
use des_routing_algorithms.Aodv.RoutingTable.Defs.{
  RtEntry, Tables, Rt, self_of, addr_of, purge_rt_entry, new_entry, rt_entry_create, find_or_create,
}
use des_routing_algorithms.Aodv.RoutingTable.Purge.{
  IsSound, at, entry_for, Owned, unless, entry_for-purge_all-none,
}
use des_routing_algorithms.Aodv.RoutingTable.Valid.{
  IsValid, purged-IsSound, at-purged, purged-Owned,
}

-- The table with a new entry at the end.
abbrev pub with_entry : RtEntry → Tables → Tables
with_entry e t = record t { entries = t.entries ++ e ∷ [] }

with_entry-IsSound :
    (e : RtEntry) (t : Tables)
    → IsSound t
    → entry_for e.addr t ≡ none
    → at e.self t ≡ none
    → IsSound (with_entry e t)
with_entry-IsSound e t v h k = record {
  addrs = append-Unique addr_of t.entries e v.addrs h;
  selves = append-Unique self_of t.entries e v.selves k;
  no_fault = v.no_fault;
}

at-with_entry :
    (e : RtEntry) (t : Tables) (p : ℕ)
    → at e.self t ≡ none
    → at p (with_entry e t) ≡ (if e.self == p then some e else at p t)
at-with_entry e t p h = ground (arith, find-append self_of p t.entries (e ∷ []))

-- What the search for an entry, or its creation, promises.
pub record Created (rt : Rt) (host : ℕ) (rt' : Rt) (e : RtEntry) : Type 0 where
  pub valid : IsValid rt'
  pub found : entry_for host rt'.tables ≡ some e
  pub origin :
      ((entry_for host rt.tables ≡ some e) × (rt' ≡ rt))
      ⊎ ((entry_for host rt.tables ≡ none) × (e ≡ new_entry rt.brk host))
  pub timeout : rt'.ts.purge_timeout ≡ rt.ts.purge_timeout
  pub grows : length rt'.ts.elements ≤ length rt.ts.elements + 1

module _ ⦃d : Dessert⦄ (rt : Rt) (host : ℕ) (timestamp now : Timeval) (v : IsValid rt)
    (missing : entry_for host rt.tables ≡ none) where
  abbrev made : RtEntry
  made = new_entry rt.brk host

  abbrev finished : Timeslot × Tables × Bool → Rt
  finished r = record { tables = with_entry made r.1; ts = r.0; brk = rt.brk + 1 }

  made_found :
      (t : Tables) → entry_for host t ≡ none → entry_for host (with_entry made t) ≡ some made
  made_found t h = ground (arith, find-append addr_of host t.entries (made ∷ []))

  unmade : at rt.brk rt.tables ≡ none
  unmade = v.fresh rt.brk (omega arith)

  -- The table as it was, with the new entry.
  plain :
      (ts : Timeslot)
      → Slot.IsValid ts
      → ((p : ℕ) → rt.brk ≢ p → at p rt.tables ≡ none → Slot.lookup p ts ≡ none)
      → IsValid (finished (ts, rt.tables, true))
  plain ts w own = record {
    slot = w;
    sound = with_entry-IsSound made rt.tables v.sound missing unmade;
    fresh = λ p h. ground (arith, at-with_entry made rt.tables p unmade, v.fresh p (omega arith));
    owned = λ p h. ground (arith, at-with_entry made rt.tables p unmade, own p);
  }

  abbrev element : TsElement
  element = record { purge_time = d.timevaladd2 rt.ts.purge_timeout timestamp; object = rt.brk }

  module _ (later : micros now < micros rt.ts.purge_timeout + micros timestamp) where
    module _ (u : Timeslot) (w : Slot.IsValid u)
        (l : (p : ℕ)
          → Slot.lookup p u ≡ (if rt.brk == p then some element else Slot.lookup p rt.ts)) where
      expired-Owned : Owned (expired (micros now) u.elements) rt.tables
      expired-Owned p h = ground (
        arith,
        find-expired p (micros now) u.elements w.unique,
        l p,
        v.owned p h,
        d.micros-add2 rt.ts.purge_timeout timestamp,
      )

      abbrev left : Tables
      left = purge_all purge_rt_entry rt.tables (expired (micros now) u.elements)

      at-left :
          (p : ℕ) → at p left ≡ unless (expired_of (micros now) (Slot.lookup p u)) (at p rt.tables)
      at-left = at-purged u rt.tables (micros now) w v.sound expired-Owned

      unmade_left : at rt.brk left ≡ none
      unmade_left = ground (arith, at-left rt.brk, unmade)

      missing_left : entry_for host left ≡ none
      missing_left =
          entry_for-purge_all-none (expired (micros now) u.elements) rt.tables host missing

      left_Owned :
          (p : ℕ)
          → p ≢ rt.brk
          → at p left ≡ none
          → find object_of p (live (micros now) u.elements) ≡ none
      left_Owned =
          purged-Owned u rt.tables (micros now) w v.sound expired-Owned rt.brk
            λ p ne h. ground (arith, l p, v.owned p h)

      after_purge : IsValid (
          finished (
            record u {
              elements = live (micros now) u.elements;
              size = u.size - length (expired (micros now) u.elements);
            },
            left,
            true,
          ))
      after_purge = record {
        slot = Slot.purged-IsValid u (micros now) w;
        sound =
            with_entry-IsSound made left
              (purged-IsSound u rt.tables (micros now) w v.sound expired-Owned) missing_left
              unmade_left;
        fresh = λ p h.
            ground
              (arith, at-with_entry made left p unmade_left, at-left p, v.fresh p (omega arith));
        owned = λ p h. ground (arith, at-with_entry made left p unmade_left, left_Owned p);
      }

    abbrev Good : Timeslot × Tables × Bool → Type 0
    Good r = IsValid (finished r) × (entry_for host (finished r).tables ≡ some made)

    add_element :
        (malloc : Bool)
        → length rt.ts.elements + 1 < 2 ^ 32
        → Good (timeslot_addobject purge_rt_entry rt.ts timestamp rt.brk now malloc rt.tables)
    unfolding timeslot_addobject timeslot_addobject_varpurge
    add_element false h = (plain rt.ts v.slot (λ p ne k. v.owned p k), made_found rt.tables missing)
    add_element true h =
        Add.addobject_varpurge_cases purge_rt_entry rt.ts timestamp rt.ts.purge_timeout now rt.brk
          v.slot Good rt.tables h
          (λ e. (
            plain _
                (record {
                  desc = (tt, tt);
                  unique = (refl, tt);
                  counted = refl;
                  fits = omega arith;
                })
                (λ p ne k. ground arith),
            made_found rt.tables missing,
          ))
          (λ u w l n t. (after_purge u w l, made_found (left u w l) (missing_left u w l)))

-- What holds of an entry that is handed out; without memory there is none.
abbrev pub Ends : Rt → ℕ → Option (Rt × RtEntry) → Type 0
Ends rt host none = entry_for host rt.tables ≡ none
Ends rt host (some (rt', e)) = Created rt host rt' e

module _ ⦃d : Dessert⦄ (rt : Rt) (host : ℕ) (timestamp now : Timeval) (v : IsValid rt) where
  create-Ends :
      (malloc : Bool × Bool)
      → micros now < micros rt.ts.purge_timeout + micros timestamp
      → length rt.ts.elements + 1 < 2 ^ 32
      → entry_for host rt.tables ≡ none
      → Ends rt host (find_or_create rt host timestamp now malloc)
  unfolding find_or_create rt_entry_create timeslot_addobject
  create-Ends (false, m) later h e = rw (e, find_or_create) e
  create-Ends (true, m) later h e =
      let good = add_element rt host timestamp now v e later m h in
      rw (e, find_or_create)
        (record {
          valid = good.0;
          found = good.1;
          origin = inr (e, refl);
          timeout =
              (Add.addobject_varpurge-grows purge_rt_entry rt.ts timestamp rt.ts.purge_timeout now
                rt.brk v.slot m rt.tables h).0;
          grows =
              (Add.addobject_varpurge-grows purge_rt_entry rt.ts timestamp rt.ts.purge_timeout now
                rt.brk v.slot m rt.tables h).1;
        })

  -- When an entry is searched for, and made if there is none, a valid table stays valid, and
  -- the entry that is handed out is the one that the table has for the host: the old one with
  -- the table unchanged, or a new one whose next hop is unknown. If none is handed out, there
  -- was none. The timeslot has room for an element, and an entry that is made does not expire
  -- at once.
  pub find_or_create-Ends :
      (malloc : Bool × Bool)
      → micros now < micros rt.ts.purge_timeout + micros timestamp
      → length rt.ts.elements + 1 < 2 ^ 32
      → Ends rt host (find_or_create rt host timestamp now malloc)
  unfolding find_or_create
  find_or_create-Ends malloc later h = elim (Option-cases (entry_for host rt.tables)) [
    | inl e ↦ create-Ends malloc later h e
    | inr (x, e) ↦
        rw (e, find_or_create)
          (record {
            valid = v;
            found = e;
            origin = inl (e, refl);
            timeout = refl;
            grows = omega arith;
          })
  ]
