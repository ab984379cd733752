-- ===== src/Aodv/RoutingTable/Purge.antt =====
-- What the purger of the timeslot does to the routing table.
use des_routing_algorithms.Common.{
  ℕ, ◌≡◌, ◌≢◌, refl, false, Option, none, some, List, [], ◌∷◌, find, Unique, arith, delete-Unique,
  delete-Unique_by, find-delete_self, find-delete_ne, find-delete_by, find-delete-none_by, removed,
  if◌then◌else◌, ◌==◌,
}
use des_routing_algorithms.Aodv.Timeval.{Timeval, Dessert}
use des_routing_algorithms.Aodv.Timeslot.{TsElement, object_of}
use des_routing_algorithms.Aodv.Timeslot.Purge.{purge_all}
use des_routing_algorithms.Aodv.RoutingTable.Defs.{
  RtEntry, Tables, self_of, addr_of, purge_rt_entry,
}

-- Entries are found by their address as a host and in memory, and no freed memory was used.
pub record IsSound (t : Tables) : Type 0 where
  pub addrs : Unique addr_of t.entries
  pub selves : Unique self_of t.entries
  pub no_fault : t.fault ≡ false

abbrev pub at : ℕ → Tables → Option RtEntry
at p t = find self_of p t.entries

abbrev pub entry_for : ℕ → Tables → Option RtEntry
entry_for h t = find addr_of h t.entries

pub purge_rt_entry-IsSound :
    (ts : Timeval) (o : ℕ) (t : Tables)
    → IsSound t
    → at o t ≢ none
    → IsSound (purge_rt_entry ts o t)
unfolding purge_rt_entry
purge_rt_entry-IsSound ts o t v h = ground (
  arith,
  delete-Unique self_of o t.entries v.selves,
  delete-Unique_by addr_of self_of o t.entries v.addrs,
)

pub at-purge_rt_entry :
    (ts : Timeval) (o p : ℕ) (t : Tables)
    → IsSound t
    → at p (purge_rt_entry ts o t) ≡ (if o == p then none else at p t)
unfolding purge_rt_entry
at-purge_rt_entry ts o p t v =
    ground
      (arith, find-delete_self self_of o t.entries v.selves, find-delete_ne self_of p o t.entries)

pub entry_for-purge_rt_entry :
    (ts : Timeval) (o h : ℕ) (t : Tables)
    → IsSound t
    → at o t ≢ none
    → entry_for h (purge_rt_entry ts o t) ≡ removed addr_of self_of o (entry_for h t)
unfolding purge_rt_entry
entry_for-purge_rt_entry ts o h t v k =
    ground (arith, find-delete_by addr_of self_of h o t.entries v.addrs v.selves)

entry_for-purge-none :
    (ts : Timeval) (o h : ℕ) (t : Tables)
    → entry_for h t ≡ none
    → entry_for h (purge_rt_entry ts o t) ≡ none
unfolding purge_rt_entry
entry_for-purge-none ts o h t e = ground (arith, find-delete-none_by addr_of self_of h o t.entries)

-- Every element of a timeslot stands for an entry.
abbrev pub Owned : List TsElement → Tables → Type 0
Owned es t = (p : ℕ) → at p t ≡ none → find object_of p es ≡ none

abbrev pub unless : Option TsElement → Option RtEntry → Option RtEntry
unless none e = e
unless (some _) e = none

module _ ⦃d : Dessert⦄ where
  pub at-purge_all :
      (es : List TsElement) (t : Tables) (p : ℕ)
      → IsSound t
      → Unique object_of es
      → Owned es t
      → IsSound (purge_all purge_rt_entry t es)
        × (at p (purge_all purge_rt_entry t es) ≡ unless (find object_of p es) (at p t))
  at-purge_all [] t p v u o = (v, refl)
  at-purge_all (e ∷ es) t p v u o =
      let t' = purge_all purge_rt_entry t es in
      let rest : Owned es t = λ q k. ground (arith, o q k) in
      let there : at e.object t' ≢ none =
        λ k. ground (arith, at-purge_all es t e.object v u.1 rest, u.0, o e.object) in
      let sound : IsSound t' = (at-purge_all es t p v u.1 rest).0 in
      (
        purge_rt_entry-IsSound e.purge_time e.object t' sound there,
        ground (
          arith,
          at-purge_rt_entry e.purge_time e.object p t' sound,
          at-purge_all es t p v u.1 rest,
        ),
      )

  pub entry_for-purge_all-none :
      (es : List TsElement) (t : Tables) (h : ℕ)
      → entry_for h t ≡ none
      → entry_for h (purge_all purge_rt_entry t es) ≡ none
  entry_for-purge_all-none [] t h e = e
  entry_for-purge_all-none (x ∷ es) t h e =
      entry_for-purge-none x.purge_time x.object h (purge_all purge_rt_entry t es)
        (entry_for-purge_all-none es t h e)
