-- ===== src/Aodv/RoutingTable/Hops.antt =====
-- The table of next hops as a map from a next hop and a destination to the address of an entry.
use des_routing_algorithms.Common.{
  ℕ, ◌≡◌, ◌≢◌, refl, ◌&&◌, Option, none, some, List, [], ◌∷◌, find, Unique, arith, if◌then◌else◌,
  ◌==◌, Option-cases, Bool-cases, inl, inr, delete, find-append, append-Unique, find-modify_self,
  find-modify_ne, find-delete_self, find-delete_ne, delete-Unique, modify-Unique,
}
use des_routing_algorithms.Aodv.RoutingTable.Defs.{
  NhtEntry, NhtDest, hop_of, host_of, unlink, drop_dest,
}
use des_routing_algorithms.Aodv.RoutingTable.Capture.{link, with_hop, put_dest}

abbrev pub pointer : Option NhtDest → Option ℕ
pointer none = none
pointer (some x) = some x.rt_entry

abbrev pub dests : Option NhtEntry → List NhtDest
dests none = []
dests (some n) = n.dest_list

-- The address that the table gives for a next hop and a destination.
abbrev pub target : ℕ → ℕ → List NhtEntry → Option ℕ
target hop host nht = pointer (find host_of host (dests (find hop_of hop nht)))

pub record IsNht (nht : List NhtEntry) : Type 0 where
  pub hops : Unique hop_of nht
  pub hosts : (hop : ℕ) → Unique host_of (dests (find hop_of hop nht))

find-put_dest :
    (host host' p : ℕ) (ds : List NhtDest)
    → pointer (find host_of host' (put_dest host p ds))
      ≡ (if host == host' then some p else pointer (find host_of host' ds))
find-put_dest host host' p ds = ground (
  arith,
  find-append host_of host' ds (record { destination_host = host; rt_entry = p } ∷ []),
  find-modify_self host_of (λ x. record x { rt_entry = p }) (λ x. refl) host ds,
  find-modify_ne host_of (λ x. record x { rt_entry = p }) (λ x. refl) host' host ds,
)

find-with_hop :
    (hop hop' : ℕ) (nht : List NhtEntry)
    → dests (find hop_of hop' (with_hop hop nht)) ≡ dests (find hop_of hop' nht)
find-with_hop hop hop' nht = ground (
  arith,
  find-append hop_of hop' nht (record { destination_host_next_hop = hop; dest_list = [] } ∷ []),
)

with_hop_self : (hop : ℕ) (nht : List NhtEntry) → find hop_of hop (with_hop hop nht) ≢ none
with_hop_self hop nht = ground (
  arith,
  find-append hop_of hop nht (record { destination_host_next_hop = hop; dest_list = [] } ∷ []),
)

dests-link :
    (hop host hop' p : ℕ) (nht : List NhtEntry)
    → dests (find hop_of hop' (link hop host p nht)) ≡ (
        if hop == hop'
        then put_dest host p (dests (find hop_of hop' nht))
        else dests (find hop_of hop' nht))
unfolding link
dests-link hop host hop' p nht =
    let write = λ (n : NhtEntry). record n { dest_list = put_dest host p n.dest_list } in
    ground (
      arith,
      find-with_hop hop hop' nht,
      with_hop_self hop nht,
      find-modify_self hop_of write (λ x. refl) hop (with_hop hop nht),
      find-modify_ne hop_of write (λ x. refl) hop' hop (with_hop hop nht),
    )

-- After linking, the table gives the new address for the next hop and the destination, and for
-- any other pair what it gave before.
pub target-link :
    (hop host hop' host' p : ℕ) (nht : List NhtEntry)
    → target hop' host' (link hop host p nht)
      ≡ (if (hop == hop') && (host == host') then some p else target hop' host' nht)
target-link hop host hop' host' p nht = elim (Bool-cases (hop == hop')) [
  | inl e ↦
      rw (dests-link hop host hop' p nht, e)
        (find-put_dest host host' p (dests (find hop_of hop' nht)))
  | inr e ↦ rw (dests-link hop host hop' p nht, e) refl
]

dests-drop_dest :
    (hop host hop' : ℕ) (ds : List NhtDest) (nht : List NhtEntry)
    → Unique hop_of nht
    → find hop_of hop nht ≢ none
    → dests (find hop_of hop' (drop_dest hop host ds nht))
      ≡ (if hop == hop' then ds else dests (find hop_of hop' nht))
unfolding drop_dest
dests-drop_dest hop host hop' [] nht u h =
    ground (arith, find-delete_self hop_of hop nht u, find-delete_ne hop_of hop' hop nht)
dests-drop_dest hop host hop' (x ∷ ds) nht u h =
    let write = λ (n : NhtEntry). record n { dest_list = x ∷ ds } in
    ground (
      arith,
      find-modify_self hop_of write (λ x. refl) hop nht,
      find-modify_ne hop_of write (λ x. refl) hop' hop nht,
    )

dests-unlink :
    (hop host hop' : ℕ) (nht : List NhtEntry)
    → Unique hop_of nht
    → dests (find hop_of hop' (unlink hop host nht)) ≡ (
        if hop == hop'
        then delete host_of host (dests (find hop_of hop' nht))
        else dests (find hop_of hop' nht))
unfolding unlink
dests-unlink hop host hop' nht u = elim (Option-cases (find hop_of hop nht)) [
  | inl k ↦ rw (k, unlink) (ground arith)
  | inr (n, k) ↦
      rw (k, unlink)
        (ground (arith, dests-drop_dest hop host hop' (delete host_of host n.dest_list) nht u))
]

-- After unlinking in a table without duplicate keys, the table gives nothing for the next hop
-- and the destination, and for any other pair what it gave before.
pub target-unlink :
    (hop host hop' host' : ℕ) (nht : List NhtEntry)
    → IsNht nht
    → target hop' host' (unlink hop host nht)
      ≡ (if (hop == hop') && (host == host') then none else target hop' host' nht)
target-unlink hop host hop' host' nht v = ground (
  arith,
  dests-unlink hop host hop' nht v.hops,
  find-delete_self host_of host (dests (find hop_of hop' nht)) (v.hosts hop'),
  find-delete_ne host_of host' host (dests (find hop_of hop' nht)),
)

put_dest-Unique :
    (host p : ℕ) (ds : List NhtDest) → Unique host_of ds → Unique host_of (put_dest host p ds)
put_dest-Unique host p ds u = ground (
  arith,
  append-Unique host_of ds (record { destination_host = host; rt_entry = p }) u,
  modify-Unique host_of (λ x. record x { rt_entry = p }) (λ x. refl) host ds u,
)

with_hop-Unique :
    (hop : ℕ) (nht : List NhtEntry) → Unique hop_of nht → Unique hop_of (with_hop hop nht)
with_hop-Unique hop nht u =
    ground (
      arith,
      append-Unique hop_of nht (record { destination_host_next_hop = hop; dest_list = [] }) u,
    )

pub link-IsNht : (hop host p : ℕ) (nht : List NhtEntry) → IsNht nht → IsNht (link hop host p nht)
unfolding link
link-IsNht hop host p nht v = record {
  hops = modify-Unique hop_of _ (λ x. refl) hop (with_hop hop nht) (with_hop-Unique hop nht v.hops);
  hosts = λ hop'. ground (
    arith,
    dests-link hop host hop' p nht,
    put_dest-Unique host p (dests (find hop_of hop' nht)) (v.hosts hop'),
    v.hosts hop',
  );
}

drop_dest-Unique :
    (hop host : ℕ) (ds : List NhtDest) (nht : List NhtEntry)
    → Unique hop_of nht
    → Unique hop_of (drop_dest hop host ds nht)
unfolding drop_dest
drop_dest-Unique hop host [] nht u = delete-Unique hop_of hop nht u
drop_dest-Unique hop host (x ∷ ds) nht u = modify-Unique hop_of _ (λ x. refl) hop nht u

pub unlink-IsNht : (hop host : ℕ) (nht : List NhtEntry) → IsNht nht → IsNht (unlink hop host nht)
unfolding unlink
unlink-IsNht hop host nht v = record {
  hops = ground (
    arith,
    drop_dest-Unique hop host (delete host_of host (dests (find hop_of hop nht))) nht v.hops,
  );
  hosts = λ hop'. ground (
    arith,
    dests-unlink hop host hop' nht v.hops,
    delete-Unique host_of host (dests (find hop_of hop' nht)) (v.hosts hop'),
    v.hosts hop',
  );
}
