-- ===== src/Aodv/DataSeq/Once.antt =====
-- Which data packets are delivered twice.
use des_routing_algorithms.Common.{
  ℕ, ◌+◌, ◌^◌, ◌<◌, ◌≡◌, ◌≢◌, refl, ◌∙◌, Bool, true, false, Option, none, some, List, [], ◌∷◌, ◌++◌,
  find, modify, Unique, ==_refl, arith, length, find-append, append-Unique, find-modify_by,
  modify-Unique_by, find-delete_by, delete-Unique_by, Option-cases, Bool-cases, inl, inr,
}
use des_routing_algorithms.Aodv.Timeval.{Timeval, Dessert, micros}
use des_routing_algorithms.Aodv.Timeslot.{
  TsElement, Timeslot, object_of, timeslot_addobject, timeslot_addobject_varpurge,
}
use des_routing_algorithms.Aodv.Timeslot.Order.{expired}
use des_routing_algorithms.Aodv.Timeslot.Lookup.{find-expired}
use des_routing_algorithms.Aodv.Timeslot.Purge.{purge_all}
use des_routing_algorithms.Aodv.Timeslot.Valid as Slot
use des_routing_algorithms.Aodv.Timeslot.Add as Add
use des_routing_algorithms.Aodv.DataSeq.{
  DataPacketId, Ids, DataSeq, self_of, src_of, on_ds_timeout, newer, refresh, capt_data_seq,
}
use des_routing_algorithms.Aodv.DataSeq.Newer.{newer_self, newer_far, refused, taken}

-- Entries are found by their source and by their address, and the next address is not in use.
pub record IsValid (ds : DataSeq) : Type 0 where
  pub slot : Slot.IsValid ds.ts
  pub selves : Unique self_of ds.ids.entries
  pub srcs : Unique src_of ds.ids.entries
  pub fresh : find self_of ds.brk ds.ids.entries ≡ none

abbrev pub known : ℕ → DataSeq → Option DataPacketId
known src ds = find src_of src ds.ids.entries

-- What a purge leaves: an entry whose element has not expired.
abbrev Kept : ℕ → DataPacketId → Ids → Type 0
Kept src e t =
    (find src_of src t.entries ≡ some e) × Unique self_of t.entries × Unique src_of t.entries

on_ds_timeout-Kept :
    (ts : Timeval) (o src : ℕ) (e : DataPacketId) (t : Ids)
    → e.self ≢ o
    → Kept src e t
    → Kept src e (on_ds_timeout ts o t)
unfolding on_ds_timeout
on_ds_timeout-Kept ts o src e t ne k = ground (
  arith,
  find-delete_by src_of self_of src o t.entries,
  delete-Unique_by self_of self_of o t.entries,
  delete-Unique_by src_of self_of o t.entries,
)

module _ ⦃d : Dessert⦄ where
  purge_all-Kept :
      (es : List TsElement) (src : ℕ) (e : DataPacketId) (t : Ids)
      → find object_of e.self es ≡ none
      → Kept src e t
      → Kept src e (purge_all on_ds_timeout t es)
  purge_all-Kept [] src e t h k = k
  purge_all-Kept (x ∷ es) src e t h k =
      on_ds_timeout-Kept x.purge_time x.object src e (purge_all on_ds_timeout t es)
        (λ s. ground arith) (purge_all-Kept es src e t (ground arith) k)

  module _ (timestamp now : Timeval) where
    -- An entry that is refreshed does not expire at once.
    abbrev pub Later : DataSeq → Type 0
    Later ds =
        (micros now < micros ds.ts.purge_timeout + micros timestamp)
        × (length ds.ts.elements + 1 < 2 ^ 32)

    refresh-Kept :
        (ds : DataSeq) (src : ℕ) (e : DataPacketId) (entries : List DataPacketId) (malloc : Bool)
        → Slot.IsValid ds.ts
        → Later ds
        → Kept src e (record (ds.ids) { entries = entries })
        → Kept src e (refresh ds e.self entries timestamp now malloc).ids
    unfolding timeslot_addobject timeslot_addobject_varpurge
    refresh-Kept ds src e entries false v l k = k
    refresh-Kept ds src e entries true v l k =
        Add.addobject_varpurge_cases on_ds_timeout ds.ts timestamp ds.ts.purge_timeout now e.self v
          (λ (r : Timeslot × Ids × Bool). Kept src e r.1) (record (ds.ids) { entries = entries })
          l.1 (λ n. k)
          (λ u w look n t.
            purge_all-Kept (expired (micros now) u.elements) src e
              (record (ds.ids) { entries = entries })
              (ground (
                arith,
                find-expired e.self (micros now) u.elements w.unique,
                look e.self,
                d.micros-add2 ds.ts.purge_timeout timestamp,
              ))
              k)

  -- The entry of a source after a packet of it was accepted.
  abbrev Last : ℕ → ℕ → DataSeq → Type 0
  Last src seq ds = (e : DataPacketId) × (known src ds ≡ some e) × (e.seq_num ≡ seq)

  module _ (ds : DataSeq) (src seq : ℕ) (timestamp now : Timeval) (v : IsValid ds)
      (l : Later timestamp now ds) where
    accepted_new :
        (malloc : Bool × Bool)
        → known src ds ≡ none
        → (capt_data_seq ds src seq timestamp now malloc).1 ≡ true
        → Last src seq (capt_data_seq ds src seq timestamp now malloc).0
    unfolding capt_data_seq
    accepted_new (false, m) k ok = absurd (ground arith)
    accepted_new (true, m) k ok =
        let e : DataPacketId = record { self = ds.brk; src_addr = src; seq_num = seq } in
        rw (k, capt_data_seq)
          (
            e,
            (refresh-Kept timestamp now (record ds { brk = ds.brk + 1 }) src e
                (ds.ids.entries ++ e ∷ []) m v.slot l
                (
                  ground (arith, find-append src_of src ds.ids.entries (e ∷ [])),
                  append-Unique self_of ds.ids.entries e v.selves v.fresh,
                  append-Unique src_of ds.ids.entries e v.srcs k,
                )).0,
            refl,
          )

    accepted_known :
        (malloc : Bool × Bool) (x : DataPacketId)
        → known src ds ≡ some x
        → newer x.seq_num seq ≡ true
        → ((capt_data_seq ds src seq timestamp now malloc).1 ≡ true)
          × Last src seq (capt_data_seq ds src seq timestamp now malloc).0
    unfolding capt_data_seq
    accepted_known (m_entry, m) x k h =
        let write = λ (y : DataPacketId). record y { seq_num = seq } in
        rw (k, capt_data_seq, h)
          (
            refl,
            (
              write x,
              (refresh-Kept timestamp now ds src (write x)
                  (modify self_of x.self write ds.ids.entries) m v.slot l
                  (
                    find-modify_by src_of self_of write (λ y. refl) src x.self ds.ids.entries
                          v.selves
                        ∙ rw (k, ==_refl x.self) refl,
                    modify-Unique_by self_of self_of write (λ y. refl) x.self ds.ids.entries
                        v.selves,
                    modify-Unique_by src_of self_of write (λ y. refl) x.self ds.ids.entries v.srcs,
                  )).0,
              refl,
            ),
          )

    accepted :
        (malloc : Bool × Bool)
        → (capt_data_seq ds src seq timestamp now malloc).1 ≡ true
        → Last src seq (capt_data_seq ds src seq timestamp now malloc).0
    accepted malloc ok = elim (Option-cases (known src ds)) [
      | inl k ↦ accepted_new malloc k ok
      | inr (x, k) ↦ elim (Bool-cases (newer x.seq_num seq)) [
        | inl h ↦ (accepted_known malloc x k h).1
        | inr h ↦ absurd (ground (arith, refused ds src seq timestamp now malloc x k h))
      ]
    ]

    -- A packet that a valid table has accepted is refused when the same number comes again,
    -- and the table is as it was. The timeslot has room for an element, and the entry does
    -- not expire at once.
    pub capt_data_seq-capt_data_seq :
        (malloc malloc' : Bool × Bool) (timestamp' now' : Timeval)
        → (capt_data_seq ds src seq timestamp now malloc).1 ≡ true
        → let ds' = (capt_data_seq ds src seq timestamp now malloc).0 in
          capt_data_seq ds' src seq timestamp' now' malloc' ≡ (ds', false)
    capt_data_seq-capt_data_seq malloc malloc' timestamp' now' ok =
        let (e, found, same) = accepted malloc ok in
        refused _ src seq timestamp' now' malloc' e found (ground (arith, newer_self seq, same))

    -- A packet from a known source whose number is more than 2 ^ 15 below the last is
    -- accepted by a valid table, and after it the packet with the last number is accepted
    -- once more. The timeslot has room for an element, and the entry does not expire at
    -- once.
    pub capt_data_seq-replays :
        (malloc malloc' : Bool × Bool) (x : DataPacketId) (timestamp' now' : Timeval)
        → known src ds ≡ some x
        → seq + 2 ^ 15 < x.seq_num
        → let (ds', accepted) = capt_data_seq ds src seq timestamp now malloc in
          (accepted ≡ true) × ((capt_data_seq ds' src x.seq_num timestamp' now' malloc').1 ≡ true)
    capt_data_seq-replays malloc malloc' x timestamp' now' k far =
        let first = accepted_known malloc x k (newer_far seq x.seq_num far).0 in
        let (e, found, same) = first.1 in
        (
          first.0,
          taken _ src x.seq_num timestamp' now' malloc' e found
              (rw same (newer_far seq x.seq_num far).1),
        )
