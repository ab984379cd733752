-- ===== src/Aodv/Timeslot/Add.antt =====
-- Adding an object to a timeslot.
use des_routing_algorithms.Common.{
  ℕ, ◌+◌, ◌-◌, ◌^◌, ◌≤◌, ◌<◌, ◌≡◌, refl, ap, ◌∙◌, inl, inr, [], ◌∷◌, arith, length, Bool, true,
  false, none, some, if◌then◌else◌, ◌==◌, Bool-cases,
}
use des_routing_algorithms.Aodv.Timeval.{Timeval, Dessert, micros}
use des_routing_algorithms.Aodv.Timeslot.{
  TsElement, Timeslot, timeslot_deleteobject, timeslot_addobject_varpurge, insert_walk, insert_new,
}
use des_routing_algorithms.Aodv.Timeslot.Order.{live, expired, length-insert_walk}
use des_routing_algorithms.Aodv.Timeslot.Lookup.{live_of}
use des_routing_algorithms.Aodv.Timeslot.Purge.{length-live-expired, purge_all}
use des_routing_algorithms.Aodv.Timeslot.Valid.{
  IsValid, lookup, deleteobject-IsValid, deleteobject_lem, lookup_of_length_zero,
  nil_of_length_zero, length-deleteobject, insert_new-IsValid, lookup-insert_new,
  lookup-purgeobjects, purgeobjects-IsValid, purgeobjects_lem,
}

module _ {ℓ} ⦃d : Dessert⦄ {S : Type ℓ} (purger : Timeval → ℕ → S → S) where
  module _ (ts : Timeslot) (timestamp lifetime now : Timeval) (o : ℕ) (v : IsValid ts) where
    -- The element that the call makes.
    abbrev pub new_element : TsElement
    new_element = record { purge_time = d.timevaladd2 lifetime timestamp; object = o }

    deleted-IsValid : IsValid (timeslot_deleteobject ts o).0
    deleted-IsValid = deleteobject-IsValid ts o v

    lookup-deleted : lookup o (timeslot_deleteobject ts o).0 ≡ none
    lookup-deleted = ground (arith, deleteobject_lem ts o o v)

    -- Adding an object to a valid timeslot with room for an element keeps it valid, with or
    -- without memory: in order of time, without duplicates, and with the right size.
    pub addobject_varpurge-IsValid :
        (malloc : Bool) (s : S)
        → length ts.elements + 1 < 2 ^ 32
        → IsValid (timeslot_addobject_varpurge purger ts timestamp o lifetime now malloc s).0
    unfolding timeslot_addobject_varpurge
    addobject_varpurge-IsValid false s h = v
    addobject_varpurge-IsValid true s h =
        elim (Bool-cases ((timeslot_deleteobject ts o).0.size == 0)) [
          | inl e ↦
              rw e (record {
                desc = (tt, tt);
                unique = (refl, tt);
                counted = refl;
                fits = omega arith;
              })
          | inr e ↦ rw e (
              purgeobjects-IsValid purger _ now s (
                insert_new-IsValid new_element (timeslot_deleteobject ts o).0 deleted-IsValid
                  lookup-deleted (omega (arith, length-deleteobject ts o))))
        ]

    lookup-inserted :
        (p : ℕ)
        → lookup p (insert_new new_element (timeslot_deleteobject ts o).0)
          ≡ (if o == p then some new_element else lookup p ts)
    lookup-inserted p = ground (
      arith,
      lookup-insert_new new_element (timeslot_deleteobject ts o).0 p,
      lookup-deleted,
      deleteobject_lem ts o p v,
    )

    inserted-IsValid :
        length ts.elements + 1 < 2 ^ 32
        → IsValid (insert_new new_element (timeslot_deleteobject ts o).0)
    inserted-IsValid h =
        insert_new-IsValid new_element (timeslot_deleteobject ts o).0 deleted-IsValid lookup-deleted
          (omega (arith, length-deleteobject ts o))

    lookup_of_empty :
        (p : ℕ)
        → ((timeslot_deleteobject ts o).0.size == 0) ≡ true
        → lookup p (timeslot_deleteobject ts o).0 ≡ none
    lookup_of_empty p e = ground (
      arith,
      lookup_of_length_zero p (timeslot_deleteobject ts o).0.elements,
      deleted-IsValid.counted,
    )

    -- Adding an object with memory to a valid timeslot with room for an element succeeds if
    -- the object does not expire at once. The object is in the timeslot after the call,
    -- with the sum of the timestamp and the lifetime as its time; any other object is there
    -- exactly if it was and has not expired.
    pub addobject_varpurge_lem :
        (p : ℕ) (s : S)
        → length ts.elements + 1 < 2 ^ 32
        → micros now < micros lifetime + micros timestamp
        → let (ts', s', result) =
            timeslot_addobject_varpurge purger ts timestamp o lifetime now true s in
          (result ≡ true)
          × (lookup p ts' ≡ live_of (micros now) (if o == p then some new_element else lookup p ts))
    unfolding timeslot_addobject_varpurge
    addobject_varpurge_lem p s h later =
        elim (Bool-cases ((timeslot_deleteobject ts o).0.size == 0)) [
          | inl e ↦ rw e (
            refl,
            ground (
              arith,
              lookup_of_empty p e,
              deleteobject_lem ts o p v,
              d.micros-add2 lifetime timestamp,
            ),
          )
          | inr e ↦ rw e (
            refl,
            lookup-purgeobjects purger _ now s p (inserted-IsValid h)
                ∙ ap (live_of (micros now)) (lookup-inserted p),
          )
        ]

    -- The two ways in which a call with memory ends.
    pub addobject_varpurge_cases {κ} :
        (P : Timeslot × S × Bool → Type κ) (s : S)
        → length ts.elements + 1 < 2 ^ 32
        → ((timeslot_deleteobject ts o).0.elements ≡ []
            → P (
              record (timeslot_deleteobject ts o).0 { elements = new_element ∷ []; size = 1 },
              s,
              true,
            ))
        → ((u : Timeslot)
            → IsValid u
            → ((p : ℕ) → lookup p u ≡ (if o == p then some new_element else lookup p ts))
            → u.elements ≡ insert_walk new_element (timeslot_deleteobject ts o).0.elements
            → u.purge_timeout ≡ ts.purge_timeout
            → P (
              record u {
                elements = live (micros now) u.elements;
                size = u.size - length (expired (micros now) u.elements);
              },
              purge_all purger s (expired (micros now) u.elements),
              true,
            ))
        → P (timeslot_addobject_varpurge purger ts timestamp o lifetime now true s)
    unfolding timeslot_addobject_varpurge insert_new
    addobject_varpurge_cases P s h alone among =
        elim (Bool-cases ((timeslot_deleteobject ts o).0.size == 0)) [
          | inl e ↦ rw e (alone (nil_of_length_zero _ (ground (arith, deleted-IsValid.counted))))
          | inr e ↦
              rw
                (
                  e,
                  purgeobjects_lem purger (insert_new new_element (timeslot_deleteobject ts o).0)
                      now s (inserted-IsValid h),
                )
                (among (insert_new new_element (timeslot_deleteobject ts o).0) (inserted-IsValid h)
                  lookup-inserted refl (deleteobject_lem ts o o v).2)
        ]

    -- A call leaves the default lifetime alone and adds one element at most.
    pub addobject_varpurge-grows :
        (malloc : Bool) (s : S)
        → length ts.elements + 1 < 2 ^ 32
        → let ts' = (timeslot_addobject_varpurge purger ts timestamp o lifetime now malloc s).0 in
          (ts'.purge_timeout ≡ ts.purge_timeout) × (length ts'.elements ≤ length ts.elements + 1)
    unfolding timeslot_addobject_varpurge
    addobject_varpurge-grows false s h = (refl, omega arith)
    addobject_varpurge-grows true s h =
        addobject_varpurge_cases
          (λ r.
            (r.0.purge_timeout ≡ ts.purge_timeout) × (length r.0.elements ≤ length ts.elements + 1))
          s h (λ e. ((deleteobject_lem ts o o v).2, omega arith))
          (λ u w l n t. (
            t,
            omega (
              arith,
              ap length n,
              length-insert_walk new_element (timeslot_deleteobject ts o).0.elements,
              length-deleteobject ts o,
              length-live-expired (micros now) u.elements,
            ),
          ))
