-- ===== src/Aodv/Timeslot/Valid.antt =====
-- A timeslot as a map from objects to the times at which they expire, in the order of these times.
use des_routing_algorithms.Common.{
  ℕ, ◌+◌, ◌-◌, ◌^◌, ◌≤◌, ◌<◌, ◌≡◌, refl, inl, inr, List, [], ◌∷◌, arith, length, find, Bool, true,
  false, none, some, Option, find-delete_self, find-delete_ne, delete-Unique, length-delete, Unique,
  Option-cases, if◌then◌else◌, ◌==◌,
}
use des_routing_algorithms.Aodv.Timeval.{Timeval, Dessert, micros}
use des_routing_algorithms.Aodv.Timeslot.{
  TsElement, Timeslot, object_of, timeslot_deleteobject, timeslot_purgeobjects, insert_new,
}
use des_routing_algorithms.Aodv.Timeslot.Order.{
  Desc, live, expired, live-Desc, delete-Desc, insert_walk-Desc, length-insert_walk,
}
use des_routing_algorithms.Aodv.Timeslot.Lookup.{
  live_of, find-live, live-Unique, find-insert_walk, insert_walk-Unique,
}
use des_routing_algorithms.Aodv.Timeslot.Purge.{length-live-expired, purge_all, purge_loop_lem}

pub record IsValid (ts : Timeslot) : Type 0 where
  pub desc : Desc ts.elements
  pub unique : Unique object_of ts.elements
  pub counted : ts.size ≡ length ts.elements
  pub fits : length ts.elements < 2 ^ 32

abbrev pub lookup : ℕ → Timeslot → Option TsElement
lookup o ts = find object_of o ts.elements

abbrev pub present : Option TsElement → Bool
present none = false
present (some _) = true

-- Deleting keeps a timeslot valid.
pub deleteobject-IsValid :
    (ts : Timeslot) (o : ℕ) → IsValid ts → IsValid (timeslot_deleteobject ts o).0
unfolding timeslot_deleteobject
deleteobject-IsValid ts o v = elim (Option-cases (lookup o ts)) [
  | inl e ↦ rw (e, timeslot_deleteobject) v
  | inr (x, e) ↦
      rw (e, timeslot_deleteobject)
        (record {
          desc = delete-Desc o ts.elements v.desc;
          unique = delete-Unique object_of o ts.elements v.unique;
          counted = omega (arith, length-delete object_of o ts.elements x e, v.counted, v.fits);
          fits = omega (arith, length-delete object_of o ts.elements x e, v.fits);
        })
]

-- Deleting from a valid timeslot removes the object and no other, keeps the default lifetime,
-- and answers whether the object was there.
pub deleteobject_lem :
    (ts : Timeslot) (o p : ℕ)
    → IsValid ts
    → (lookup p (timeslot_deleteobject ts o).0 ≡ (if o == p then none else lookup p ts))
      × ((timeslot_deleteobject ts o).1 ≡ present (lookup o ts))
      × ((timeslot_deleteobject ts o).0.purge_timeout ≡ ts.purge_timeout)
unfolding timeslot_deleteobject
deleteobject_lem ts o p v = ground (
  arith,
  find-delete_self object_of o ts.elements v.unique,
  find-delete_ne object_of p o ts.elements,
)

pub deleteobject_absent :
    (ts : Timeslot) (o : ℕ) → lookup o ts ≡ none → (timeslot_deleteobject ts o).0 ≡ ts
unfolding timeslot_deleteobject
deleteobject_absent ts o e = rw (e, timeslot_deleteobject)

pub lookup_of_length_zero :
    (p : ℕ) (es : List TsElement) → length es ≡ 0 → find object_of p es ≡ none
lookup_of_length_zero p [] h = refl
lookup_of_length_zero p (e ∷ es) h = absurd (omega arith)

pub nil_of_length_zero : (es : List TsElement) → length es ≡ 0 → es ≡ []
nil_of_length_zero [] h = refl
nil_of_length_zero (e ∷ es) h = absurd (omega arith)

pub length-deleteobject :
    (ts : Timeslot) (o : ℕ) → length (timeslot_deleteobject ts o).0.elements ≤ length ts.elements
unfolding timeslot_deleteobject
length-deleteobject ts o = elim (Option-cases (lookup o ts)) [
  | inl e ↦ rw (e, timeslot_deleteobject) (omega arith)
  | inr (x, e) ↦
      rw (e, timeslot_deleteobject) (omega (arith, length-delete object_of o ts.elements x e))
]

module _ ⦃d : Dessert⦄ where
  pub insert_new-IsValid :
      (new : TsElement) (ts : Timeslot)
      → IsValid ts
      → lookup new.object ts ≡ none
      → length ts.elements + 1 < 2 ^ 32
      → IsValid (insert_new new ts)
  unfolding insert_new
  insert_new-IsValid new ts v fresh h = record {
    desc = insert_walk-Desc new ts.elements v.desc;
    unique = insert_walk-Unique new ts.elements fresh v.unique;
    counted = omega (arith, length-insert_walk new ts.elements, v.counted);
    fits = omega (arith, length-insert_walk new ts.elements);
  }

  pub lookup-insert_new :
      (new : TsElement) (ts : Timeslot) (p : ℕ)
      → lookup new.object ts ≡ none
      → lookup p (insert_new new ts) ≡ (if new.object == p then some new else lookup p ts)
  unfolding insert_new
  lookup-insert_new new ts p fresh = find-insert_walk p new ts.elements fresh

-- A valid timeslot without its expired elements is valid.
pub purged-IsValid :
    (u : Timeslot) (now : ℕ)
    → IsValid u
    → IsValid (record u {
      elements = live now u.elements;
      size = u.size - length (expired now u.elements);
    })
purged-IsValid u now v = record {
  desc = live-Desc now u.elements v.desc;
  unique = live-Unique now u.elements v.unique;
  counted = omega (arith, length-live-expired now u.elements, v.counted);
  fits = omega (arith, length-live-expired now u.elements, v.fits);
}

module _ {ℓ} ⦃d : Dessert⦄ {S : Type ℓ} (purger : Timeval → ℕ → S → S) where
  -- A purge of a valid timeslot removes exactly the elements that have expired, subtracts
  -- their number from the size, and calls the purger once for each of them, from the earliest
  -- to the latest.
  pub purgeobjects_lem :
      (ts : Timeslot) (now : Timeval) (s : S)
      → IsValid ts
      → timeslot_purgeobjects purger ts now s ≡ (
        record ts {
          elements = live (micros now) ts.elements;
          size = ts.size - length (expired (micros now) ts.elements);
        },
        purge_all purger s (expired (micros now) ts.elements),
      )
  unfolding timeslot_purgeobjects
  purgeobjects_lem ts now s v = rw (
      purge_loop_lem purger now ts.elements ts.size s v.desc (omega (arith, v.counted))
        (omega (arith, v.counted, v.fits)))

  pub purgeobjects-IsValid :
      (ts : Timeslot) (now : Timeval) (s : S)
      → IsValid ts
      → IsValid (timeslot_purgeobjects purger ts now s).0
  purgeobjects-IsValid ts now s v =
      rw (purgeobjects_lem ts now s v) (purged-IsValid ts (micros now) v)

  pub lookup-purgeobjects :
      (ts : Timeslot) (now : Timeval) (s : S) (p : ℕ)
      → IsValid ts
      → lookup p (timeslot_purgeobjects purger ts now s).0 ≡ live_of (micros now) (lookup p ts)
  lookup-purgeobjects ts now s p v =
      rw (purgeobjects_lem ts now s v) (find-live p (micros now) ts.elements v.unique)
