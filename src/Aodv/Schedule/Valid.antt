-- ===== src/Aodv/Schedule/Valid.antt =====
-- The schedule table as a map from addresses and types to tasks, read from the earliest on.
use des_routing_algorithms.Common.{
  ℕ, ◌≤◌, ◌<◌, ◌≡◌, refl, Option, none, some, [], ◌∷◌, if◌then◌else◌, find, ◌==◌, arith, Unique,
  is_pos, All, Bool, true, false, delete-Unique, find-delete_self, find-delete_ne, Bool-cases, inl,
  inr,
}
use des_routing_algorithms.Aodv.Timeval.{Timeval, Dessert, micros}
use des_routing_algorithms.Aodv.Schedule.{
  Schedule, Schedules, key, key_of, dropschedule, addschedule, popschedule, schedule_exists,
  create_schedule,
}
use des_routing_algorithms.Aodv.Schedule.Order.{
  due, Asc, delete-Asc, insert_schedule-Asc, find-insert_schedule, insert_schedule-Unique,
}

pub record IsValid (st : Schedules) : Type 0 where
  pub asc : Asc st
  pub unique : Unique key_of st

abbrev pub lookup : ℕ → Schedules → Option Schedule
lookup = find key_of

pub dropschedule-IsValid : (st : Schedules) (a t : ℕ) → IsValid st → IsValid (dropschedule st a t).0
unfolding dropschedule
dropschedule-IsValid st a t v =
    ground (arith, delete-Asc (key a t) st v.asc, delete-Unique key_of (key a t) st v.unique)

-- A drop from a valid table removes the task for the address and type and no other, and answers
-- whether there was one.
pub dropschedule_lem :
    (st : Schedules) (a t k : ℕ)
    → IsValid st
    → (lookup k (dropschedule st a t).0 ≡ (if key a t == k then none else lookup k st))
      × ((dropschedule st a t).1 ≡ schedule_exists st a t)
unfolding dropschedule schedule_exists
dropschedule_lem st a t k v =
    ground
      (arith, find-delete_self key_of (key a t) st v.unique, find-delete_ne key_of k (key a t) st)

module _ ⦃d : Dessert⦄ where
  -- Adding a task keeps a valid table in order of time with at most one task for an address
  -- and type, also when there is no memory.
  pub addschedule-IsValid :
      (st : Schedules) (ts : Timeval) (a t param : ℕ) (malloc : Bool)
      → IsValid st
      → IsValid (addschedule st ts a t param malloc).0
  unfolding addschedule create_schedule
  addschedule-IsValid st ts a t param false v = dropschedule-IsValid st a t v
  addschedule-IsValid st ts a t param true v =
      let w : IsValid (dropschedule st a t).0 = dropschedule-IsValid st a t v in
      record {
        asc = insert_schedule-Asc _ _ w.asc;
        unique =
            insert_schedule-Unique _ _ (ground (arith, dropschedule_lem st a t (key a t) v))
              w.unique;
      }

  -- After adding a task to a valid table with memory, the table holds it in place of any
  -- older one for the address and type, and all other tasks as before; without memory the
  -- older one is gone all the same. The answer is whether there was memory.
  pub addschedule_lem :
      (st : Schedules) (ts : Timeval) (a t param k : ℕ) (malloc : Bool)
      → IsValid st
      → (lookup k (addschedule st ts a t param malloc).0
          ≡ (if key a t == k then create_schedule ts a t param malloc else lookup k st))
        × ((addschedule st ts a t param malloc).1 ≡ malloc)
  unfolding addschedule create_schedule
  addschedule_lem st ts a t param k false v = ground (arith, dropschedule_lem st a t k v)
  addschedule_lem st ts a t param k true v =
      let el : Schedule = record {
        execute_ts = ts;
        ether_addr = a;
        schedule_id = t;
        schedule_param = param;
      } in
      ground (
        arith,
        dropschedule_lem st a t k v,
        dropschedule_lem st a t (key a t) v,
        find-insert_schedule k el (dropschedule st a t).0,
      )

  -- What a pop promises of the table before and the table after. Without a task: none is due.
  -- With one: it is due, the earliest, and the only one that is gone.
  abbrev pub Pops : Schedules → ℕ → Schedules → Option Schedule → Type 0
  Pops st now st' none = (st' ≡ st) × All (λ s. now < due s) st
  Pops st now st' (some s) =
      IsValid st'
      × (due s ≤ now)
      × All (λ t. due s ≤ due t) st
      × (lookup (key_of s) st ≡ some s)
      × ((k : ℕ) → lookup k st' ≡ (if key_of s == k then none else lookup k st))

  All-later : (n m : ℕ) (st : Schedules) → n < m → All (λ t. m ≤ due t) st → All (λ t. n < due t) st
  All-later n m [] h k = tt
  All-later n m (s ∷ st) h k = (omega arith, All-later n m st h k.1)

  -- A pop from a valid table hands out the earliest task if it is due, and removes it and no
  -- other task; if it hands out none then no task is due, and the table is as it was.
  pub popschedule-Pops :
      (st : Schedules) (ts : Timeval)
      → IsValid st
      → let (st', popped) = popschedule st ts in Pops st (micros ts) st' popped
  unfolding popschedule
  popschedule-Pops [] ts v = (refl, tt)
  popschedule-Pops (s ∷ st) ts v = elim (Bool-cases (is_pos (d.timevalcmp s.execute_ts ts))) [
    | inl later ↦
        let after : micros ts < due s = ground (arith, d.cmp_pos s.execute_ts ts) in
        rw later (refl, (after, All-later (micros ts) (due s) st after v.asc.0))
    | inr now_due ↦ rw now_due (
      record { asc = v.asc.1; unique = v.unique.1 },
      ground (arith, d.cmp_pos s.execute_ts ts),
      (omega arith, v.asc.0),
      ground arith,
      λ k. ground (arith, v.unique.0),
    )
  ]
