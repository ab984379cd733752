-- ===== src/Aodv/Schedule/Order.antt =====
-- The order of the schedules, and how insertion and removal act on it.
use des_routing_algorithms.Common.{
  ℕ, ◌≤◌, ◌≡◌, refl, none, some, [], ◌∷◌, if◌then◌else◌, find, delete, ◌==◌, arith, Unique, All,
}
use des_routing_algorithms.Aodv.Timeval.{Dessert, micros}
use des_routing_algorithms.Aodv.Schedule.{Schedule, Schedules, key_of, insert_schedule}

abbrev pub due : Schedule → ℕ
due s = micros s.execute_ts

-- From the earliest to the latest.
abbrev pub Asc : Schedules → Type 0
Asc [] = Unit {0}
Asc (s ∷ st) = All (λ t. due s ≤ due t) st × Asc st

pub AllGe-mono :
    (a b : ℕ) (st : Schedules) → b ≤ a → All (λ t. a ≤ due t) st → All (λ t. b ≤ due t) st
AllGe-mono a b [] h k = tt
AllGe-mono a b (s ∷ st) h k = (omega arith, AllGe-mono a b st h k.1)

delete-All :
    (k n : ℕ) (st : Schedules) → All (λ t. n ≤ due t) st → All (λ t. n ≤ due t) (delete key_of k st)
delete-All k n [] h = tt
delete-All k n (s ∷ st) h = ground (arith, delete-All k n st)

pub delete-Asc : (k : ℕ) (st : Schedules) → Asc st → Asc (delete key_of k st)
delete-Asc k [] h = tt
delete-Asc k (s ∷ st) h = ground (arith, delete-Asc k st, delete-All k (due s) st)

module _ ⦃d : Dessert⦄ where
  insert_schedule-All :
      (n : ℕ) (el : Schedule) (st : Schedules)
      → n ≤ due el
      → All (λ t. n ≤ due t) st
      → All (λ t. n ≤ due t) (insert_schedule el st)
  unfolding insert_schedule
  insert_schedule-All n el [] h k = (h, tt)
  insert_schedule-All n el (s ∷ []) h k = ground arith
  insert_schedule-All n el (s ∷ t ∷ st) h k = ground (arith, insert_schedule-All n el (t ∷ st) h)

  pub insert_schedule-Asc : (el : Schedule) (st : Schedules) → Asc st → Asc (insert_schedule el st)
  unfolding insert_schedule
  insert_schedule-Asc el [] k = (tt, tt)
  insert_schedule-Asc el (s ∷ []) k = ground (arith, d.cmp_pos s.execute_ts el.execute_ts)
  insert_schedule-Asc el (s ∷ t ∷ st) k = ground (
    arith,
    d.cmp_pos el.execute_ts s.execute_ts,
    d.cmp_pos s.execute_ts el.execute_ts,
    insert_schedule-Asc el (t ∷ st) k.1,
    insert_schedule-All (due s) el (t ∷ st),
    AllGe-mono (due s) (due el) (t ∷ st),
  )

  pub find-insert_schedule :
      (k : ℕ) (el : Schedule) (st : Schedules)
      → find key_of (key_of el) st ≡ none
      → find key_of k (insert_schedule el st)
        ≡ (if key_of el == k then some el else find key_of k st)
  unfolding insert_schedule
  find-insert_schedule k el [] h = refl
  find-insert_schedule k el (s ∷ []) h = ground arith
  find-insert_schedule k el (s ∷ t ∷ st) h = ground (arith, find-insert_schedule k el (t ∷ st))

  pub insert_schedule-Unique :
      (el : Schedule) (st : Schedules)
      → find key_of (key_of el) st ≡ none
      → Unique key_of st
      → Unique key_of (insert_schedule el st)
  unfolding insert_schedule
  insert_schedule-Unique el [] h u = (refl, tt)
  insert_schedule-Unique el (s ∷ []) h u = ground arith
  insert_schedule-Unique el (s ∷ t ∷ st) h u =
      ground
        (arith, insert_schedule-Unique el (t ∷ st), find-insert_schedule (key_of s) el (t ∷ st))
