-- ===== src/Aodv/Schedule.antt =====
-- des-aodv/trunk/src/database/schedule_table/aodv_st.c: tasks by the time at which they are due.
-- The list from `first_schedule` and the table `hash_table` hold the same elements at every return,
-- so they are one list. `malloc` says whether there is memory for a new element.
pub mod Order
pub mod Valid
mod Tests
use des_routing_algorithms.Common.{
  ℕ, ◌+◌, ◌*◌, ◌^◌, Bool, true, false, not, Option, none, some, List, [], ◌∷◌, if◌then◌else◌,
  is_pos, find, delete,
}
use des_routing_algorithms.Aodv.Timeval.{Timeval, Dessert}

pub record Schedule : Type 0 where
  pub execute_ts : Timeval
  pub ether_addr : ℕ
  pub schedule_id : ℕ
  pub schedule_param : ℕ

-- The seven bytes of the table's key: the address, and the type as one byte.
abbrev pub key : ℕ → ℕ → ℕ
key ether_addr type = ether_addr * 2 ^ 8 + type

abbrev pub key_of : Schedule → ℕ
key_of s = key s.ether_addr s.schedule_id

abbrev pub Schedules : Type 0
Schedules = List Schedule

unfoldable pub create_schedule : Timeval → ℕ → ℕ → ℕ → Bool → Option Schedule
create_schedule execute_ts ether_addr type param true = some (record {
  execute_ts = execute_ts;
  ether_addr = ether_addr;
  schedule_id = type;
  schedule_param = param;
})
create_schedule execute_ts ether_addr type param false = none

unfoldable pub schedule_exists : Schedules → ℕ → ℕ → Bool
schedule_exists st ether_addr type = elim (find key_of (key ether_addr type) st) [
  | none ↦ false
  | some _ ↦ true
]

unfoldable pub dropschedule : Schedules → ℕ → ℕ → Schedules × Bool
dropschedule st ether_addr type = elim (find key_of (key ether_addr type) st) [
  | none ↦ (st, false)
  | some _ ↦ (delete key_of (key ether_addr type) st, true)
]

module _ ⦃d : Dessert⦄ where
  -- The loop passes the elements that are due earlier, but not the last one; the new element goes
  -- before the element that was reached if that is due later, and otherwise after it.
  unfoldable pub insert_schedule : Schedule → Schedules → Schedules
  insert_schedule el [] = el ∷ []
  insert_schedule el (s ∷ []) =
      if is_pos (d.timevalcmp s.execute_ts el.execute_ts) then el ∷ s ∷ [] else s ∷ el ∷ []
  insert_schedule el (s ∷ t ∷ rest) =
      if is_pos (d.timevalcmp el.execute_ts s.execute_ts)
      then s ∷ insert_schedule el (t ∷ rest)
      else if is_pos (d.timevalcmp s.execute_ts el.execute_ts)
      then el ∷ s ∷ t ∷ rest
      else s ∷ el ∷ t ∷ rest

  unfoldable pub addschedule :
      Schedules → Timeval → ℕ → ℕ → (param : ℕ) (malloc : Bool) → Schedules × Bool
  addschedule st execute_ts ether_addr type param malloc =
      let st' = (dropschedule st ether_addr type).0 in
      elim (create_schedule execute_ts ether_addr type param malloc) [
        | none ↦ (st', false)
        | some el ↦ (insert_schedule el st', true)
      ]

  -- The popped schedule stands for what is written through `ether_addr_out`, `type` and `param`.
  unfoldable pub popschedule : Schedules → Timeval → Schedules × Option Schedule
  popschedule [] timestamp = ([], none)
  popschedule (s ∷ rest) timestamp =
      if not (is_pos (d.timevalcmp s.execute_ts timestamp))
      then (rest, some s)
      else (s ∷ rest, none)
