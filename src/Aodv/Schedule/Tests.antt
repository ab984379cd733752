-- ===== src/Aodv/Schedule/Tests.antt =====
-- Runs of the schedule table, and the theorems on it at these values.
use des_routing_algorithms.Common.{◌≡◌, refl, arith, true, some, [], ◌∷◌}
use des_routing_algorithms.Aodv.Timeval.{micros}
use des_routing_algorithms.Aodv.Timeval.Clock.{clock, seconds}
use des_routing_algorithms.Aodv.Schedule.{
  Schedules, create_schedule, insert_schedule, dropschedule, addschedule, popschedule,
}
use des_routing_algorithms.Aodv.Schedule.Valid.{IsValid, Pops, popschedule-Pops}

-- Task 1 for station 7 at four seconds, and task 2 at nine.
abbrev tasks : Schedules
tasks =
    record { execute_ts = seconds 4; ether_addr = 7; schedule_id = 1; schedule_param = 0 }
    ∷ record { execute_ts = seconds 9; ether_addr = 7; schedule_id = 2; schedule_param = 0 }
    ∷ []

tasks-IsValid : IsValid tasks
tasks-IsValid = record { asc = ((omega arith, tt), (tt, tt)); unique = (refl, (refl, tt)) }

-- A task at the same time as another goes behind it.
popped_twice :
    let (st, _) = addschedule tasks (seconds 4) 5 1 0 true in
    let (st', _) = popschedule st (seconds 4) in
    (popschedule st' (seconds 4)).1
    ≡ some (record { execute_ts = seconds 4; ether_addr = 5; schedule_id = 1; schedule_param = 0 })
unfolding addschedule popschedule insert_schedule dropschedule create_schedule
popped_twice = refl

popschedule-Pops_example :
    let (st', popped) = popschedule tasks (seconds 5) in Pops tasks (micros (seconds 5)) st' popped
popschedule-Pops_example = popschedule-Pops tasks (seconds 5) tasks-IsValid
