-- ===== src/Aodv/Series/Tests.antt =====
-- A series that is tried for the last time.
use des_routing_algorithms.Common.{ℕ, ◌≡◌, refl, true, false, some, none, find}
use des_routing_algorithms.Aodv.Timeval.Clock.{clock, seconds}
use des_routing_algorithms.Aodv.Series.{
  Owner, Phase, sending, rescheduling, ending, State, series_of, reschedule_series, take_task, sent,
  released, delete_series, delete_series_ether, start_series, new_series, search,
}
use des_routing_algorithms.Aodv.Schedule.{
  popschedule, addschedule, create_schedule, insert_schedule, dropschedule,
}
use des_routing_algorithms.Aodv.Series.Start.{started}
use des_routing_algorithms.Aodv.Series.Reach.{
  init, start, take, send, repeat, Reach, initial, later, Reach-Inv,
}
use des_routing_algorithms.Aodv.Series.Invariant.{Inv}
use des_routing_algorithms.Aodv.Series.Leak.{Lost, stay, more, give_up-Lost}
use des_routing_algorithms.Aodv.Series.Refines.{Change, Allowed, after, Step-searched}
use des_routing_algorithms.Aodv.Series.Searched.{searched}
use des_routing_algorithms.Aodv.Series.Reply.{delete_series_ether-start_series}

abbrev owner : Phase → Owner
owner ph = record { series = 1; phase = ph }

-- The state with the message for host 7 sent, and n tries still counted.
abbrev try : State → State
try st = sent false 1 (take_task (seconds 2) (released 1 (reschedule_series (seconds 1) true 1 st)))

abbrev first_try : State
first_try = sent false 1 (start_series 7 255 init)

abbrev last_try : State
last_try = try (try (try (try (try first_try))))

-- Each further try is four steps.
try-Reach :
    (st : State)
    → Reach st
    → find series_of 1 st.owners ≡ some (owner rescheduling)
    → find series_of 1
        (take_task (seconds 2) (released 1 (reschedule_series (seconds 1) true 1 st))).owners
      ≡ some (owner sending)
    → Reach (try st)
try-Reach st r e f =
    later (later (later r (repeat 1 _ (seconds 1) true e refl)) (take (seconds 2)))
      (send 1 _ false f refl)

first_try-Reach : Reach first_try
unfolding start_series new_series search
first_try-Reach = later (later initial (start 7 255)) (send 1 (owner sending) false refl refl)

last_try-Reach : Reach last_try
unfolding sent take_task popschedule reschedule_series start_series new_series search addschedule
    create_schedule insert_schedule dropschedule
last_try-Reach =
    try-Reach _
      (try-Reach _
        (try-Reach _ (try-Reach _ (try-Reach _ first_try-Reach refl refl) refl refl) refl refl) refl
        refl)
      refl refl

Reach-Inv_example : Inv last_try
Reach-Inv_example = Reach-Inv last_try last_try-Reach

delete_series_ether-start_series_example :
    (search 7 (delete_series_ether 7 last_try).heap (delete_series_ether 7 last_try).series_list
      ≡ (false, none))
    × (start_series 7 255 (delete_series_ether 7 last_try)
        ≡ started 7 255 (delete_series_ether 7 last_try))
delete_series_ether-start_series_example =
    delete_series_ether-start_series 7 255 last_try last_try-Reach

give_up-Lost_example : Lost 1 (start_series 7 255 (released 1 (delete_series 1 last_try)))
unfolding sent take_task popschedule reschedule_series start_series new_series search addschedule
    create_schedule insert_schedule dropschedule
give_up-Lost_example =
    give_up-Lost last_try (start_series 7 255 (released 1 (delete_series 1 last_try))) 1
      (owner ending) last_try-Reach refl refl (more stay (start 7 255))

-- The series for the host is still in memory beside the new one.
two_series :
    search 7
      (start_series 7 255 (released 1 (delete_series 1 last_try))).heap
      (start_series 7 255 (released 1 (delete_series 1 last_try))).series_list
    ≡ (false, some (record { self = 2; key = 7; ttl = 255; retries = 0; stop = false }))
unfolding sent take_task popschedule reschedule_series start_series new_series search addschedule
    create_schedule insert_schedule dropschedule delete_series
two_series = refl

Step-searched_example :
    (c : Change) × Allowed init (start_series 7 255 init) (start 7 255) c
    × ((host : ℕ) → searched (start_series 7 255 init) host ≡ after c (searched init) host)
Step-searched_example = Step-searched init (start_series 7 255 init) (start 7 255) initial
