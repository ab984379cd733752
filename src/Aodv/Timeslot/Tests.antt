-- ===== src/Aodv/Timeslot/Tests.antt =====
-- Runs of a timeslot, and the theorems on it at these values.
use des_routing_algorithms.Common.{
  ℕ, ◌+◌, ◌≡◌, refl, arith, true, some, [], ◌∷◌, if◌then◌else◌, ◌==◌,
}
use des_routing_algorithms.Aodv.Timeval.{Timeval, micros}
use des_routing_algorithms.Aodv.Timeval.Clock.{clock, seconds}
use des_routing_algorithms.Aodv.Timeslot.{
  Timeslot, timeslot_deleteobject, timeslot_purgeobjects, timeslot_addobject_varpurge, insert_walk,
  purge_loop, purge_tail, insert_new,
}
use des_routing_algorithms.Aodv.Timeslot.Lookup.{live_of}
use des_routing_algorithms.Aodv.Timeslot.Valid.{IsValid, lookup}
use des_routing_algorithms.Aodv.Timeslot.Add.{new_element, addobject_varpurge_lem}

-- Objects 7 and 3, which expire at nine and at four seconds.
abbrev slot : Timeslot
slot = record {
  elements =
      record { purge_time = seconds 9; object = 7 }
      ∷ record { purge_time = seconds 4; object = 3 }
      ∷ [];
  size = 2;
  purge_timeout = seconds 5;
}

slot-IsValid : IsValid slot
slot-IsValid = record {
  desc = ((omega arith, tt), (tt, tt));
  unique = (refl, (refl, tt));
  counted = refl;
  fits = omega arith;
}

-- A purger that counts its calls.
abbrev count_calls : Timeval → ℕ → ℕ → ℕ
count_calls purge_time object n = n + 1

-- At five seconds object 5 goes between the others, and object 3 is purged.
added :
    (timeslot_addobject_varpurge count_calls slot (seconds 3) 5 (seconds 5) (seconds 5) true 0).1
    ≡ 1
unfolding timeslot_addobject_varpurge insert_new insert_walk timeslot_purgeobjects purge_loop
    purge_tail timeslot_deleteobject
added = refl

addobject_varpurge_example :
    let (ts', s', result) =
      timeslot_addobject_varpurge count_calls slot (seconds 3) 5 (seconds 5) (seconds 5) true 0 in
    (result ≡ true)
    × (lookup 3 ts'
        ≡ live_of (micros (seconds 5)) (
            if 5 == 3
            then some
                (new_element count_calls slot (seconds 3) (seconds 5) (seconds 5) 5 slot-IsValid)
            else lookup 3 slot))
addobject_varpurge_example =
    addobject_varpurge_lem count_calls slot (seconds 3) (seconds 5) (seconds 5) 5 slot-IsValid 3 0
      (omega arith) (omega arith)
