-- ===== src/Aodv/RoutingTable/Tests.antt =====
-- Runs of the routing table, and the theorems on it at these values.
use des_routing_algorithms.Common.{
  ℕ, ◌≡◌, refl, arith, true, false, none, some, [], ◌∷◌, if◌then◌else◌, pos,
}
use des_routing_algorithms.Aodv.Helper.{comp_u32}
use des_routing_algorithms.Aodv.Timeval.{micros}
use des_routing_algorithms.Aodv.Timeval.Clock.{clock, seconds}
use des_routing_algorithms.Aodv.Timeslot.Lookup.{expired_of}
use des_routing_algorithms.Aodv.Timeslot.Valid as Slot
use des_routing_algorithms.Aodv.RoutingTable.Defs.{
  RtEntry, NhtEntry, Rt, unused, new_entry, find_or_create, purge_rt_entry, my_route_timeout,
}
use des_routing_algorithms.Aodv.RoutingTable.Capture.{
  capt_rrep, getroute2dest, rt_cleanup, reverse_route, write_entry,
}
use des_routing_algorithms.Aodv.RoutingTable.Query.{markrouteinv}
use des_routing_algorithms.Aodv.RoutingTable.Breaks.{get_destlist}
use des_routing_algorithms.Aodv.RoutingTable.Purge.{IsSound, at, entry_for, unless}
use des_routing_algorithms.Aodv.RoutingTable.Valid.{IsValid, rt_cleanup-IsValid}
use des_routing_algorithms.Aodv.RoutingTable.Create.{Ends, find_or_create-Ends}
use des_routing_algorithms.Aodv.RoutingTable.Forwarding.{
  route_of, getroute2dest-capt_rrep, getroute2dest-markrouteinv,
}
use des_routing_algorithms.Aodv.RoutingTable.Hops.{target, IsNht}
use des_routing_algorithms.Aodv.RoutingTable.Links.{IsLinked}
use des_routing_algorithms.Aodv.RoutingTable.Dangling.{reverse_route-dangles}

-- A route to host 20 over the neighbor 30, with the number 5, until nine seconds.
abbrev route : RtEntry
route = record {
  self = 1;
  addr = 20;
  next_hop = 30;
  output_iface = 2;
  sequence_number = 5;
  metric = 3;
  hop_count = 3;
  flags = unused;
  precursor_list = [];
}

abbrev over_neighbor : NhtEntry
over_neighbor = record {
  destination_host_next_hop = 30;
  dest_list = record { destination_host = 20; rt_entry = 1 } ∷ [];
}

abbrev rt : Rt
rt = record {
  tables = record { entries = route ∷ []; nht = over_neighbor ∷ []; fault = false };
  ts = record {
    elements = record { purge_time = seconds 9; object = 1 } ∷ [];
    size = 1;
    purge_timeout = my_route_timeout;
  };
  brk = 2;
}

rt-IsSound : IsSound rt.tables
rt-IsSound = record { addrs = (refl, tt); selves = (refl, tt); no_fault = refl }

rt-IsValid : IsValid rt
rt-IsValid = record {
  slot = record { desc = (tt, tt); unique = (refl, tt); counted = refl; fits = omega arith };
  sound = rt-IsSound;
  fresh = λ p h. ground arith;
  owned = λ p h. ground arith;
}

rt-IsNht : IsNht rt.tables.nht
rt-IsNht = record { hops = (refl, tt); hosts = λ hop. ground arith }

rt-IsLinked : IsLinked rt.tables
rt-IsLinked = record { nht = rt-IsNht; leads = λ hop host. ground arith }

abbrev keep : ℕ → ℕ → ℕ → ℕ
keep neighbor iface n = n

-- A RREP with the newer number 6 over the neighbor 31.
rrep_used :
    (capt_rrep keep (pos 1) rt 0 20 31 2 6 1 1 (seconds 5) (seconds 5) (true, true)).2 ≡ true
unfolding capt_rrep find_or_create comp_u32
rrep_used = refl

getroute2dest-capt_rrep_example :
    let rt' = (capt_rrep keep (pos 1) rt 0 20 31 2 6 1 1 (seconds 5) (seconds 5) (true, true)).0 in
    (getroute2dest rt' 20 (seconds 6) (seconds 6) unused true).1 ≡ some (31, 2)
getroute2dest-capt_rrep_example =
    getroute2dest-capt_rrep keep (pos 1) rt 0 20 31 2 6 1 1 (seconds 5) (seconds 5) (seconds 6)
      (true, true) unused true rt-IsValid (omega arith) (omega arith) rrep_used

getroute2dest-markrouteinv_example :
    let (rt', marked) = markrouteinv rt 20 7 in
    IsValid rt'
    × ((getroute2dest rt' 20 (seconds 6) (seconds 6) unused true).1
        ≡ (if marked then none else route_of (entry_for 20 rt.tables)))
getroute2dest-markrouteinv_example =
    getroute2dest-markrouteinv rt 20 7 (seconds 6) (seconds 6) unused true rt-IsValid

rt_cleanup-IsValid_example :
    IsValid (rt_cleanup rt (seconds 9))
    × ((p : ℕ)
        → at p (rt_cleanup rt (seconds 9)).tables
          ≡ unless (expired_of (micros (seconds 9)) (Slot.lookup p rt.ts)) (at p rt.tables))
rt_cleanup-IsValid_example = rt_cleanup-IsValid rt rt-IsValid (seconds 9)

find_or_create-Ends_example :
    Ends rt 40 (find_or_create rt 40 (seconds 5) (seconds 5) (true, false))
find_or_create-Ends_example =
    find_or_create-Ends rt 40 (seconds 5) (seconds 5) rt-IsValid (true, false) (omega arith)
      (omega arith)

reverse_route-dangles_example :
    let rt' = write_entry 1 (reverse_route 31 2 6 1 1) rt in
    let t = purge_rt_entry (seconds 9) 1 rt'.tables in
    (target 30 20 t.nht ≡ some 1) × (at 1 t ≡ none) × ((get_destlist t 30).0.fault ≡ true)
reverse_route-dangles_example =
    reverse_route-dangles rt route 31 2 6 1 1 (seconds 9) rt-IsSound rt-IsLinked refl refl refl
      (λ h. ground arith)

-- The entries for host 50 and for host 20, which RREQs have made.
abbrev asked : RtEntry
asked = new_entry 1 50

abbrev heard : RtEntry
heard = new_entry 2 20

abbrev heard_rt : Rt
heard_rt = record rt {
  tables = record { entries = asked ∷ heard ∷ []; nht = []; fault = false };
  brk = 3;
}
