-- ===== src/Aodv/Series/Reach.antt =====
-- The steps of the threads, in any order, from an empty list on.
use des_routing_algorithms.Common.{ℕ, ◌<◌, ◌≡◌, ◌≢◌, refl, Bool, false, some, [], find, arith}
use des_routing_algorithms.Aodv.Timeval.{Timeval, Dessert}
use des_routing_algorithms.Aodv.Schedule.{key, addschedule, dropschedule}
use des_routing_algorithms.Aodv.Schedule.Valid.{
  addschedule-IsValid, addschedule_lem, dropschedule_lem, dropschedule-IsValid,
}
use des_routing_algorithms.Aodv.Series.{
  Owner, sending, rescheduling, ending, State, series_of, sc_repeat_rreq, reschedule_series,
  take_task, sent, released, delete_series, delete_series_ether, start_series,
}
use des_routing_algorithms.Aodv.Series.Invariant.{Inv}
use des_routing_algorithms.Aodv.Series.Start.{start_series-Inv}
use des_routing_algorithms.Aodv.Series.Kept.{
  owned_series, released-Inv, reschedule_series-Inv, take_task-Inv,
}
use des_routing_algorithms.Aodv.Series.Deleted.{
  sent-Inv, delete_series-Inv, delete_series_ether-Inv,
}

abbrev pub init : State
init = record { heap = []; series_list = []; tasks = []; owners = []; brk = 1; fault = false }

module _ ⦃d : Dessert⦄ where
  pub data Step (st : State) : State → Type 0 where
    -- `aodv_send_rreq`, called by a thread that has a packet for `addr`
    start : (addr ttl : ℕ) → Step st (start_series addr ttl st)
    -- `aodv_periodic_scexecute`
    take : (timestamp : Timeval) → Step st (take_task timestamp st)
    -- too many RREQs were sent of late
    postpone :
        (p : ℕ) (o : Owner) (when : Timeval) (malloc : Bool)
        → find series_of p st.owners ≡ some o
        → o.phase ≡ sending
        → Step st (released p (reschedule_series when malloc p st))
    send :
        (p : ℕ) (o : Owner) (ring_search : Bool)
        → find series_of p st.owners ≡ some o
        → o.phase ≡ sending
        → Step st (sent ring_search p st)
    repeat :
        (p : ℕ) (o : Owner) (when : Timeval) (malloc : Bool)
        → find series_of p st.owners ≡ some o
        → o.phase ≡ rescheduling
        → Step st (released p (reschedule_series when malloc p st))
    give_up :
        (p : ℕ) (o : Owner)
        → find series_of p st.owners ≡ some o
        → o.phase ≡ ending
        → Step st (released p (delete_series p st))
    -- a RREP from `addr` arrived
    reply : (addr : ℕ) → Step st (delete_series_ether addr st)
    -- the schedule table is used for something else
    add :
        (when : Timeval) (addr type param : ℕ) (malloc : Bool)
        → type < 256
        → type ≢ sc_repeat_rreq
        → Step st (record st { tasks = (addschedule st.tasks when addr type param malloc).0 })
    drop :
        (addr type : ℕ)
        → type < 256
        → type ≢ sc_repeat_rreq
        → Step st (record st { tasks = (dropschedule st.tasks addr type).0 })

  pub data Reach : State → Type 0 where
    initial : Reach init
    later : {st st' : State} → Reach st → Step st st' → Reach st'

  init-Inv : Inv init
  init-Inv = record {
    no_fault = refl;
    heap_unique = tt;
    list_unique = tt;
    owners_unique = tt;
    tasks_valid = record { asc = tt; unique = tt };
    fresh = λ p h. refl;
    listed = λ p. refl;
    keys = λ p q r. elim r [ ];
    owned = λ p h. refl;
    scheduled = λ k t h. cc;
  }

  module _ (st : State) (addr type : ℕ) (small : type < 256) (other : type ≢ sc_repeat_rreq) where
    added-Inv :
        (when : Timeval) (param : ℕ) (malloc : Bool)
        → Inv st
        → Inv (record st { tasks = (addschedule st.tasks when addr type param malloc).0 })
    added-Inv when param malloc i = record {
      no_fault = i.no_fault;
      heap_unique = i.heap_unique;
      list_unique = i.list_unique;
      owners_unique = i.owners_unique;
      tasks_valid = addschedule-IsValid st.tasks when addr type param malloc i.tasks_valid;
      fresh = i.fresh;
      listed = i.listed;
      keys = i.keys;
      owned = i.owned;
      scheduled = λ k t b. i.scheduled k t (
          ground (
            arith,
            addschedule_lem st.tasks when addr type param (key k sc_repeat_rreq) malloc
                i.tasks_valid,
          ));
    }

    dropped-Inv : Inv st → Inv (record st { tasks = (dropschedule st.tasks addr type).0 })
    dropped-Inv i = record {
      no_fault = i.no_fault;
      heap_unique = i.heap_unique;
      list_unique = i.list_unique;
      owners_unique = i.owners_unique;
      tasks_valid = dropschedule-IsValid st.tasks addr type i.tasks_valid;
      fresh = i.fresh;
      listed = i.listed;
      keys = i.keys;
      owned = i.owned;
      scheduled = λ k t b. i.scheduled k t (
          ground (arith, dropschedule_lem st.tasks addr type (key k sc_repeat_rreq) i.tasks_valid));
    }

  pub Step-Inv : (st st' : State) → Inv st → Step st st' → Inv st'
  Step-Inv st _ i (start addr ttl) = start_series-Inv addr ttl st i
  Step-Inv st _ i (take ts) = take_task-Inv ts st i
  Step-Inv st _ i (postpone p o when malloc h e) = reschedule_series-Inv when malloc p st o i h
  Step-Inv st _ i (send p o ring h e) = sent-Inv ring p st o i h
  Step-Inv st _ i (repeat p o when malloc h e) = reschedule_series-Inv when malloc p st o i h
  Step-Inv st _ i (give_up p o h e) =
      let (s, there) = owned_series p st o i h in
      released-Inv p (delete_series p st) (delete_series-Inv p st s i there)
  Step-Inv st _ i (reply addr) = delete_series_ether-Inv addr st i
  Step-Inv st _ i (add when addr type param malloc small other) =
      added-Inv st addr type small other when param malloc i
  Step-Inv st _ i (drop addr type small other) = dropped-Inv st addr type small other i

  -- Whatever the threads do, and in whatever order: none follows the address of a series that was
  -- freed, a series that is owned, scheduled or in the list is in memory, at most one series in the
  -- list is for a destination, and a scheduled series is in the list and has no owner.
  pub Reach-Inv : (st : State) → Reach st → Inv st
  Reach-Inv _ initial = init-Inv
  Reach-Inv _ (later {st} {st'} r s) = Step-Inv st st' (Reach-Inv st r) s
