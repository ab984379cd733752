-- ===== src/Aodv/Series/Kept.antt =====
-- What the threads do to a series they found or own keeps the invariant.
use des_routing_algorithms.Common.{
  ℕ, ◌≡◌, Bool, true, false, none, some, [], ◌∷◌, ◌++◌, if◌then◌else◌, ◌==◌, find, delete, arith,
  find-append, append-Unique, Option-cases, Bool-cases, inl, inr, find-delete_ne, find-delete_self,
  delete-Unique, find-delete-none,
}
use des_routing_algorithms.Aodv.Timeval.{Timeval, Dessert, micros}
use des_routing_algorithms.Aodv.Schedule.{
  Schedule, Schedules, key, addschedule, popschedule, create_schedule,
}
use des_routing_algorithms.Aodv.Schedule.Valid.{
  lookup, Pops, popschedule-Pops, addschedule-IsValid, addschedule_lem,
}
use des_routing_algorithms.Aodv.Series.{
  Series, Owner, sending, State, self_of, series_of, sc_repeat_rreq, reschedule_series, take_task,
  released,
}
use des_routing_algorithms.Aodv.Series.Invariant.{Inv, Scheduled}

pub released-Inv : (p : ℕ) (st : State) → Inv st → Inv (released p st)
released-Inv p st i = record {
  no_fault = i.no_fault;
  heap_unique = i.heap_unique;
  list_unique = i.list_unique;
  owners_unique = delete-Unique series_of p st.owners i.owners_unique;
  tasks_valid = i.tasks_valid;
  fresh = i.fresh;
  listed = i.listed;
  keys = i.keys;
  owned = λ q h. find-delete-none series_of q p st.owners (i.owned q h);
  scheduled = λ k t h. (
    (i.scheduled k t h).0,
    find-delete-none series_of t.schedule_param p st.owners (i.scheduled k t h).1,
  );
}

-- An owned series is in memory.
pub owned_series :
    (p : ℕ) (st : State) (o : Owner)
    → Inv st
    → find series_of p st.owners ≡ some o
    → (s : Series) × (find self_of p st.heap ≡ some s)
owned_series p st o i h = elim (Option-cases (find self_of p st.heap)) [
  | inl e ↦ ground (arith, i.owned p e)
  | inr r ↦ r
]

module _ (p : ℕ) (st : State) (s : Series) where
  -- An owner that finds its series stopped frees it.
  abbrev freed : State
  freed = released p (record st { heap = delete self_of p st.heap })

  freed-Inv :
      Inv st
      → find self_of p st.heap ≡ some s
      → s.stop ≡ true
      → (o : Owner) → find series_of p st.owners ≡ some o
      → Inv freed
  freed-Inv i h l o w = record {
    no_fault = i.no_fault;
    heap_unique = delete-Unique self_of p st.heap i.heap_unique;
    list_unique = i.list_unique;
    owners_unique = delete-Unique series_of p st.owners i.owners_unique;
    tasks_valid = i.tasks_valid;
    fresh = λ q b. find-delete-none self_of q p st.heap (i.fresh q b);
    listed = λ q. ground (
      arith,
      i.listed q,
      find-delete_ne self_of q p st.heap,
      find-delete_self self_of p st.heap i.heap_unique,
    );
    keys = λ q r b. ground (
      arith,
      i.keys q r,
      find-delete_ne self_of q p st.heap,
      find-delete_ne self_of r p st.heap,
      find-delete_self self_of p st.heap i.heap_unique,
    );
    owned = λ q b. ground (
      arith,
      i.owned q,
      find-delete_ne self_of q p st.heap,
      find-delete_ne series_of q p st.owners,
      find-delete_self series_of p st.owners i.owners_unique,
    );
    scheduled = λ k t b. ground (
      arith,
      i.scheduled k t b,
      find-delete_ne self_of t.schedule_param p st.heap,
      find-delete-none series_of t.schedule_param p st.owners,
    );
  }

  module _ ⦃d : Dessert⦄ (when : Timeval) (malloc : Bool) where
    -- An owner hands its series to the schedule table.
    abbrev handed : State
    handed =
        released p
          (record st { tasks = (addschedule st.tasks when s.key sc_repeat_rreq p malloc).0 })

    handed-Inv : Inv st → find self_of p st.heap ≡ some s → s.stop ≡ false → Inv handed
    unfolding create_schedule
    handed-Inv i h l = record {
      no_fault = i.no_fault;
      heap_unique = i.heap_unique;
      list_unique = i.list_unique;
      owners_unique = delete-Unique series_of p st.owners i.owners_unique;
      tasks_valid = addschedule-IsValid st.tasks when s.key sc_repeat_rreq p malloc i.tasks_valid;
      fresh = i.fresh;
      listed = i.listed;
      keys = i.keys;
      owned = λ q b. find-delete-none series_of q p st.owners (i.owned q b);
      scheduled = λ k t b. ground (
        arith,
        i.scheduled k t,
        addschedule_lem st.tasks when s.key sc_repeat_rreq p (key k sc_repeat_rreq) malloc
            i.tasks_valid,
        find-delete-none series_of t.schedule_param p st.owners,
        find-delete_self series_of p st.owners i.owners_unique,
      );
    }

module _ ⦃d : Dessert⦄ where
  pub reschedule_series-Inv :
      (when : Timeval) (malloc : Bool) (p : ℕ) (st : State) (o : Owner)
      → Inv st
      → find series_of p st.owners ≡ some o
      → Inv (released p (reschedule_series when malloc p st))
  unfolding reschedule_series
  reschedule_series-Inv when malloc p st o i w =
      let (s, h) = owned_series p st o i w in
      elim (Bool-cases s.stop) [
        | inl l ↦ rw (reschedule_series, h, l) (freed-Inv p st s i h l o w)
        | inr l ↦ rw (reschedule_series, h, l) (handed-Inv p st s when malloc i h l)
      ]

  module _ (ts : Timeval) (st : State) (tasks' : Schedules) (t : Schedule) where
    abbrev left : State
    left = record st { tasks = tasks' }

    left-Inv : Inv st → Pops st.tasks (micros ts) tasks' (some t) → Inv left
    left-Inv i h = record {
      no_fault = i.no_fault;
      heap_unique = i.heap_unique;
      list_unique = i.list_unique;
      owners_unique = i.owners_unique;
      tasks_valid = h.0;
      fresh = i.fresh;
      listed = i.listed;
      keys = i.keys;
      owned = i.owned;
      scheduled = λ k u b. i.scheduled k u (ground (arith, h.4 (key k sc_repeat_rreq)));
    }

    abbrev repeater : Owner
    repeater = record { series = t.schedule_param; phase = sending }

    abbrev repeating : State
    repeating = record st { tasks = tasks'; owners = st.owners ++ repeater ∷ [] }

    repeating-Inv :
        Inv st
        → Pops st.tasks (micros ts) tasks' (some t)
        → t.schedule_id ≡ sc_repeat_rreq
        → Inv repeating
    repeating-Inv i h e =
        let found : lookup (key t.ether_addr sc_repeat_rreq) st.tasks ≡ some t =
          ground (arith, h.3) in
        let there : Scheduled t.ether_addr (find self_of t.schedule_param st.heap)
            × (find series_of t.schedule_param st.owners ≡ none) =
          i.scheduled t.ether_addr t found in
        record {
          no_fault = i.no_fault;
          heap_unique = i.heap_unique;
          list_unique = i.list_unique;
          owners_unique = append-Unique series_of st.owners repeater i.owners_unique there.1;
          tasks_valid = h.0;
          fresh = i.fresh;
          listed = i.listed;
          keys = i.keys;
          owned =
              λ q b. ground (arith, i.owned q, find-append series_of q st.owners (repeater ∷ []));
          scheduled = λ k u b. ground (
            arith,
            h.4 (key k sc_repeat_rreq),
            i.scheduled k u,
            i.keys t.schedule_param u.schedule_param,
            find-append series_of u.schedule_param st.owners (repeater ∷ []),
          );
        }

    popped-Inv :
        Inv st
        → Pops st.tasks (micros ts) tasks' (some t)
        → Inv (if t.schedule_id == sc_repeat_rreq then repeating else left)
    popped-Inv i h = elim (Bool-cases (t.schedule_id == sc_repeat_rreq)) [
      | inl e ↦ rw e (repeating-Inv i h (ground arith))
      | inr e ↦ rw e (left-Inv i h)
    ]

  pub take_task-Inv : (ts : Timeval) (st : State) → Inv st → Inv (take_task ts st)
  unfolding take_task
  take_task-Inv ts st i =
      let pops : let (st', popped) = popschedule st.tasks ts in
          Pops st.tasks (micros ts) st' popped =
        popschedule-Pops st.tasks ts i.tasks_valid in
      elim (Option-cases (popschedule st.tasks ts).1) [
        | inl e ↦ rw (take_task, e) i
        | inr (t, e) ↦
            rw (take_task, e) (popped-Inv ts st (popschedule st.tasks ts).0 t i (rw e at pops))
      ]
