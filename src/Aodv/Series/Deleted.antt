-- ===== src/Aodv/Series/Deleted.antt =====
-- Sending, and deleting a series, keep the invariant.
use mathlib.Core.Option
use des_routing_algorithms.Common.{
  ℕ, ◌+◌, ◌≡◌, refl, Bool, true, false, none, some, if◌then◌else◌, ◌==◌, ◌⊎◌, ◌↔◌, find, delete,
  modify, arith, Option-cases, Bool-cases, inl, inr, find-delete_ne, find-delete_self,
  find-modify_ne, find-modify_self, delete-Unique, modify-Unique, find-delete-none, leb,
}
use des_routing_algorithms.Aodv.Schedule.{Schedule, key, dropschedule, schedule_exists}
use des_routing_algorithms.Aodv.Schedule.Valid.{lookup, dropschedule_lem, dropschedule-IsValid}
use des_routing_algorithms.Aodv.Series.{
  Series, Owner, rescheduling, ending, State, self_of, address_of, series_of, sc_repeat_rreq, sent,
  delete_series, delete_series_ether, search, next_ttl, rreq_retries,
}
use des_routing_algorithms.Aodv.Series.Search.{search-live, search-some}
use des_routing_algorithms.Aodv.Series.Invariant.{Inv}
use des_routing_algorithms.Aodv.Series.Kept.{owned_series}

-- A write to a series that keeps its key and its mark.
-- A new try leaves a series its key and its mark.
module _ (ring : Bool) (p : ℕ) (st : State) where
  abbrev pub retried : Series → Series
  retried x = record x { retries = x.retries + 1; ttl = next_ttl ring x.ttl }

  pub find_written :
      (q : ℕ)
      → find self_of q (modify self_of p retried st.heap)
        ≡ (if p == q then Option.map retried (find self_of q st.heap) else find self_of q st.heap)
  find_written q = ground (
    arith,
    find-modify_self self_of retried (λ _. refl) p st.heap,
    find-modify_ne self_of retried (λ _. refl) q p st.heap,
  )

  written-Inv : Inv st → Inv (record st { heap = modify self_of p retried st.heap })
  written-Inv i = record {
    no_fault = i.no_fault;
    heap_unique = modify-Unique self_of retried (λ _. refl) p st.heap i.heap_unique;
    list_unique = i.list_unique;
    owners_unique = i.owners_unique;
    tasks_valid = i.tasks_valid;
    fresh = λ q b. ground (arith, find_written q, i.fresh q b);
    listed = λ q. ground (arith, find_written q, i.listed q);
    keys = λ q r b. ground (arith, find_written q, find_written r, i.keys q r);
    owned = λ q b. ground (arith, find_written q, i.owned q);
    scheduled = λ k t b. ground (arith, i.scheduled k t b, find_written t.schedule_param);
  }

module _ (f : Owner → Owner) (series_kept : (o : Owner) → series_of (f o) ≡ series_of o) (p : ℕ)
    (st : State) where
  find_phase :
      (q : ℕ)
      → find series_of q st.owners ≡ none
      → find series_of q (modify series_of p f st.owners) ≡ none
  find_phase q h = ground (
    arith,
    find-modify_self series_of f series_kept p st.owners,
    find-modify_ne series_of f series_kept q p st.owners,
  )

  phase-Inv : Inv st → Inv (record st { owners = modify series_of p f st.owners })
  phase-Inv i = record {
    no_fault = i.no_fault;
    heap_unique = i.heap_unique;
    list_unique = i.list_unique;
    owners_unique = modify-Unique series_of f series_kept p st.owners i.owners_unique;
    tasks_valid = i.tasks_valid;
    fresh = i.fresh;
    listed = i.listed;
    keys = i.keys;
    owned = λ q b. find_phase q (i.owned q b);
    scheduled = λ k t b. ((i.scheduled k t b).0, find_phase t.schedule_param (i.scheduled k t b).1);
  }

pub sent-Inv :
    (ring : Bool) (p : ℕ) (st : State) (o : Owner)
    → Inv st
    → find series_of p st.owners ≡ some o
    → Inv (sent ring p st)
unfolding sent
sent-Inv ring p st o i w =
    let (s, h) = owned_series p st o i w in
    elim (Bool-cases (leb rreq_retries s.retries)) [
      | inl l ↦ rw (sent, h, l) (phase-Inv (λ o. record o { phase = ending }) (λ _. refl) p st i)
      | inr l ↦
          rw (sent, h, l)
            (phase-Inv (λ o. record o { phase = rescheduling }) (λ _. refl) p _
              (written-Inv ring p st i))
    ]

module _ (p : ℕ) (st : State) (s : Series) where
  abbrev pub stop_it : Series → Series
  stop_it x = record x { stop = true }

  abbrev pub stopped : State
  stopped = record st {
    heap = modify self_of p stop_it st.heap;
    series_list = delete address_of p st.series_list;
    tasks = (dropschedule st.tasks s.key sc_repeat_rreq).0;
  }

  abbrev taken : State
  taken = record stopped { heap = delete self_of p stopped.heap }

  pub find_stopped :
      (q : ℕ)
      → find self_of q stopped.heap
        ≡ (if p == q then Option.map stop_it (find self_of q st.heap) else find self_of q st.heap)
  find_stopped q = ground (
    arith,
    find-modify_self self_of stop_it (λ _. refl) p st.heap,
    find-modify_ne self_of stop_it (λ _. refl) q p st.heap,
  )

  -- The task for a series that is in the list is its own.
  own_task :
      Inv st
      → find self_of p st.heap ≡ some s
      → s.stop ≡ false
      → (k : ℕ) (t : Schedule) → lookup (key k sc_repeat_rreq) st.tasks ≡ some t
      → (k ≡ s.key) ↔ (t.schedule_param ≡ p)
  own_task i h l k t b = (
    λ e. ground (arith, i.scheduled k t b, i.keys p t.schedule_param),
    λ e. ground (arith, i.scheduled k t b),
  )

  pub stopped-Inv : Inv st → find self_of p st.heap ≡ some s → s.stop ≡ false → Inv stopped
  stopped-Inv i h l = record {
    no_fault = i.no_fault;
    heap_unique = modify-Unique self_of stop_it (λ _. refl) p st.heap i.heap_unique;
    list_unique = delete-Unique address_of p st.series_list i.list_unique;
    owners_unique = i.owners_unique;
    tasks_valid = dropschedule-IsValid st.tasks s.key sc_repeat_rreq i.tasks_valid;
    fresh = λ q b. ground (arith, find_stopped q, i.fresh q b);
    listed = λ q. ground (
      arith,
      find_stopped q,
      i.listed q,
      find-delete_ne address_of q p st.series_list,
      find-delete_self address_of p st.series_list i.list_unique,
    );
    keys = λ q r b. ground (arith, find_stopped q, find_stopped r, i.keys q r);
    owned = λ q b. ground (arith, find_stopped q, i.owned q);
    scheduled = λ k t b. ground (
      arith,
      i.scheduled k t,
      find_stopped t.schedule_param,
      own_task i h l k t,
      dropschedule_lem st.tasks s.key sc_repeat_rreq (key k sc_repeat_rreq) i.tasks_valid,
    );
  }

  taken-Inv : Inv stopped → find series_of p st.owners ≡ none → Inv taken
  taken-Inv i n = record {
    no_fault = i.no_fault;
    heap_unique = delete-Unique self_of p stopped.heap i.heap_unique;
    list_unique = i.list_unique;
    owners_unique = i.owners_unique;
    tasks_valid = i.tasks_valid;
    fresh = λ q b. find-delete-none self_of q p stopped.heap (i.fresh q b);
    listed = λ q. ground (
      arith,
      find_stopped q,
      i.listed q,
      find-delete_ne self_of q p stopped.heap,
      find-delete_self self_of p stopped.heap i.heap_unique,
    );
    keys = λ q r b. ground (
      arith,
      i.keys q r,
      find-delete_ne self_of q p stopped.heap,
      find-delete_ne self_of r p stopped.heap,
      find-delete_self self_of p stopped.heap i.heap_unique,
    );
    owned = λ q b. ground (arith, i.owned q, find-delete_ne self_of q p stopped.heap);
    scheduled = λ k t b. ground (
      arith,
      i.scheduled k t b,
      find_stopped t.schedule_param,
      find-delete_ne self_of t.schedule_param p stopped.heap,
    );
  }

  pub dropped_cases :
      Inv st
      → find self_of p st.heap ≡ some s
      → s.stop ≡ false
      → ((dropschedule st.tasks s.key sc_repeat_rreq).1 ≡ false)
        ⊎ (((dropschedule st.tasks s.key sc_repeat_rreq).1 ≡ true)
            × (find series_of p st.owners ≡ none))
  unfolding schedule_exists
  dropped_cases i h l = elim (Option-cases (lookup (key s.key sc_repeat_rreq) st.tasks)) [
    | inl e ↦ inl (ground (arith, dropschedule_lem st.tasks s.key sc_repeat_rreq 0 i.tasks_valid))
    | inr (t, e) ↦ inr (
      ground (arith, dropschedule_lem st.tasks s.key sc_repeat_rreq 0 i.tasks_valid),
      ground (arith, i.scheduled s.key t e, own_task i h l s.key t e),
    )
  ]

  pub delete_series-Inv : Inv st → find self_of p st.heap ≡ some s → Inv (delete_series p st)
  unfolding delete_series
  delete_series-Inv i h = elim (Bool-cases s.stop) [
    | inl l ↦ rw (delete_series, h, l) i
    | inr l ↦ elim (dropped_cases i h l) [
      | inl e ↦ rw (delete_series, h, l, e) (stopped-Inv i h l)
      | inr (e, n) ↦ rw (delete_series, h, l, e) (taken-Inv (stopped-Inv i h l) n)
    ]
  ]

pub delete_series_ether-Inv : (addr : ℕ) (st : State) → Inv st → Inv (delete_series_ether addr st)
unfolding delete_series_ether
delete_series_ether-Inv addr st i =
    let live : (search addr st.heap st.series_list).0 ≡ false =
      search-live addr st.heap st.series_list (λ p h. ground (arith, i.listed p)) in
    elim (Option-cases (search addr st.heap st.series_list).1) [
      | inl e ↦ rw (delete_series_ether, e, live) i
      | inr (s, e) ↦
          rw (delete_series_ether, e)
            (delete_series-Inv s.self st s i (search-some addr st.heap st.series_list s e).1)
    ]
