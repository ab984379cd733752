-- ===== src/Aodv/Series/Leak.antt =====
-- The series that nobody frees.
use des_routing_algorithms.Common.{
  ℕ, ◌≡◌, ◌≢◌, refl, Bool, true, Option, none, some, [], ◌∷◌, find, arith, Option-cases, Bool-cases,
  inl, inr, find-append, find-delete_ne, find-delete_self, find-delete-none, find-modify_ne,
  find-modify_self, modify,
}
use des_routing_algorithms.Aodv.Timeval.{Timeval, Dessert, micros}
use des_routing_algorithms.Aodv.Schedule.{popschedule}
use des_routing_algorithms.Aodv.Schedule.Valid.{Pops, popschedule-Pops}
use des_routing_algorithms.Aodv.Series.{
  Series, Owner, State, self_of, series_of, reschedule_series, take_task, sent, released,
  delete_series, delete_series_ether, start_series, new_series, search, sending, rescheduling,
  ending,
}
use des_routing_algorithms.Aodv.Series.Search.{search-live, search-some}
use des_routing_algorithms.Aodv.Series.Start.{new_one, new_owner}
use des_routing_algorithms.Aodv.Series.Invariant.{Inv}
use des_routing_algorithms.Aodv.Series.Kept.{owned_series}
use des_routing_algorithms.Aodv.Series.Deleted.{dropped_cases, retried, stop_it}
use des_routing_algorithms.Aodv.Series.Reach.{
  Step, start, take, postpone, send, repeat, give_up, reply, add, drop, Reach, Reach-Inv, Step-Inv,
}

-- A series in memory that is stopped and that no invocation owns.
abbrev Stopped : Option Series → Type 0
Stopped none = ⊥
Stopped (some s) = s.stop ≡ true

abbrev pub Lost : ℕ → State → Type 0
Lost p st = Stopped (find self_of p st.heap) × (find series_of p st.owners ≡ none)

left_behind :
    ⦃d : Dessert⦄ (st : State) (p : ℕ) (o : Owner)
    → Reach st
    → find series_of p st.owners ≡ some o
    → Lost p (released p (delete_series p st))
unfolding delete_series
left_behind st p o r h =
    let i : Inv st = Reach-Inv st r in
    let (s, there) = owned_series p st o i h in
    elim (Bool-cases s.stop) [
      | inl l ↦ ground (arith, find-delete_self series_of p st.owners i.owners_unique)
      | inr l ↦ ground (
        arith,
        dropped_cases p st s i there l,
        find-modify_self self_of (λ x. record x { stop = true }) (λ _. refl) p st.heap,
        find-delete_self series_of p st.owners i.owners_unique,
      )
    ]

module _ (p : ℕ) (st : State) (i : Inv st) (l : Lost p st) where
  start_series-Lost : (addr ttl : ℕ) → Lost p (start_series addr ttl st)
  unfolding start_series new_series
  start_series-Lost addr ttl = ground (
    arith,
    search-live addr st.heap st.series_list (λ q h. ground (arith, i.listed q)),
    find-append self_of p st.heap (new_one addr ttl st ∷ []),
    find-append series_of p st.owners (new_owner addr ttl st ∷ []),
    i.fresh p,
  )

  take_task-Lost : ⦃d : Dessert⦄ (ts : Timeval) → Lost p (take_task ts st)
  unfolding take_task
  take_task-Lost ts = elim (Option-cases (popschedule st.tasks ts).1) [
    | inl e ↦ rw (take_task, e) l
    | inr (t, e) ↦
        let pops : let (st', popped) = popschedule st.tasks ts in
            Pops st.tasks (micros ts) st' popped =
          popschedule-Pops st.tasks ts i.tasks_valid in
        let found : Pops st.tasks (micros ts) (popschedule st.tasks ts).0 (some t) = rw e at pops in
        ground (
          arith,
          e,
          found.3,
          i.scheduled t.ether_addr t,
          find-append series_of p st.owners
              (record { series = t.schedule_param; phase = sending } ∷ []),
        )
  ]

  module _ (q : ℕ) (o : Owner) (h : find series_of q st.owners ≡ some o) where
    apart : p ≢ q
    apart e = ground arith

    reschedule_series-Lost :
        ⦃d : Dessert⦄ (when : Timeval) (malloc : Bool)
        → Lost p (released q (reschedule_series when malloc q st))
    unfolding reschedule_series
    reschedule_series-Lost when malloc = ground (
      arith,
      owned_series q st o i h,
      find-delete_ne self_of p q st.heap apart,
      find-delete-none series_of p q st.owners l.1,
    )

    sent-Lost : (ring : Bool) → Lost p (sent ring q st)
    unfolding sent
    sent-Lost ring = ground (
      arith,
      owned_series q st o i h,
      find-modify_ne self_of (retried ring q st) (λ _. refl) p q st.heap apart,
      find-modify_ne series_of (λ x. record x { phase = rescheduling }) (λ _. refl) p q st.owners
          apart,
      find-modify_ne series_of (λ x. record x { phase = ending }) (λ _. refl) p q st.owners apart,
    )

  delete_series-Lost : (q : ℕ) → p ≢ q → Lost p (delete_series q st)
  unfolding delete_series
  delete_series-Lost q ne = elim (Option-cases (find self_of q st.heap)) [
    | inl e ↦ rw (delete_series, e) l
    | inr (s, e) ↦ ground (
      arith,
      find-modify_ne self_of (stop_it q st s) (λ _. refl) p q st.heap ne,
      find-delete_ne self_of p q (modify self_of q (stop_it q st s) st.heap) ne,
    )
  ]

  delete_series_ether-Lost : (addr : ℕ) → Lost p (delete_series_ether addr st)
  unfolding delete_series_ether
  delete_series_ether-Lost addr = elim (Option-cases (search addr st.heap st.series_list).1) [
    | inl e ↦ ground arith
    | inr (s, e) ↦
        rw (delete_series_ether, e)
          (delete_series-Lost s.self
            (λ k. ground (arith, search-some addr st.heap st.series_list s e, i.listed p)))
  ]

module _ ⦃d : Dessert⦄ where
  Step-Lost : (p : ℕ) (st st' : State) → Inv st → Lost p st → Step st st' → Lost p st'
  Step-Lost p st _ i l (start addr ttl) = start_series-Lost p st i l addr ttl
  Step-Lost p st _ i l (take ts) = take_task-Lost p st i l ts
  Step-Lost p st _ i l (postpone q o when malloc h e) =
      reschedule_series-Lost p st i l q o h when malloc
  Step-Lost p st _ i l (send q o ring h e) = sent-Lost p st i l q o h ring
  Step-Lost p st _ i l (repeat q o when malloc h e) =
      reschedule_series-Lost p st i l q o h when malloc
  Step-Lost p st _ i l (give_up q o h e) =
      let m : Lost p (delete_series q st) = delete_series-Lost p st i l q (apart p st i l q o h) in
      (m.0, find-delete-none series_of p q (delete_series q st).owners m.1)
  Step-Lost p st _ i l (reply addr) = delete_series_ether-Lost p st i l addr
  Step-Lost p st _ i l (add when addr type param malloc small other) = l
  Step-Lost p st _ i l (drop addr type small other) = l

  -- The states that are reached from `st`.
  pub data Run (st : State) : State → Type 0 where
    stay : Run st st
    more : {st' st'' : State} → Run st st' → Step st' st'' → Run st st''

  Run-Lost : (p : ℕ) (st st' : State) → Inv st → Lost p st → Run st st' → Inv st' × Lost p st'
  Run-Lost p st _ i l stay = (i, l)
  Run-Lost p st _ i l (more {st'} {st''} r s) =
      let (j, m) = Run-Lost p st st' i l r in (Step-Inv st' st'' j s, Step-Lost p st' st'' j m s)

  -- A series whose last try was sent is never freed: from the step that gives it up on, whatever the
  -- threads do, it stays in memory and no invocation owns it. The task that had started the try was
  -- taken from the schedule table, so that `dropschedule` drops none.
  pub give_up-Lost :
      (st st' : State) (p : ℕ) (o : Owner)
      → Reach st
      → find series_of p st.owners ≡ some o
      → o.phase ≡ ending
      → Run (released p (delete_series p st)) st'
      → Lost p st'
  give_up-Lost st st' p o r h e run =
      let ended : Step st (released p (delete_series p st)) = give_up p o h e in
      (Run-Lost p _ st' (Step-Inv st _ (Reach-Inv st r) ended) (left_behind st p o r h) run).1
