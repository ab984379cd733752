-- ===== src/Aodv/Series/Searched.antt =====
-- What the steps do to the hosts that are searched for.
use des_routing_algorithms.Common.{
  ℕ, ◌≡◌, ◌≢◌, refl, Bool, true, false, not, ◌&&◌, ◌||◌, Option, none, some, find, ◌==◌, arith,
  Option-cases, Bool-cases, inl, inr, find-delete_ne, find-delete_self,
}
use des_routing_algorithms.Aodv.Timeval.{Timeval, Dessert}
use des_routing_algorithms.Aodv.Series.{
  Series, State, Owner, self_of, address_of, series_of, search, start_series, delete_series,
  reschedule_series, released, sent, take_task, delete_series_ether,
}
use des_routing_algorithms.Aodv.Series.Search.{search-live, search-some, search-none, present}
use des_routing_algorithms.Aodv.Series.Invariant.{Inv}
use des_routing_algorithms.Aodv.Series.Start.{
  listed_live, started, started-Inv, find_started, start_series_new, start_series_old,
}
use des_routing_algorithms.Aodv.Series.Kept.{owned_series, reschedule_series-Inv}
use des_routing_algorithms.Aodv.Series.Deleted.{
  stopped, stopped-Inv, find_stopped, find_written, sent-Inv, delete_series-Inv,
}

-- Whether a series for the host is in the list.
abbrev pub searched : State → ℕ → Bool
searched st host = present (search host st.heap st.series_list).1

-- A series in memory for the host that is not stopped.
abbrev Live : ℕ → Option Series → Type 0
Live host none = ⊥
Live host (some s) = (s.key ≡ host) × (s.stop ≡ false)

module _ (st : State) (i : Inv st) (host : ℕ) where
  searched-Live : searched st host ≡ true → (p : ℕ) × Live host (find self_of p st.heap)
  searched-Live h = elim (Option-cases (search host st.heap st.series_list).1) [
    | inl e ↦ ground arith
    | inr (s, e) ↦
        (s.self, ground (arith, search-some host st.heap st.series_list s e, i.listed s.self))
  ]

  Live-searched : (p : ℕ) → Live host (find self_of p st.heap) → searched st host ≡ true
  Live-searched p l = elim (Option-cases (search host st.heap st.series_list).1) [
    | inr (s, e) ↦ rw e refl
    | inl e ↦ elim (Option-cases (find self_of p st.heap)) [
      | inl n ↦ ground arith
      | inr (s, f) ↦ absurd (
          search-none host st.heap st.series_list p s e
            (search-live host st.heap st.series_list (listed_live host 0 st i))
            (ground (arith, i.listed p)) f (ground arith))
    ]
  ]

-- Two states with the same live series for a host search for it alike.
module _ (st st' : State) (i : Inv st) (j : Inv st') (host : ℕ) where
  same_searched :
      ((p : ℕ) → Live host (find self_of p st.heap) → Live host (find self_of p st'.heap))
      → ((p : ℕ) → Live host (find self_of p st'.heap) → Live host (find self_of p st.heap))
      → searched st' host ≡ searched st host
  same_searched f g = elim (Bool-cases (searched st host)) [
    | inl a ↦
        let (p, l) = searched-Live st i host a in
        let b : searched st' host ≡ true = Live-searched st' j host p (f p l) in ground arith
    | inr a ↦ elim (Bool-cases (searched st' host)) [
      | inl b ↦
          let (p, l) = searched-Live st' j host b in
          let c : searched st host ≡ true = Live-searched st i host p (g p l) in ground arith
      | inr b ↦ ground arith
    ]
  ]

module _ (host : ℕ) (st : State) (i : Inv st) where
  -- A start puts the host into the set.
  pub start-searched :
      (k ttl : ℕ) → searched (start_series k ttl st) host ≡ ((k == host) || searched st host)
  start-searched k ttl = elim (Option-cases (search k st.heap st.series_list).1) [
    | inr (s, e) ↦ rw (start_series_old k ttl st s e) (elim (Bool-cases (k == host)) [
      | inl same ↦ let eq : k ≡ host = ground arith in rw same (rw (rw eq at e) refl)
      | inr other ↦ rw other refl
    ])
    | inl e ↦
        rw
          (start_series_new k ttl st e
            (search-live k st.heap st.series_list (listed_live k ttl st i)))
          (elim (Bool-cases (k == host)) [
            | inl same ↦ rw same (
                Live-searched (started k ttl st) (started-Inv k ttl st i e) host st.brk
                  (ground (arith, find_started k ttl st st.brk i)))
            | inr other ↦ rw other (
                same_searched st (started k ttl st) i (started-Inv k ttl st i e) host
                  (λ p l. ground (arith, find_started k ttl st p i, i.fresh st.brk))
                  (λ p l. ground (arith, find_started k ttl st p i, i.fresh st.brk)))
          ])
  ]

  pub repeat-searched :
      ⦃d : Dessert⦄ (when : Timeval) (malloc : Bool) (p : ℕ) (o : Owner)
      → find series_of p st.owners ≡ some o
      → searched (released p (reschedule_series when malloc p st)) host ≡ searched st host
  unfolding reschedule_series
  repeat-searched when malloc p o w =
      same_searched st (released p (reschedule_series when malloc p st)) i
        (reschedule_series-Inv when malloc p st o i w) host
        (λ q l. ground (arith, owned_series p st o i w, find-delete_ne self_of q p st.heap))
        (λ q l. ground (
          arith,
          owned_series p st o i w,
          find-delete_ne self_of q p st.heap,
          find-delete_self self_of p st.heap i.heap_unique,
        ))

  pub sent-searched :
      (ring : Bool) (p : ℕ) (o : Owner)
      → find series_of p st.owners ≡ some o
      → searched (sent ring p st) host ≡ searched st host
  unfolding sent
  sent-searched ring p o w =
      same_searched st (sent ring p st) i (sent-Inv ring p st o i w) host
        (λ q l. ground (arith, owned_series p st o i w, find_written ring p st q))
        (λ q l. ground (arith, owned_series p st o i w, find_written ring p st q))

  pub take-searched :
      ⦃d : Dessert⦄ (ts : Timeval) → searched (take_task ts st) host ≡ searched st host
  unfolding take_task
  take-searched ts = ground arith

  -- The live series that a deletion leaves are the others.
  others_before :
      (p q : ℕ) (s : Series)
      → find self_of p st.heap ≡ some s
      → s.stop ≡ false
      → Live host (find self_of q (delete_series p st).heap)
      → Live host (find self_of q st.heap) × (p ≢ q)
  unfolding delete_series
  others_before p q s h l m = (
    ground (
      arith,
      find_stopped p st s q,
      find-delete_ne self_of q p (stopped p st s).heap,
      find-delete_self self_of p (stopped p st s).heap (stopped-Inv p st s i h l).heap_unique,
    ),
    λ e. ground (
      arith,
      find_stopped p st s q,
      find-delete_self self_of p (stopped p st s).heap (stopped-Inv p st s i h l).heap_unique,
    ),
  )

  others_after :
      (p q : ℕ) (s : Series)
      → find self_of p st.heap ≡ some s
      → s.stop ≡ false
      → p ≢ q
      → Live host (find self_of q st.heap)
      → Live host (find self_of q (delete_series p st).heap)
  unfolding delete_series
  others_after p q s h l ne m =
      ground (arith, find_stopped p st s q, find-delete_ne self_of q p (stopped p st s).heap)

  pub delete-searched :
      (p : ℕ) (s : Series)
      → find self_of p st.heap ≡ some s
      → s.stop ≡ false
      → searched (delete_series p st) host ≡ (not (s.key == host) && searched st host)
  delete-searched p s h l =
      let j : Inv (delete_series p st) = delete_series-Inv p st s i h in
      elim (Bool-cases (s.key == host)) [
        | inl same ↦ rw same (elim (Bool-cases (searched (delete_series p st) host)) [
          | inr gone ↦ gone
          | inl b ↦
              let (q, m) = searched-Live (delete_series p st) j host b in
              let (there, ne) = others_before p q s h l m in
              absurd (ne (i.keys p q (ground (arith, h, l, same, there))))
        ])
        | inr other ↦ rw other (
            same_searched st (delete_series p st) i j host
              (λ q m. others_after p q s h l (λ e. ground arith) m)
              (λ q m. (others_before p q s h l m).0))
      ]

  -- A RREP takes its host from the set.
  pub reply-searched :
      (addr : ℕ)
      → searched (delete_series_ether addr st) host ≡ (not (addr == host) && searched st host)
  unfolding delete_series_ether
  reply-searched addr =
      let live : (search addr st.heap st.series_list).0 ≡ false =
        search-live addr st.heap st.series_list (listed_live addr 0 st i) in
      elim (Option-cases (search addr st.heap st.series_list).1) [
        | inl e ↦
            rw (delete_series_ether, e, live)
              (elim (Bool-cases (addr == host)) [
                | inl same ↦ let eq : addr ≡ host = ground arith in rw same (rw (rw eq at e) refl)
                | inr other ↦ rw other refl
              ])
        | inr (s, e) ↦
            let there : (present (find address_of s.self st.series_list) ≡ true)
                × (find self_of s.self st.heap ≡ some s)
                × (s.key ≡ addr) =
              search-some addr st.heap st.series_list s e in
            let removed : searched (delete_series s.self st) host
                ≡ (not (s.key == host) && searched st host) =
              delete-searched s.self s there.1 (ground (arith, i.listed s.self)) in
            rw (delete_series_ether, e) (rw there.2 at removed)
      ]

  pub stopped-searched :
      (p : ℕ) (s : Series)
      → find self_of p st.heap ≡ some s
      → s.stop ≡ true
      → searched (delete_series p st) host ≡ searched st host
  unfolding delete_series
  stopped-searched p s h l = rw (delete_series, h, l) refl
