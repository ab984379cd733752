-- ===== src/Aodv/Series/Start.antt =====
-- A new series, and its owner, keep the invariant.
use des_routing_algorithms.Common.{
  ℕ, ◌+◌, ◌≡◌, ◌≢◌, true, false, Option, none, some, [], ◌∷◌, ◌++◌, if◌then◌else◌, ◌==◌, find,
  arith, find-append, append-Unique, Option-cases, Bool-cases, ◌⊎◌, inl, inr,
}
use des_routing_algorithms.Aodv.Series.{
  Series, Owner, sending, State, self_of, address_of, series_of, search, new_series, start_series,
}
use des_routing_algorithms.Aodv.Series.Search.{present, is_live, search-live, search-none}
use des_routing_algorithms.Aodv.Series.Invariant.{Inv}

abbrev Apart : ℕ → Option Series → Type 0
Apart k none = Unit
Apart k (some s) = (s.stop ≡ true) ⊎ (s.key ≢ k)

module _ (k ttl : ℕ) (st : State) where
  abbrev pub new_one : Series
  new_one = record { self = st.brk; key = k; ttl = ttl; retries = 0; stop = false }

  abbrev pub new_owner : Owner
  new_owner = record { series = st.brk; phase = sending }

  -- The state with a new series.
  abbrev pub started : State
  started = record st {
    heap = st.heap ++ new_one ∷ [];
    series_list = st.series_list ++ st.brk ∷ [];
    owners = st.owners ++ new_owner ∷ [];
    brk = st.brk + 1;
  }

  pub find_started :
      (p : ℕ)
      → Inv st
      → find self_of p started.heap ≡ (if st.brk == p then some new_one else find self_of p st.heap)
  find_started p i = ground (arith, find-append self_of p st.heap (new_one ∷ []), i.fresh p)

  absent : Inv st → find address_of st.brk st.series_list ≡ none
  absent i = ground (arith, i.fresh st.brk, i.listed st.brk)

  pub listed_live :
      Inv st
      → (p : ℕ) → present (find address_of p st.series_list) ≡ true
      → is_live (find self_of p st.heap) ≡ true
  listed_live i p h = ground (arith, i.listed p)

  other_key :
      Inv st
      → (search k st.heap st.series_list).1 ≡ none
      → (p : ℕ) → Apart k (find self_of p st.heap)
  other_key i e p = elim (Option-cases (find self_of p st.heap)) [
    | inl h ↦ rw h tt
    | inr (s, h) ↦ elim (Bool-cases s.stop) [
      | inl l ↦ rw h (inl l)
      | inr l ↦ rw h (
          inr (
            search-none k st.heap st.series_list p s e
              (search-live k st.heap st.series_list (listed_live i)) (ground (arith, i.listed p))
              h))
    ]
  ]

  pub started-Inv : Inv st → (search k st.heap st.series_list).1 ≡ none → Inv started
  started-Inv i e = record {
    no_fault = i.no_fault;
    heap_unique =
        append-Unique self_of st.heap new_one i.heap_unique (ground (arith, i.fresh st.brk));
    list_unique = append-Unique address_of st.series_list st.brk i.list_unique (absent i);
    owners_unique =
        append-Unique series_of st.owners new_owner i.owners_unique
          (ground (arith, i.fresh st.brk, i.owned st.brk));
    tasks_valid = i.tasks_valid;
    fresh = λ p h. ground (arith, find_started p i, i.fresh p);
    listed = λ p. ground (
      arith,
      find_started p i,
      i.listed p,
      find-append address_of p st.series_list (st.brk ∷ []),
      i.fresh p,
    );
    keys = λ p q r.
        ground
          (arith, find_started p i, find_started q i, i.keys p q, other_key i e p, other_key i e q);
    owned = λ p h.
        ground
          (arith, find_started p i, i.owned p, find-append series_of p st.owners (new_owner ∷ []));
    scheduled = λ j t h. ground (
      arith,
      i.scheduled j t,
      find_started t.schedule_param i,
      i.fresh st.brk,
      find-append series_of t.schedule_param st.owners (new_owner ∷ []),
    );
  }

  pub start_series_new :
      (search k st.heap st.series_list).1 ≡ none
      → (search k st.heap st.series_list).0 ≡ false
      → start_series k ttl st ≡ started
  unfolding start_series new_series
  start_series_new e f = ground arith

  pub start_series_old :
      (s : Series) → (search k st.heap st.series_list).1 ≡ some s → start_series k ttl st ≡ st
  unfolding start_series new_series
  start_series_old s e = ground arith

  pub start_series-Inv : Inv st → Inv (start_series k ttl st)
  start_series-Inv i = elim (Option-cases (search k st.heap st.series_list).1) [
    | inl e ↦
        rw (start_series_new e (search-live k st.heap st.series_list (listed_live i)))
          (started-Inv i e)
    | inr (s, e) ↦ rw (start_series_old s e) i
  ]
