-- ===== src/Aodv/Series/Reply.antt =====
-- What is left of the series for a host after `aodv_pipeline_delete_series_ether`.
use des_routing_algorithms.Common.{
  ℕ, ◌≡◌, ◌≢◌, true, false, none, some, find, arith, Option-cases, inl, inr, find-delete_ne,
  find-delete_self,
}
use des_routing_algorithms.Aodv.Timeval.{Dessert}
use des_routing_algorithms.Aodv.Series.{
  Series, State, self_of, address_of, search, delete_series, delete_series_ether, start_series,
}
use des_routing_algorithms.Aodv.Series.Search.{search-live, search-some, present}
use des_routing_algorithms.Aodv.Series.Invariant.{Inv}
use des_routing_algorithms.Aodv.Series.Start.{started, start_series_new}
use des_routing_algorithms.Aodv.Series.Deleted.{stopped, find_stopped, delete_series_ether-Inv}
use des_routing_algorithms.Aodv.Series.Reach.{Reach, Reach-Inv}

module _ (addr : ℕ) (st : State) (i : Inv st) where
  -- A series that is in the list after another was deleted was there before, as it is.
  kept :
      (s t : Series)
      → find self_of s.self st.heap ≡ some s
      → s.stop ≡ false
      → present (find address_of t.self (delete_series s.self st).series_list) ≡ true
      → find self_of t.self (delete_series s.self st).heap ≡ some t
      → (s.self ≢ t.self) × (find self_of t.self st.heap ≡ some t)
  unfolding delete_series
  kept s t h l m g =
      let ne : s.self ≢ t.self =
        λ e. ground (arith, find-delete_self address_of s.self st.series_list i.list_unique) in
      (
        ne,
        ground (
          arith,
          find_stopped s.self st s t.self,
          find-delete_ne self_of t.self s.self (stopped s.self st s).heap,
        ),
      )

  reply_none :
      (t : Series)
      → (search addr (delete_series_ether addr st).heap (delete_series_ether addr st).series_list).1
        ≢ some t
  unfolding delete_series_ether
  reply_none t f =
      let j : Inv (delete_series_ether addr st) = delete_series_ether-Inv addr st i in
      let here : present (find address_of t.self (delete_series_ether addr st).series_list) ≡ true
          × (find self_of t.self (delete_series_ether addr st).heap ≡ some t)
          × (t.key ≡ addr) =
        search-some addr _ _ t f in
      elim (Option-cases (search addr st.heap st.series_list).1) [
        | inl e ↦
            ground
              (arith, search-live addr st.heap st.series_list (λ p h. ground (arith, i.listed p)))
        | inr (s, e) ↦ ground (
          arith,
          here,
          j.listed t.self,
          search-some addr st.heap st.series_list s e,
          i.listed s.self,
          kept s t,
          i.keys s.self t.self,
        )
      ]

-- Right after `delete_series_ether` is called for a host in a state that the threads can reach, the
-- list is searched without following the address of freed memory and holds no series for the host,
-- so that a start for the host makes a new series.
pub delete_series_ether-start_series :
    ⦃d : Dessert⦄ (addr ttl : ℕ) (st : State)
    → Reach st
    → let st' = delete_series_ether addr st in
      (search addr st'.heap st'.series_list ≡ (false, none))
      × (start_series addr ttl st' ≡ started addr ttl st')
delete_series_ether-start_series addr ttl st r =
    let i : Inv st = Reach-Inv st r in
    let j : Inv (delete_series_ether addr st) = delete_series_ether-Inv addr st i in
    let live : (search addr (delete_series_ether addr st).heap
          (delete_series_ether addr st).series_list).0
        ≡ false =
      search-live addr _ _ (λ p h. ground (arith, j.listed p)) in
    elim (Option-cases
      (search addr (delete_series_ether addr st).heap
        (delete_series_ether addr st).series_list).1) [
          | inl e ↦ (
            ground (arith, e, live),
            start_series_new addr ttl (delete_series_ether addr st) e live,
          )
          | inr (t, e) ↦ elim (reply_none addr st i t e) [ ]
        ]
