-- ===== src/Aodv/Series/Invariant.antt =====
-- The invariant the comments on `struct aodv_rreq_series` state: a series belongs to an invocation
-- or to the schedule table, and a task is there for a series that is in the list only.
use des_routing_algorithms.Common.{ℕ, ◌≤◌, ◌≡◌, false, Option, none, some, find, Unique}
use des_routing_algorithms.Aodv.Schedule.Valid.{lookup}
use des_routing_algorithms.Aodv.Schedule.Valid as Tasks
use des_routing_algorithms.Aodv.Schedule.{Schedule, key}
use des_routing_algorithms.Aodv.Series.{
  Series, State, self_of, address_of, series_of, sc_repeat_rreq,
}
use des_routing_algorithms.Aodv.Series.Search.{present, is_live}

-- The series of a task for `k`.
abbrev pub Scheduled : ℕ → Option Series → Type 0
Scheduled k none = ⊥
Scheduled k (some s) = (s.key ≡ k) × (s.stop ≡ false)

-- Two series in the list for one destination.
abbrev pub Rivals : Option Series → Option Series → Type 0
Rivals none t = ⊥
Rivals (some s) none = ⊥
Rivals (some s) (some t) = (s.stop ≡ false) × (t.stop ≡ false) × (s.key ≡ t.key)

pub record Inv (st : State) : Type 0 where
  pub no_fault : st.fault ≡ false
  pub heap_unique : Unique self_of st.heap
  pub list_unique : Unique address_of st.series_list
  pub owners_unique : Unique series_of st.owners
  pub tasks_valid : Tasks.IsValid st.tasks
  pub fresh : (p : ℕ) → st.brk ≤ p → find self_of p st.heap ≡ none
  pub listed :
      (p : ℕ) → is_live (find self_of p st.heap) ≡ present (find address_of p st.series_list)
  pub keys : (p q : ℕ) → Rivals (find self_of p st.heap) (find self_of q st.heap) → p ≡ q
  pub owned : (p : ℕ) → find self_of p st.heap ≡ none → find series_of p st.owners ≡ none
  pub scheduled :
      (k : ℕ) (t : Schedule)
      → lookup (key k sc_repeat_rreq) st.tasks ≡ some t
      → Scheduled k (find self_of t.schedule_param st.heap)
        × (find series_of t.schedule_param st.owners ≡ none)
