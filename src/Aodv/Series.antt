-- ===== src/Aodv/Series.antt =====
-- des-aodv/trunk/src/pipeline/aodv_pipeline.c: the series of RREQs for a destination, and who owns
-- them. The thread that runs due tasks, those that handle packets and those that read packets from
-- the system work on the series at the same time; what a thread does while it holds
-- `series_list_lock`, or in one call of the schedule table, is one step.
pub mod Search
pub mod Invariant
pub mod Start
pub mod Kept
pub mod Deleted
pub mod Reach
pub mod Leak
pub mod Reply
pub mod Searched
pub mod Refines
pub mod Calls
mod Tests
use des_routing_algorithms.Common.{
  ℕ, ◌+◌, ◌-◌, ◌*◌, ◌/◌, ◌%◌, ◌^◌, Bool, true, false, ◌&&◌, Option, none, some, List, [], ◌∷◌, ◌++◌,
  find, delete, modify, leb, ltb, ◌==◌, if◌then◌else◌, min,
}
use des_routing_algorithms.Aodv.Timeval.{Timeval, Dessert}
use des_routing_algorithms.Aodv.Schedule.{
  Schedule, Schedules, addschedule, dropschedule, popschedule,
}

-- `struct aodv_rreq_series`, with the destination, as `key` has it, and the TTL of its message.
pub record Series : Type 0 where
  pub self : ℕ
  pub key : ℕ
  pub ttl : ℕ
  pub retries : ℕ
  pub stop : Bool

-- Where an invocation of `aodv_send_rreq_real` stands: before the message is sent, or with only a
-- call of `aodv_pipeline_reschedule_series` or of `aodv_pipeline_delete_series` left to do.
pub data Phase : Type 0 where
  sending rescheduling ending : Phase

pub record Owner : Type 0 where
  pub series : ℕ
  pub phase : Phase

-- The series in memory, `series_list` as the addresses of its elements, the schedule table, and the
-- invocations that own a series. `fault` is set when an address of freed memory is followed.
pub record State : Type 0 where
  pub heap : List Series
  pub series_list : List ℕ
  pub tasks : Schedules
  pub owners : List Owner
  pub brk : ℕ
  pub fault : Bool

abbrev pub self_of : Series → ℕ
self_of s = s.self

abbrev pub address_of : ℕ → ℕ
address_of p = p

abbrev pub series_of : Owner → ℕ
series_of o = o.series

-- AODV_SC_REPEAT_RREQ
abbrev pub sc_repeat_rreq : ℕ
sc_repeat_rreq = 2

-- `DL_SEARCH_SCALAR`: whether an address of freed memory was followed, and what was found.
unfoldable pub search : ℕ → List Series → List ℕ → Bool × Option Series
search key heap [] = (false, none)
search key heap (p ∷ ps) =
    let rest = search key heap ps in
    elim (find self_of p heap) [
      | none ↦ (true, none)
      | some s ↦ if s.key == key then (false, some s) else rest
    ]

abbrev pub faulted : State → State
faulted st = record st { fault = true }

-- The new series, or that there is one for the destination already.
unfoldable pub new_series : ℕ → ℕ → State → State × Option ℕ
new_series key ttl st =
    let (bad, found) = search key st.heap st.series_list in
    elim found [
      | some _ ↦ (st, none)
      | none ↦ if bad then (faulted st, none) else (
        record st {
          heap =
              st.heap
              ++ record { self = st.brk; key = key; ttl = ttl; retries = 0; stop = false } ∷ [];
          series_list = st.series_list ++ st.brk ∷ [];
          brk = st.brk + 1;
        },
        some st.brk,
      )
    ]

unfoldable pub delete_series : ℕ → State → State
delete_series p st = elim (find self_of p st.heap) [
  | none ↦ faulted st
  | some s ↦
      let (tasks', dropped) = dropschedule st.tasks s.key sc_repeat_rreq in
      let stopped = modify self_of p (λ x. record x { stop = true }) st.heap in
      let freed = delete self_of p stopped in
      if s.stop then st else record st {
        heap = if dropped then freed else stopped;
        series_list = delete address_of p st.series_list;
        tasks = tasks';
      }
]

unfoldable pub delete_series_ether : ℕ → State → State
delete_series_ether addr st =
    let (bad, found) = search addr st.heap st.series_list in
    elim found [ some s ↦ delete_series s.self st | none ↦ if bad then faulted st else st ]

-- TTL_START, TTL_INCREMENT, TTL_THRESHOLD, TTL_MAX and RREQ_RETRIES.
abbrev pub ttl_increment : ℕ
ttl_increment = 2

abbrev pub ttl_threshold : ℕ
ttl_threshold = 7

abbrev pub ttl_max : ℕ
ttl_max = 2 ^ 8 - 1

abbrev pub ttl_start : ℕ
ttl_start = 1

abbrev pub rreq_retries : ℕ
rreq_retries = 5

-- The next TTL of an expanding ring search.
unfoldable pub next_ttl : Bool → ℕ → ℕ
next_ttl false ttl = ttl
next_ttl true ttl =
    if leb ttl ttl_threshold
    then (if ltb ttl_threshold (ttl + ttl_increment) then ttl_max else ttl + ttl_increment)
    else ttl

module _ ⦃d : Dessert⦄ where
  unfoldable pub reschedule_series : Timeval → Bool → ℕ → State → State
  reschedule_series when malloc p st = elim (find self_of p st.heap) [
    | none ↦ faulted st
    | some s ↦
        if s.stop
        then record st { heap = delete self_of p st.heap }
        else record st { tasks = (addschedule st.tasks when s.key sc_repeat_rreq p malloc).0 }
  ]

  -- `aodv_periodic_scexecute` takes the task that is due. Where it is to repeat a RREQ, its series is
  -- owned by the invocation that follows.
  unfoldable pub take_task : Timeval → State → State
  take_task timestamp st =
      let (tasks', popped) = popschedule st.tasks timestamp in
      elim popped [
        | none ↦ st
        | some t ↦
            if t.schedule_id == sc_repeat_rreq
            then record st {
              tasks = tasks';
              owners = st.owners ++ record { series = t.schedule_param; phase = sending } ∷ [];
            }
            else record st { tasks = tasks' }
      ]

-- `aodv_send_rreq` up to the call of `aodv_send_rreq_real`.
unfoldable pub start_series : ℕ → ℕ → State → State
start_series key ttl st =
    let (st', created) = new_series key ttl st in
    elim created [
      | none ↦ st'
      | some p ↦ record st' { owners = st'.owners ++ record { series = p; phase = sending } ∷ [] }
    ]

-- The message was sent: the last of the tries leaves the series to be deleted.
unfoldable pub sent : Bool → ℕ → State → State
sent ring_search p st = elim (find self_of p st.heap) [
  | none ↦ faulted st
  | some s ↦
      if leb rreq_retries s.retries
      then record st { owners = modify series_of p (λ o. record o { phase = ending }) st.owners }
      else record st {
        heap =
            modify self_of p
              (λ x. record x { retries = x.retries + 1; ttl = next_ttl ring_search x.ttl }) st.heap;
        owners = modify series_of p (λ o. record o { phase = rescheduling }) st.owners;
      }
]

-- The invocation that owns the series returns.
abbrev pub released : ℕ → State → State
released p st = record st { owners = delete series_of p st.owners }
