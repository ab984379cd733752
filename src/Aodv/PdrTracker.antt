-- ===== src/Aodv/PdrTracker.antt =====
-- des-aodv/trunk/src/database/pdr_tracker/pdr.c: the HELLOs that were received from each neighbor of
-- late, and the metrics from their numbers. `factor` is `tracking_factor`. A result `none` of a
-- function that returns more than a value is the end of the program: a division by zero, a product
-- that is no `int`, or an address of freed memory that is followed.
pub mod Capture
pub mod Metrics
pub mod Hellos
pub mod Drift
mod Tests
use des_routing_algorithms.Common.{
  ℕ, zero, suc, ◌+◌, ◌-◌, ◌*◌, ◌/◌, ◌%◌, ◌^◌, Bool, true, false, ◌&&◌, ◌||◌, Option, none, some,
  List, [], ◌∷◌, ◌++◌, find, delete, modify, length, leb, ltb, ◌==◌, if◌then◌else◌, min,
}
use des_routing_algorithms.Aodv.Timeval.{Timeval, Dessert}
use des_routing_algorithms.Aodv.Timeslot.{
  Timeslot, timeslot_create, timeslot_purgeobjects, timeslot_addobject, timeslot_addobject_varpurge,
}

-- `struct pdr_neighbor_hello_msg`, with its address.
pub record HelloMsg : Type 0 where
  pub self : ℕ
  pub seq_num : ℕ

-- What the purger of a neighbor's timeslot reaches.
pub record Window : Type 0 where
  pub msg_list : List HelloMsg
  pub rcvd_hello_count : ℕ
  pub fault : Bool

-- `struct pdr_neighbor_entry`, with its address.
pub record PdrEntry : Type 0 where
  pub self : ℕ
  pub ether_neighbor : ℕ
  pub hello_interv : ℕ
  pub expected_hellos : ℕ
  pub nb_rcvd_hello_count : ℕ
  pub ts : Timeslot
  pub window : Window
  pub purge_tv : Timeval

-- What the purger of the table's timeslot reaches.
pub record PdrEntries : Type 0 where
  pub entries : List PdrEntry
  pub fault : Bool

pub record Pdr : Type 0 where
  pub nbs : PdrEntries
  pub nb_expected_hellos : ℕ
  pub ts : Timeslot
  pub brk : ℕ

abbrev pub self_of : PdrEntry → ℕ
self_of e = e.self

abbrev pub neighbor_of : PdrEntry → ℕ
neighbor_of e = e.ether_neighbor

abbrev pub msg_of : HelloMsg → ℕ
msg_of m = m.self

abbrev pub seq_of : HelloMsg → ℕ
seq_of m = m.seq_num

abbrev pub min_tracking_interval : ℕ
min_tracking_interval = 500

abbrev pub max_metric : ℕ
max_metric = 2 ^ 16 - 1

-- A division, which ends the program where the divisor is 0.
abbrev pub quot : ℕ → ℕ → Option ℕ
quot a zero = none
quot a (suc b) = some (a / suc b)

-- The conversion to a metric of 16 bits.
abbrev pub metric_of : Option ℕ → Option ℕ
metric_of none = none
metric_of (some n) = some (n % 2 ^ 16)

-- The test on `hello_interv*tracking_factor`, which is an `int`, and the number that follows from it.
unfoldable pub expected : ℕ → ℕ → Option ℕ
expected factor interval =
    if leb (2 ^ 31) (interval * factor)
    then none
    else if leb min_tracking_interval (interval * factor)
    then some factor
    else quot min_tracking_interval interval

abbrev pub purge_ms : ℕ → ℕ → ℕ
purge_ms factor interval = interval * factor * 2 % 2 ^ 32

unfoldable pub purge_hello_msg : Timeval → ℕ → Window → Window
purge_hello_msg timestamp object w = elim (find msg_of object w.msg_list) [
  | none ↦ record w { fault = true }
  | some _ ↦ record w {
    msg_list = delete msg_of object w.msg_list;
    rcvd_hello_count = (w.rcvd_hello_count + 2 ^ 8 - 1) % 2 ^ 8;
  }
]

unfoldable pub purge_nb : Timeval → ℕ → PdrEntries → PdrEntries
purge_nb timestamp object t = elim (find self_of object t.entries) [
  | none ↦ record t { fault = true }
  | some _ ↦ record t { entries = delete self_of object t.entries }
]

module _ ⦃d : Dessert⦄ where
  unfoldable pub pdr_cleanup : Pdr → Timeval → Pdr
  pdr_cleanup st timestamp =
      let (ts', nbs') = timeslot_purgeobjects purge_nb st.ts timestamp st.nbs in
      record st { ts = ts'; nbs = nbs' }

  -- The table without its entries, and how many there were.
  unfoldable pub pdr_neighbor_destroy : Pdr → Pdr × ℕ
  pdr_neighbor_destroy st =
      (record st { nbs = record (st.nbs) { entries = [] } }, length st.nbs.entries % 2 ^ 32)

module _ ⦃d : Dessert⦄ (factor : ℕ) where
  -- The new entry, but for its timeslot.
  unfoldable pub neighbor_entry_create : ℕ → ℕ → ℕ → Timeslot → Option PdrEntry
  neighbor_entry_create self ether_neighbor hello_interv ts = elim (expected factor hello_interv) [
    | none ↦ none
    | some n ↦ some (record {
      self = self;
      ether_neighbor = ether_neighbor;
      hello_interv = hello_interv;
      expected_hellos = n;
      nb_rcvd_hello_count = 0;
      ts = ts;
      window = record { msg_list = []; rcvd_hello_count = 0; fault = false };
      purge_tv = d.ms2timeval (purge_ms factor hello_interv);
    })
  ]

  unfoldable pub neighbor_entry_update : PdrEntry → ℕ → Option PdrEntry
  neighbor_entry_update e new_interval = elim (expected factor new_interval) [
    | none ↦ none
    | some n ↦ some (record e {
      hello_interv = new_interval;
      expected_hellos = n;
      purge_tv = d.ms2timeval (purge_ms factor new_interval);
    })
  ]

  -- The result of `timeslot_create` as well.
  unfoldable pub pdr_nt_init : ℕ → Bool → Pdr → Option (Pdr × Bool)
  pdr_nt_init hello_interval malloc st = elim (expected factor hello_interval) [
    | none ↦ none
    | some n ↦
        let fresh : Pdr = record st {
          nbs = record (st.nbs) { entries = [] };
          nb_expected_hellos = n;
        } in
        elim (timeslot_create (d.ms2timeval (purge_ms factor hello_interval)) malloc) [
          | none ↦ some (fresh, false)
          | some ts ↦ some (record fresh { ts = ts }, true)
        ]
  ]

  unfoldable pub upd_expected : ℕ → Pdr → Option Pdr
  upd_expected new_interval st = elim (expected factor new_interval) [
    | none ↦ none
    | some n ↦ some (record st { nb_expected_hellos = n })
  ]

  unfoldable pub pdr_neighbor_reset : ℕ → Bool → Pdr → Option (Pdr × ℕ × Bool)
  pdr_neighbor_reset hello_interval malloc st =
      let (st', count) = pdr_neighbor_destroy st in
      elim (pdr_nt_init hello_interval malloc st') [
        | none ↦ none
        | some (st'', result) ↦ some (st'', count, result)
      ]
