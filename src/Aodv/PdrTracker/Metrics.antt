-- ===== src/Aodv/PdrTracker/Metrics.antt =====
-- The metrics of a link to a neighbor.
pub mod Bounds
use des_routing_algorithms.Common.{
  ℕ, zero, suc, ◌+◌, ◌-◌, ◌*◌, ◌/◌, ◌%◌, ◌^◌, Bool, true, false, ◌&&◌, ◌||◌, Option, none, some,
  List, [], ◌∷◌, ◌++◌, find, delete, modify, length, leb, ltb, ◌==◌, if◌then◌else◌, min,
}
use des_routing_algorithms.Aodv.Timeval.{Timeval, Dessert}
use des_routing_algorithms.Aodv.Timeslot.{
  Timeslot, timeslot_create, timeslot_purgeobjects, timeslot_addobject, timeslot_addobject_varpurge,
}
use des_routing_algorithms.Aodv.PdrTracker.{
  HelloMsg, Window, PdrEntry, PdrEntries, Pdr, self_of, neighbor_of, msg_of, seq_of,
  min_tracking_interval, max_metric, metric_of, quot, expected, purge_ms, purge_hello_msg, purge_nb,
  neighbor_entry_create, neighbor_entry_update,
}

module _ ⦃d : Dessert⦄ where
  unfoldable pub pdr_nt_cleanup : PdrEntry → Timeval → PdrEntry
  pdr_nt_cleanup e timestamp =
      let (ts', w') = timeslot_purgeobjects purge_hello_msg e.ts timestamp e.window in
      record e { ts = ts'; window = w' }

  -- The neighbor's entry with its window purged, as the functions that read it see it.
  unfoldable pub purged_entry : Pdr → ℕ → Timeval → Option PdrEntry
  purged_entry st ether_neighbor timestamp = elim (find neighbor_of ether_neighbor st.nbs.entries) [
    | none ↦ none
    | some e ↦ some (pdr_nt_cleanup e timestamp)
  ]

  -- The table after such a function.
  unfoldable pub purged : Pdr → ℕ → Timeval → Pdr
  purged st ether_neighbor timestamp = elim (purged_entry st ether_neighbor timestamp) [
    | none ↦ st
    | some e ↦ record st {
      nbs = record (st.nbs) { entries = modify self_of e.self (λ _. e) st.nbs.entries };
    }
  ]

-- What the four functions compute from a purged entry; `m` is the number of own HELLOs that the
-- neighbor is expected to receive.
unfoldable pub pdr_of : PdrEntry → Option ℕ
pdr_of e =
    if leb e.expected_hellos e.window.rcvd_hello_count
    then some max_metric
    else metric_of (quot (max_metric * e.window.rcvd_hello_count) e.expected_hellos)

unfoldable pub etx_mul_of : ℕ → PdrEntry → Option ℕ
etx_mul_of m e =
    let rcvd = min e.window.rcvd_hello_count e.expected_hellos in
    let nb_rcvd = min e.nb_rcvd_hello_count m in
    metric_of (quot (max_metric * rcvd * nb_rcvd) (e.expected_hellos * m))

unfoldable pub etx_add_of : ℕ → PdrEntry → Option ℕ
etx_add_of m e =
    let rcvd = min e.window.rcvd_hello_count e.expected_hellos in
    let nb_rcvd = min e.nb_rcvd_hello_count m in
    elim (quot (2 ^ 8 * e.expected_hellos * m) (rcvd * nb_rcvd)) [
      | none ↦ none
      | some n ↦ some (min n max_metric)
    ]

module _ ⦃d : Dessert⦄ where
  -- The table, and what is written with the result `true`.
  abbrev pub read :
      {A : Type 0} → Pdr → (PdrEntry → Option A) → ℕ → Timeval → Option (Pdr × Option A)
  read st value ether_neighbor timestamp = elim (purged_entry st ether_neighbor timestamp) [
    | none ↦ some (st, none)
    | some e ↦ elim (value e) [
      | none ↦ none
      | some n ↦ some (purged st ether_neighbor timestamp, some n)
    ]
  ]

  unfoldable pub get_pdr : Pdr → ℕ → Timeval → Option (Pdr × Option ℕ)
  get_pdr st = read st pdr_of

  unfoldable pub get_etx_mul : Pdr → ℕ → Timeval → Option (Pdr × Option ℕ)
  get_etx_mul st = read st (etx_mul_of st.nb_expected_hellos)

  unfoldable pub get_etx_add : Pdr → ℕ → Timeval → Option (Pdr × Option ℕ)
  get_etx_add st = read st (etx_add_of st.nb_expected_hellos)

  unfoldable pub get_rcvdhellocount : Pdr → ℕ → Timeval → Option (Pdr × Option ℕ)
  get_rcvdhellocount st = read st (λ e. some e.window.rcvd_hello_count)
