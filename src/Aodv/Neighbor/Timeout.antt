-- ===== src/Aodv/Neighbor/Timeout.antt =====
-- What a lost neighbor leaves to be done, and how the strongest signal is kept.
use des_routing_algorithms.Common.{
  ℕ, ◌^◌, ◌<◌, ◌≡◌, refl, ◌∙◌, Bool, none, some, find, arith, if◌then◌else◌, ◌==◌, ==_refl, negsuc,
  sub_ℕ, min, Unique, find-modify_by, is_neg, Bool-cases, inl, inr,
}
use des_routing_algorithms.Aodv.Timeval.{Timeval, Dessert}
use des_routing_algorithms.Aodv.Schedule.{key, create_schedule, addschedule}
use des_routing_algorithms.Aodv.Schedule.Valid as Tasks
use des_routing_algorithms.Aodv.Neighbor.{
  NeighborEntry, Neighbors, Nt, self_of, sum_of, addr_sum, sc_send_out_rerr, sc_update_rssi,
  on_neighbor_timeout, update_rssi, to_int8,
}

module _ ⦃d : Dessert⦄ where
  -- When a neighbor with an entry is lost and the schedule table is valid, then the table stays
  -- valid, with memory the sending of a RERR for the neighbor is due at once, the neighbor's signal
  -- strength is no longer watched, and all other tasks are as they were.
  pub on_neighbor_timeout_lem :
      (m_task : Bool) (timestamp : Timeval) (object k : ℕ) (t : Neighbors) (e : NeighborEntry)
      → Tasks.IsValid t.schedules
      → find self_of object t.entries ≡ some e
      → let tasks = (on_neighbor_timeout m_task timestamp object t).schedules in
        Tasks.IsValid tasks
        × (Tasks.lookup k tasks ≡ (
            if key e.ether_neighbor sc_update_rssi == k
            then none
            else if key e.ether_neighbor sc_send_out_rerr == k
            then create_schedule timestamp e.ether_neighbor sc_send_out_rerr 0 m_task
            else Tasks.lookup k t.schedules))
  unfolding on_neighbor_timeout
  on_neighbor_timeout_lem m_task timestamp object k t e v h =
      let added =
        (addschedule t.schedules timestamp e.ether_neighbor sc_send_out_rerr 0 m_task).0 in
      let valid : Tasks.IsValid added =
        Tasks.addschedule-IsValid t.schedules timestamp e.ether_neighbor sc_send_out_rerr 0 m_task
          v in
      rw (h, on_neighbor_timeout)
        (
          Tasks.dropschedule-IsValid added e.ether_neighbor sc_update_rssi valid,
          ground (
            arith,
            Tasks.dropschedule_lem added e.ether_neighbor sc_update_rssi k valid,
            Tasks.addschedule_lem t.schedules timestamp e.ether_neighbor sc_send_out_rerr 0 k m_task
                v,
          ),
        )

int8_diff : (m n : ℕ) → m < 2 ^ 7 → n < 2 ^ 7 → to_int8 (sub_ℕ n m) ≡ sub_ℕ n m
int8_diff m n a b = ground arith

-- For negative signal strengths of 8 bits, the answer is the strongest so far less the new one, and
-- the stronger of both is kept in the entry.
pub update_rssi_lem :
    (nt : Nt) (neighbor iface m n : ℕ) (e : NeighborEntry)
    → Unique self_of nt.neighbors.entries
    → find sum_of (addr_sum neighbor iface) nt.neighbors.entries ≡ some e
    → e.max_rssi ≡ negsuc m
    → m < 2 ^ 7
    → n < 2 ^ 7
    → let (nt', diff) = update_rssi nt neighbor iface (negsuc n) in
      (diff ≡ sub_ℕ n m)
      × (find sum_of (addr_sum neighbor iface) nt'.neighbors.entries
          ≡ some (record e { max_rssi = negsuc (min m n) }))
unfolding update_rssi
update_rssi_lem nt neighbor iface m n e u h r a b = elim (Bool-cases (is_neg (sub_ℕ n m))) [
  | inl w ↦
      rw (h, update_rssi, r, int8_diff m n a b, w)
        (
          refl,
          find-modify_by sum_of self_of (λ x. record x { max_rssi = negsuc n }) (λ x. refl)
                (addr_sum neighbor iface) e.self nt.neighbors.entries u
              ∙ rw (h, ==_refl e.self) (ground arith),
        )
  | inr w ↦ rw (h, update_rssi, r, int8_diff m n a b, w) (refl, h ∙ ground arith)
]
