-- ===== src/Aodv/Control/Hello.antt =====
-- HELLOs, and the messages that are dropped before any handler sees them.
use des_routing_algorithms.Common.{
  ℕ, ◌+◌, ◌-◌, ◌%◌, ◌^◌, ℤ, Bool, true, ◌||◌, Option, none, some, leb, ◌==◌, if◌then◌else◌,
}
use des_routing_algorithms.Aodv.Timeval.{Timeval, Dessert}
use des_routing_algorithms.Aodv.Neighbor.{Nt, check2_dneigh, cap2_dneigh}
use des_routing_algorithms.Aodv.Forward.{Verdict, msg_keep, msg_drop}
use des_routing_algorithms.Aodv.PdrTracker.{Pdr}
use des_routing_algorithms.Aodv.PdrTracker.Capture.{cap_hello, cap_hellorsp}
use des_routing_algorithms.Aodv.PdrTracker.Metrics.{get_rcvdhellocount}

-- A HELLO, with the fields of its message.
pub record HelloPacket : Type 0 where
  pub prev_hop : ℕ
  pub next_hop : ℕ
  pub ttl : ℕ
  pub hello_seq : ℕ
  pub hello_interval : ℕ
  pub hello_rcvd_count : ℕ

module _ ⦃d : Dessert⦄ (timestamp now : Timeval) (iface : ℕ) where
  -- `l2_src` and `l25_src` are the flags of a packet that this node sent; `control` says whether
  -- there is a RREQ or a RREP in it.
  unfoldable pub drop_errors : (l2_src l25_src control : Bool) (prev_hop : ℕ) → Nt → Nt × Verdict
  drop_errors l2_src l25_src control prev_hop nt =
      let (nt', both_ways) = check2_dneigh true nt prev_hop iface timestamp in
      if l2_src || l25_src
      then (nt, msg_drop)
      else if control
      then (nt', if both_ways then msg_keep else msg_drop)
      else (nt, msg_keep)

  -- The tables, and the HELLO that goes back to the neighbor. `hwaddr` is the address of the
  -- interface, and `factor`, `hello_interval` and `threshold` are settings. A result `none` is the end
  -- of the program, as in the PDR tracker.
  unfoldable pub handle_hello :
      (factor hello_interval : ℕ) (threshold : ℤ) (hwaddr : ℕ)
      → HelloPacket
      → Pdr
      → Nt
      → Option (Pdr × Nt × Option HelloPacket)
  handle_hello factor hello_interval threshold hwaddr m pdr nt =
      let ttl = (m.ttl + 2 ^ 8 - 1) % 2 ^ 8 in
      if leb 1 ttl
      then elim (cap_hello factor pdr m.prev_hop m.hello_seq m.hello_interval timestamp now now
          ((true, true), true, (true, true))) [
            | none ↦ none
            | some (pdr1, _) ↦ elim (get_rcvdhellocount pdr1 m.prev_hop timestamp) [
              | none ↦ none
              | some (pdr2, count) ↦ some (
                pdr2,
                nt,
                some (record m {
                  ttl = ttl;
                  next_hop = m.prev_hop;
                  hello_interval = hello_interval;
                  hello_rcvd_count = elim count [ none ↦ m.hello_rcvd_count | some n ↦ n ];
                }),
              )
            ]
          ]
      else if hwaddr == m.next_hop
      then elim (cap_hellorsp factor pdr m.prev_hop m.hello_interval m.hello_rcvd_count timestamp
          now ((true, true), true)) [
            | none ↦ none
            | some (pdr1, _) ↦ some (
              pdr1,
              (cap2_dneigh threshold true nt m.prev_hop m.hello_seq iface timestamp now
                  (true, true)).0,
              none,
            )
          ]
      else some (pdr, nt, none)
