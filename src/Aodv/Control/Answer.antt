-- ===== src/Aodv/Control/Answer.antt =====
-- The RREPs that answer a RREQ.
use des_routing_algorithms.Common.{
  ℕ, ◌≤◌, ◌≡◌, refl, length, Bool, true, false, not, ◌&&◌, ◌||◌, some, List, ◌==◌, if◌then◌else◌,
  is_pos, All, arith, Bool-cases, inl, inr,
}
use des_routing_algorithms.Aodv.Helper.{comp_u32}
use des_routing_algorithms.Aodv.Timeval.{Timeval, Dessert}
use des_routing_algorithms.Aodv.Metric.{Link}
use des_routing_algorithms.Aodv.RoutingTable.Capture.{CaptResult}
use des_routing_algorithms.Aodv.RoutingTable.Query.{get_destination_sequence_number}
use des_routing_algorithms.Aodv.Forward.{RxFlags}
use des_routing_algorithms.Aodv.Gossip.{gossip_none}
use des_routing_algorithms.Aodv.Control.{
  Rreq, ControlOutput, rrep_out, rreq_out, data_out, Router, Settings, create_rrep, own_number,
  local_repair,
}
use des_routing_algorithms.Aodv.Control.Handle.{answer_rreq}

-- A RREP to the originator of the RREQ over the neighbor that sent it, about the destination of the
-- RREQ, with a number that is not older than the one that the RREQ asks for, if it does.
abbrev pub Answers : Settings → RxFlags → Rreq → ControlOutput → Type 0
Answers settings rx m (rrep_out p iface) =
    (p.ether_dhost ≡ m.ether_shost)
    × (p.next_hop ≡ m.prev_hop)
    × (p.ether_shost ≡ (if rx.l25_dst then settings.defsrc else m.ether_dhost))
    × ((not m.flag_u
          && is_pos (comp_u32 m.destination_sequence_number p.destination_sequence_number))
        ≡ false)
Answers settings rx m (rreq_out m') = m' ≡ m
Answers settings rx m (data_out s) = ⊥

comp_u32_self : (n : ℕ) → is_pos (comp_u32 n n) ≡ false
unfolding comp_u32
comp_u32_self n = ground arith

own_number_fresh :
    (result : CaptResult) (m : Rreq) (n : ℕ)
    → (not m.flag_u && is_pos (comp_u32 m.destination_sequence_number (own_number result m n)))
      ≡ false
unfolding own_number
own_number_fresh result m n = ground (arith, comp_u32_self m.destination_sequence_number)

repair_fresh :
    (m : Rreq) (known : ℕ × Bool)
    → local_repair m known ≡ true
    → (not m.flag_u && is_pos (comp_u32 m.destination_sequence_number known.0)) ≡ false
unfolding local_repair
repair_fresh m (seq, have) h = ground arith

module _ ⦃d : Dessert⦄ (settings : Settings) (timestamp now : Timeval) (iface : ℕ)
    (link : Link) where
  -- Without gossiping, a RREQ that is new is answered by one RREP, sent on once as it is, or dropped:
  -- a RREP goes to its originator over the neighbor that sent it, is about its destination, and has
  -- a number that is not older than the one that the RREQ asks for, if it does; and where the RREQ is
  -- for this node, or has a TTL left, something is sent.
  pub answer_rreq-Answers :
      (lucky : Bool) (rx : RxFlags) (result : CaptResult) (m : Rreq) (r : Router)
      → settings.gossip_type ≡ gossip_none
      → (r' : Router) × (outputs : List ControlOutput) × (answer_rreq settings timestamp now iface
            link lucky rx result m r
          ≡ some (r', outputs))
        × All (Answers settings rx m) outputs
        × (if rx.l25_dst || not (m.ttl == 0) then length outputs ≡ 1 else length outputs ≤ 1)
  unfolding answer_rreq create_rrep
  answer_rreq-Answers lucky rx result m r quiet =
      let known : ℕ × Bool = get_destination_sequence_number r.node.rt m.ether_dhost in
      elim (Bool-cases rx.l25_dst) [
        | inl mine ↦
            rw (answer_rreq, mine)
              (
                _,
                _,
                refl,
                ((refl, refl, refl, own_number_fresh result m r.seq_num_global), tt),
                refl,
              )
        | inr other ↦ elim (Bool-cases (local_repair m known)) [
          | inl repair ↦
              rw (answer_rreq, other, repair)
                (_, _, refl, ((refl, refl, refl, repair_fresh m known repair), tt), ground arith)
          | inr pass ↦ elim (Bool-cases (m.ttl == 0)) [
            | inl dead ↦ rw (answer_rreq, other, pass, quiet, dead) (_, _, refl, tt, omega arith)
            | inr alive ↦ rw (answer_rreq, other, pass, quiet, alive) (_, _, refl, (refl, tt), refl)
          ]
        ]
      ]
