-- ===== src/Aodv/Gossip/Unlucky.antt =====
-- The calls of aodv_gossip.c, in any order.
use des_routing_algorithms.Common.{◌≡◌, refl, Bool, true, false, none, some, [], arith}
use des_routing_algorithms.Aodv.Timeval.{Timeval, Dessert}
use des_routing_algorithms.Aodv.Gossip.{
  RreqMsg, HoldQueue, GossipType, gossip_none, gossip_type0, gossip_type1, gossip_type3, pissog_0,
  pissog_3, hold_queue_add, hold_queue_drop, gossip_capt_rreq, flush, gossip_3, gossip,
}

module _ ⦃d : Dessert⦄ where
  -- The queues that the calls can lead to while the program runs.
  pub data Reach : HoldQueue → Type 0 where
    start : Reach (record { held = []; registered = 0 })
    capture : {q : HoldQueue} (m : RreqMsg) → Reach q → Reach (gossip_capt_rreq q m)
    poll : {q : HoldQueue} (scheduled : Timeval) → Reach q → Reach (gossip_3 scheduled q).0
    decide :
        {q q' : HoldQueue} (type : GossipType) (lucky answer : Bool) (m : RreqMsg)
        → Reach q
        → gossip type lucky q m ≡ some (q', answer)
        → Reach q'

  decided :
      (type : GossipType) (lucky answer : Bool) (q q' : HoldQueue) (m : RreqMsg)
      → q.held ≡ []
      → gossip type lucky q m ≡ some (q', answer)
      → q'.held ≡ []
  unfolding gossip hold_queue_add hold_queue_drop
  decided gossip_none lucky answer q q' m h e = ground arith
  decided gossip_type0 lucky answer q q' m h e = ground arith
  decided gossip_type1 lucky answer q q' m h e = ground arith
  decided gossip_type3 true answer q q' m h e = ground arith
  decided gossip_type3 false answer q q' m h e = ground arith
  decided pissog_0 lucky answer q q' m h e = absurd (ground (arith, e))
  decided pissog_3 lucky answer q q' m h e = absurd (ground (arith, e))

  capture_empty : (q : HoldQueue) (m : RreqMsg) → q.held ≡ [] → (gossip_capt_rreq q m).held ≡ []
  unfolding gossip_capt_rreq
  capture_empty q m h = ground arith

  poll_empty :
      (q : HoldQueue) (scheduled : Timeval) → q.held ≡ [] → (gossip_3 scheduled q).0.held ≡ []
  unfolding gossip_3 flush
  poll_empty q scheduled h = rw (gossip_3, h) refl

  Reach-empty : (q : HoldQueue) → Reach q → q.held ≡ []
  Reach-empty _ start = refl
  Reach-empty _ (capture {q} m r) = capture_empty q m (Reach-empty q r)
  Reach-empty _ (poll {q} scheduled r) = poll_empty q scheduled (Reach-empty q r)
  Reach-empty _ (decide {q} {q'} type lucky answer m r e) =
      decided type lucky answer q q' m (Reach-empty q r) e

  -- Whatever RREQs were heard and decided on before, none is held, and where GOSSIP_3 is to hold a
  -- RREQ because the random number is not in its favor, the program ends.
  pub Reach-gossip :
      (q : HoldQueue) (m : RreqMsg)
      → Reach q
      → (gossip gossip_type3 false q m ≡ none) × (q.held ≡ [])
  unfolding gossip hold_queue_add
  Reach-gossip q m r = (ground (arith, Reach-empty q r), Reach-empty q r)
