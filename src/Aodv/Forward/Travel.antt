-- ===== src/Aodv/Forward/Travel.antt =====
-- The way of a packet from node to node.
use des_routing_algorithms.Common.{ℕ, suc, ◌+◌, ◌≡◌, refl, ◌∙◌, Bool, Option, List, ◌∷◌, arith, All}
use des_routing_algorithms.Aodv.Timeval.{Timeval, Dessert}
use des_routing_algorithms.Aodv.Rerr.{Exts}
use des_routing_algorithms.Aodv.Forward.{DataMsg, RxFlags, Node, Output, mesh, forward}
use des_routing_algorithms.Aodv.Forward.Once.{Aged, forward-Aged}

module _ ⦃d : Dessert⦄ (x : Exts) where
  -- The packet `m` has been sent on by so many nodes, and is `m'` now. The nodes are in any state.
  pub data Travels (m : DataMsg) : ℕ → DataMsg → Type 0 where
    here : Travels m 0 m
    hop :
        {k : ℕ} {m' m'' : DataMsg}
        → Travels m k m'
        → (ifaces : List ℕ) (timestamp now : Timeval) (rx : RxFlags) (n : Node)
          (malloc : (Bool × Bool) × Bool) (iface : Option ℕ) (rest : List Output)
        → (forward timestamp now x ifaces rx m' n malloc).outputs ≡ mesh m'' iface ∷ rest
        → Travels m (suc k) m''

  -- A packet that nodes send on, whatever their routes are, has lost one of its TTL at each, so that
  -- no packet is sent on more often than its TTL says; its source, its destination and its number
  -- remain.
  pub Travels-ttl :
      (m m' : DataMsg) (k : ℕ)
      → Travels m k m'
      → (k + m'.ttl ≡ m.ttl)
        × (m'.ether_dhost ≡ m.ether_dhost)
        × (m'.ether_shost ≡ m.ether_shost)
        × (m'.seq ≡ m.seq)
  Travels-ttl m _ _ here = (omega arith, refl, refl, refl)
  Travels-ttl m _ _ (hop {k} {m'} {m''} t ifaces timestamp now rx n malloc iface rest e) =
      let before : (k + m'.ttl ≡ m.ttl)
          × (m'.ether_dhost ≡ m.ether_dhost)
          × (m'.ether_shost ≡ m.ether_shost)
          × (m'.seq ≡ m.seq) =
        Travels-ttl m m' k t in
      let all : All (Aged x ifaces m') (forward timestamp now x ifaces rx m' n malloc).outputs =
        forward-Aged x ifaces timestamp now rx m' n malloc in
      let step : All (Aged x ifaces m') (mesh m'' iface ∷ rest) = rw e at all in
      (
        omega (arith, before.0, step.0.0),
        step.0.1 ∙ before.1,
        step.0.2 ∙ before.2,
        step.0.3 ∙ before.3,
      )
