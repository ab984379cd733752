-- ===== src/Lsr/Dijkstra/Climb.antt =====
-- The way back from a visited node does not change any more.
use des_routing_algorithms.Common.{
  ℕ, zero, suc, ◌+◌, ◌≡◌, ◌≢◌, inl, inr, true, Option, none, some, List, arith, find, Option-cases,
}
use des_routing_algorithms.Lsr.{AllNodes, addr_of, ether_broadcast}
use des_routing_algorithms.Lsr.Dijkstra.{climb}
use des_routing_algorithms.Lsr.Dijkstra.Paths.{Graph, Edge, further}
use des_routing_algorithms.Lsr.Dijkstra.Invariant.{Trail, Hangs}

-- An entry that was visited keeps its previous hop.
abbrev pub Kept : Option AllNodes → Option AllNodes → Type 0
Kept none o = Unit
Kept (some n) none = ⊥
Kept (some n) (some n') = n.visited ≡ true → (n'.prev_hop ≡ n.prev_hop) × (n'.addr ≡ n.addr)

climb-broadcast :
    (k src : ℕ) (ns : List AllNodes) (h : ℕ)
    → find addr_of ether_broadcast ns ≡ none
    → climb k ns src ether_broadcast ≢ some h
unfolding climb
climb-broadcast zero src ns h b e = cc
climb-broadcast (suc k) src ns h b e = ground (arith, b)

pub climb-suc :
    (k src : ℕ) (ns : List AllNodes) (v h : ℕ)
    → climb k ns src v ≡ some h
    → climb (suc k) ns src v ≡ some h
unfolding climb
climb-suc zero src ns v h e = cc
climb-suc (suc k) src ns v h e = elim (Option-cases (find addr_of v ns)) [
  | inl n ↦ ground arith
  | inr f ↦ let (n, found) = f in ground (arith, climb-suc k src ns n.prev_hop h)
]

pub Trail-suc :
    (g : Graph) (k src : ℕ) (ns : List AllNodes) (v d : ℕ)
    → Trail g src (climb k ns src v) v d
    → Trail g src (climb (suc k) ns src v) v d
Trail-suc g k src ns v d t = elim (Option-cases (climb k ns src v)) [
  | inl e ↦ absurd (ground (arith, e))
  | inr c ↦ let (h, e) = c in ground (arith, climb-suc k src ns v h e)
]

pub Trail-further :
    (g : Graph) (src : ℕ) (o : Option ℕ) (u v d w : ℕ)
    → Trail g src o u d
    → Edge g u v w
    → Trail g src o v (d + w)
Trail-further g src none u v d w t e = absurd t
Trail-further g src (some h) u v d w t e = further d w t e

module _ (g : Graph) (src : ℕ) (ns ns' : List AllNodes)
    (broadcast : find addr_of ether_broadcast ns ≡ none)
    (tree : (v : ℕ) (n : AllNodes)
      → v ≢ src
      → find addr_of v ns ≡ some n
      → Hangs g v n (find addr_of n.prev_hop ns))
    (kept : (v : ℕ) → Kept (find addr_of v ns) (find addr_of v ns')) where
  climb-kept :
      (k v h : ℕ) (n : AllNodes)
      → v ≢ src
      → find addr_of v ns ≡ some n
      → n.visited ≡ true
      → climb k ns src v ≡ some h
      → climb k ns' src v ≡ some h
  unfolding climb
  climb-kept zero v h n ne f vis e = cc
  climb-kept (suc k) v h n ne f vis e = elim (Option-cases (find addr_of n.prev_hop ns)) [
    | inl p ↦ ground (arith, kept v, tree v n ne f, climb-broadcast k src ns h broadcast)
    | inr q ↦
        let (p, found) = q in ground (arith, kept v, tree v n ne f, climb-kept k n.prev_hop h p)
  ]

  pub Trail-kept :
      (k v d : ℕ) (n : AllNodes)
      → v ≢ src
      → find addr_of v ns ≡ some n
      → n.visited ≡ true
      → Trail g src (climb k ns src v) v d
      → Trail g src (climb k ns' src v) v d
  Trail-kept k v d n ne f vis t = elim (Option-cases (climb k ns src v)) [
    | inl e ↦ ground (arith, e)
    | inr c ↦ let (h, e) = c in ground (arith, climb-kept k v h n ne f vis e)
  ]
