-- ===== src/Lsr/Dijkstra/Trace.antt =====
-- Part IV: the next hops, and the distances that they stand for.
use des_routing_algorithms.Common.{
  ℕ, zero, suc, ◌-◌, ◌≤◌, ◌<◌, ◌≡◌, ◌≢◌, refl, inl, inr, Bool, true, ◌&&◌, ◌||◌, not, Option, none,
  some, List, [], ◌∷◌, arith, find, key-find, Unique, Option-cases, Bool-cases, length, ltb, ◌==◌,
  if◌then◌else◌,
}
use des_routing_algorithms.Lsr.{AllNodes, addr_of, ether_broadcast}
use des_routing_algorithms.Lsr.Dijkstra.{infinity, check_visited, climb, trace, trace_all}
use des_routing_algorithms.Lsr.Dijkstra.Paths.{Graph, Edge, Walk, here, step, Route}
use des_routing_algorithms.Lsr.Dijkstra.Lookup.{count}
use des_routing_algorithms.Lsr.Dijkstra.Visit.{Round}
use des_routing_algorithms.Lsr.Dijkstra.Invariant.{Trail}

-- What Part IV leaves of an entry.
abbrev pub Hopped : Bool → List AllNodes → ℕ → Option AllNodes → Option AllNodes → Type 0
Hopped differs nodes src none o = o ≡ none
Hopped differs nodes src (some n) none = ⊥
Hopped differs nodes src (some n) (some n') =
    (trace differs nodes src n ≡ some n'.next_hop) × (n' ≡ record n { next_hop = n'.next_hop })

pub trace_all-Hopped :
    (differs : Bool) (nodes : List AllNodes) (src : ℕ) (ns : List AllNodes)
    → Unique addr_of ns
    → ((v : ℕ) (n : AllNodes) → find addr_of v ns ≡ some n → trace differs nodes src n ≢ none)
    → (out : List AllNodes) × (trace_all differs nodes src ns ≡ some out)
      × Unique addr_of out
      × ((v : ℕ) → Hopped differs nodes src (find addr_of v ns) (find addr_of v out))
unfolding trace_all
trace_all-Hopped differs nodes src [] u h = ([], refl, tt, λ v. refl)
trace_all-Hopped differs nodes src (n ∷ ns) u h =
    let (out, e, unique, hopped) =
      trace_all-Hopped differs nodes src ns u.1 (λ v m f. h v m (ground (arith, f, u.0))) in
    elim (Option-cases (trace differs nodes src n)) [
      | inl t ↦ absurd (h n.addr n (ground arith) t)
      | inr c ↦
          let (hop, t) = c in
          (
            record n { next_hop = hop } ∷ out,
            ground (arith, t, e),
            (ground (arith, hopped n.addr, u.0), unique),
            λ v. ground (arith, t, hopped v),
          )
    ]

visited_at :
    (v : ℕ) (n : AllNodes) (ns : List AllNodes)
    → check_visited ns ≡ true
    → find addr_of v ns ≡ some n
    → n.visited ≡ true
unfolding check_visited
visited_at v n [] c e = cc
visited_at v n (m ∷ ns) c e = ground (arith, visited_at v n ns)

pos_of_known : (v : ℕ) (ns : List AllNodes) → find addr_of v ns ≢ none → 0 < length ns
pos_of_known v [] h = absurd (h refl)
pos_of_known v (n ∷ ns) h = omega arith

hop_back :
    (g : Graph) (src : ℕ) (o : Option ℕ) (v d : ℕ)
    → Trail g src o v d
    → (h : ℕ) × (o ≡ some h) × Route g src h v d
hop_back g src none v d t = absurd t
hop_back g src (some h) v d t = (h, refl, t)

-- A node that is known lies within a distance.
abbrev pub Within : ℕ → Option AllNodes → Type 0
Within d none = ⊥
Within d (some n) = n.distance ≤ d

-- A node is reached over a route to the node before it.
abbrev pub Behind : Graph → ℕ → ℕ → AllNodes → Type 0
Behind g src v n =
    (e : ℕ) × (e ≤ n.distance)
    × Route g src n.next_hop n.prev_hop e
    × Edge g n.prev_hop v (n.distance - e)

-- How a node is reached: over a link, where the code takes the source itself for the next hop, or
-- behind another node.
abbrev pub Via : Graph → ℕ → ℕ → AllNodes → Type 0
Via g src v n =
    if n.prev_hop == src then (n.next_hop ≡ src) × Edge g src v n.distance else Behind g src v n

abbrev pub IsRouted : Graph → ℕ → ℕ → Option AllNodes → Type 0
IsRouted g src v none = g v ≡ none
IsRouted g src v (some n) =
    if ltb n.distance infinity
    then Via g src v n
    else (n.distance ≡ infinity) × (n.next_hop ≡ ether_broadcast)

module _ (g : Graph) (src size : ℕ) (ns : List AllNodes) (known : find addr_of src ns ≢ none)
    (r : Round g src size size ns) (all : check_visited ns ≡ true) where
  open r use {inv, counted, sized}
  open inv use {same, broadcast, source, blank, tree, relaxed, traced}

  abbrev at : ℕ → Option AllNodes
  at v = find addr_of v ns

  pub least : {v d : ℕ} → Walk g src v d → Within d (at v)
  least here = ground (arith, source)
  least (step {u} {v} d w way e) =
      let before = least way in
      elim (Option-cases (at u)) [
        | inl a ↦ absurd (ground (arith, before))
        | inr a ↦ elim (Option-cases (at v)) [
          | inl b ↦ absurd (ground (arith, e, same v))
          | inr b ↦
              let (m, at_u) = a in
              let (n, at_v) = b in
              ground (arith, before, relaxed u v w e, visited_at u m ns all at_u)
        ]
      ]

  climb-src : (k : ℕ) → 0 < k → climb k ns src src ≡ some src
  unfolding climb
  climb-src zero pos = absurd (omega arith)
  climb-src (suc k) pos = elim (Option-cases (at src)) [
    | inl e ↦ absurd (known e)
    | inr c ↦ let (n, e) = c in ground (arith, e, source, key-find addr_of src ns n e)
  ]

  -- The hop that Part IV finds for a node that was reached.
  hop_from :
      (v : ℕ) (n : AllNodes)
      → v ≢ src
      → at v ≡ some n
      → n.prev_hop ≢ ether_broadcast
      → (h : ℕ) × (climb (length ns) ns src n.prev_hop ≡ some h)
        × Via g src v (record n { next_hop = h })
  hop_from v n ne e reached = elim (Option-cases (at n.prev_hop)) [
    | inl a ↦ absurd (ground (arith, a, tree v n ne e))
    | inr c ↦
        let (p, a) = c in
        let hangs = tree v n ne e in
        elim (Bool-cases (n.prev_hop == src)) [
          | inl b ↦
              let at_src : n.prev_hop ≡ src = ground (arith, b) in
              let edge : Edge g src v n.distance = ground (arith, a, hangs, source) in
              (
                src,
                rw at_src (climb-src (length ns) (pos_of_known src ns known)),
                rw b (refl, edge),
              )
          | inr b ↦
              let other : n.prev_hop ≢ src = ground (arith, b) in
              let back : Trail g src (climb (count ns) ns src n.prev_hop) n.prev_hop p.distance =
                ground (arith, a, hangs, tree n.prev_hop p other a, traced n.prev_hop other) in
              let (h, found, route) =
                hop_back g src (climb (count ns) ns src n.prev_hop) n.prev_hop p.distance back in
              (
                h,
                ground (arith, found, counted, sized),
                rw b (p.distance, ground (arith, a, hangs), route, ground (arith, a, hangs)),
              )
        ]
  ]

  pub trace_src :
      (differs : Bool) (n : AllNodes)
      → at src ≡ some n
      → (h : ℕ) × (trace differs ns src n ≡ some h)
  unfolding trace
  trace_src differs n e =
      elim (Bool-cases ((not (n.addr == src) || differs) && not (n.prev_hop == ether_broadcast))) [
        | inl b ↦
            (src, ground (arith, b, e, source, climb-src (length ns) (pos_of_known src ns known)))
        | inr b ↦ (n.next_hop, ground (arith, b))
      ]

  near :
      (v : ℕ) (n : AllNodes)
      → v ≢ src
      → at v ≡ some n
      → n.prev_hop ≢ ether_broadcast
      → ltb n.distance infinity ≡ true
  near v n ne e reached = elim (Option-cases (at n.prev_hop)) [
    | inl a ↦ absurd (ground (arith, a, tree v n ne e))
    | inr c ↦ let (p, a) = c in ground (arith, a, tree v n ne e)
  ]

  pub trace_ne :
      (differs : Bool) (v : ℕ) (n : AllNodes)
      → v ≢ src
      → at v ≡ some n
      → (h : ℕ) × (trace differs ns src n ≡ some h)
        × IsRouted g src v (some (record n { next_hop = h }))
  unfolding trace
  trace_ne differs v n ne e = elim (Bool-cases (n.prev_hop == ether_broadcast)) [
    | inl b ↦
        let far : n.distance ≡ infinity = ground (arith, b, tree v n ne e, broadcast) in
        let none_yet : n.next_hop ≡ ether_broadcast = ground (arith, e, blank v ne) in
        (n.next_hop, ground (arith, b), ground (arith, far, none_yet))
    | inr b ↦
        let reached : n.prev_hop ≢ ether_broadcast = ground (arith, b) in
        let (h, found, via) = hop_from v n ne e reached in
        (h, ground (arith, b, found, key-find addr_of v ns n e), rw (near v n ne e reached) via)
  ]
