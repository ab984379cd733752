-- ===== src/Lsr/Dijkstra/Lookup.antt =====
-- What a search finds after each write of the algorithm, and which node is chosen next.
use mathlib.Core.Option
use des_routing_algorithms.Common.{
  ℕ, suc, ◌+◌, ◌≤◌, ◌<◌, ◌≡◌, refl, ◌⊎◌, inl, inr, true, false, Option, none, some, List, [], ◌∷◌,
  map, arith, ltb, ◌==◌, if◌then◌else◌, find, modify, length, Unique, Option-cases,
  find-modify_self, find-modify_ne,
}
use des_routing_algorithms.Lsr.{NodeNeighbors, AllNodes, addr_of}
use des_routing_algorithms.Lsr.Dijkstra.{check_visited, lowest_from, relax, relax_all, set_visited}

-- A write at one address.
module _ (f : AllNodes → AllNodes) (keeps : (n : AllNodes) → addr_of (f n) ≡ addr_of n) where
  pub find-modify :
      (v a : ℕ) (ns : List AllNodes)
      → find addr_of v (modify addr_of a f ns)
        ≡ (if a == v then Option.map f (find addr_of v ns) else find addr_of v ns)
  find-modify v a ns =
      ground (arith, find-modify_self addr_of f keeps v ns, find-modify_ne addr_of f keeps v a ns)

  pub find-map :
      (v : ℕ) (ns : List AllNodes) → find addr_of v (map f ns) ≡ Option.map f (find addr_of v ns)
  find-map v [] = refl
  find-map v (n ∷ ns) = ground (arith, keeps n, find-map v ns)

  pub map-Unique : (ns : List AllNodes) → Unique addr_of ns → Unique addr_of (map f ns)
  map-Unique [] u = tt
  map-Unique (n ∷ ns) u = ground (arith, keeps n, find-map (f n).addr ns, map-Unique ns u.1)

abbrev pub relaxed : AllNodes → NodeNeighbors → Option AllNodes → Option AllNodes
relaxed cur nb none = none
relaxed cur nb (some p) =
    if ltb (cur.distance + nb.weight) p.distance
    then some (record p { distance = cur.distance + nb.weight; prev_hop = cur.addr })
    else some p

pub find-relax :
    (cur : AllNodes) (nb : NodeNeighbors) (v : ℕ) (ns : List AllNodes)
    → find addr_of v (relax cur nb ns)
      ≡ (if nb.addr == v then relaxed cur nb (find addr_of v ns) else find addr_of v ns)
unfolding relax
find-relax cur nb v ns =
    let f =
      λ (p : AllNodes). record p { distance = cur.distance + nb.weight; prev_hop = cur.addr } in
    ground (arith, find-modify f (λ n. refl) v nb.addr ns)

-- The number of nodes that were visited.
abbrev pub count : List AllNodes → ℕ
count [] = 0
count (n ∷ ns) = if n.visited then suc (count ns) else count ns

pub count-le : (ns : List AllNodes) → count ns ≤ length ns
count-le [] = omega arith
count-le (n ∷ ns) = ground (arith, count-le ns)

pub count-lt : (ns : List AllNodes) → check_visited ns ≡ false → count ns < length ns
unfolding check_visited
count-lt [] h = cc
count-lt (n ∷ ns) h = ground (arith, count-lt ns, count-le ns)

pub count-all : (ns : List AllNodes) → check_visited ns ≡ true → count ns ≡ length ns
unfolding check_visited
count-all [] h = refl
count-all (n ∷ ns) h = ground (arith, count-all ns)

pub length-modify :
    (f : AllNodes → AllNodes) (a : ℕ) (ns : List AllNodes)
    → length (modify addr_of a f ns) ≡ length ns
length-modify f a [] = refl
length-modify f a (n ∷ ns) = ground (arith, length-modify f a ns)

pub length-relax_all :
    (cur : AllNodes) (nbs : List NodeNeighbors) (ns : List AllNodes)
    → length (relax_all cur nbs ns) ≡ length ns
unfolding relax_all relax
length-relax_all cur [] ns = refl
length-relax_all cur (nb ∷ nbs) ns =
    let f =
      λ (p : AllNodes). record p { distance = cur.distance + nb.weight; prev_hop = cur.addr } in
    ground (arith, length-relax_all cur nbs (relax cur nb ns), length-modify f nb.addr ns)

pub count-modify :
    (f : AllNodes → AllNodes)
    → ((n : AllNodes) → (f n).visited ≡ n.visited)
    → (a : ℕ) (ns : List AllNodes) → count (modify addr_of a f ns) ≡ count ns
count-modify f keeps a [] = refl
count-modify f keeps a (n ∷ ns) = ground (arith, keeps n, count-modify f keeps a ns)

pub count-relax :
    (cur : AllNodes) (nb : NodeNeighbors) (ns : List AllNodes) → count (relax cur nb ns) ≡ count ns
unfolding relax
count-relax cur nb ns =
    let f =
      λ (p : AllNodes). record p { distance = cur.distance + nb.weight; prev_hop = cur.addr } in
    ground (arith, count-modify f (λ n. refl) nb.addr ns)

pub count-set_visited :
    (ns : List AllNodes) (n : AllNodes)
    → find addr_of n.addr ns ≡ some n
    → n.visited ≡ false
    → count (modify addr_of n.addr set_visited ns) ≡ suc (count ns)
count-set_visited [] n e h = cc
count-set_visited (m ∷ ns) n e h = ground (arith, count-set_visited ns n)

abbrev pub AtLeast : ℕ → Option AllNodes → Type 0
AtLeast d none = Unit
AtLeast d (some n) = n.visited ≡ false → d ≤ n.distance

abbrev Below : ℕ → Option AllNodes → Type 0
Below d none = Unit
Below d (some n) = d ≤ n.distance

-- `get_low_unvisit_dist` hands out an unvisited node of the least distance.
found-lowest_from :
    (lowest : Option AllNodes) (ns : List AllNodes) (cur : AllNodes)
    → Unique addr_of ns
    → lowest_from lowest ns ≡ some cur
    → (lowest ≡ some cur) ⊎ ((find addr_of cur.addr ns ≡ some cur) × (cur.visited ≡ false))
unfolding lowest_from
found-lowest_from lowest [] cur u h = inl h
found-lowest_from none (n ∷ ns) cur u h =
    ground (arith, found-lowest_from none ns cur u.1, found-lowest_from (some n) ns cur u.1)
found-lowest_from (some l) (n ∷ ns) cur u h =
    ground (arith, found-lowest_from (some l) ns cur u.1, found-lowest_from (some n) ns cur u.1)

Below-lowest_from :
    (lowest : Option AllNodes) (ns : List AllNodes) (cur : AllNodes)
    → lowest_from lowest ns ≡ some cur
    → Below cur.distance lowest
unfolding lowest_from
Below-lowest_from none [] cur h = tt
Below-lowest_from (some l) [] cur h = ground arith
Below-lowest_from none (n ∷ ns) cur h = tt
Below-lowest_from (some l) (n ∷ ns) cur h =
    ground (arith, Below-lowest_from (some l) ns cur, Below-lowest_from (some n) ns cur)

AtLeast-lowest_from :
    (lowest : Option AllNodes) (ns : List AllNodes) (cur : AllNodes) (v : ℕ)
    → lowest_from lowest ns ≡ some cur
    → AtLeast cur.distance (find addr_of v ns)
unfolding lowest_from
AtLeast-lowest_from lowest [] cur v h = tt
AtLeast-lowest_from none (n ∷ ns) cur v h = ground (
  arith,
  AtLeast-lowest_from none ns cur v,
  AtLeast-lowest_from (some n) ns cur v,
  Below-lowest_from (some n) ns cur,
)
AtLeast-lowest_from (some l) (n ∷ ns) cur v h = ground (
  arith,
  AtLeast-lowest_from (some l) ns cur v,
  AtLeast-lowest_from (some n) ns cur v,
  Below-lowest_from (some n) ns cur,
  Below-lowest_from (some l) ns cur,
)

pub lowest_from-none :
    (lowest : Option AllNodes) (ns : List AllNodes)
    → lowest_from lowest ns ≡ none
    → (lowest ≡ none) × (check_visited ns ≡ true)
unfolding lowest_from check_visited
lowest_from-none lowest [] h = (h, refl)
lowest_from-none none (n ∷ ns) h =
    ground (arith, lowest_from-none none ns, lowest_from-none (some n) ns)
lowest_from-none (some l) (n ∷ ns) h =
    ground (arith, lowest_from-none (some l) ns, lowest_from-none (some n) ns)

pub record Lowest (ns : List AllNodes) (cur : AllNodes) : Type 0 where
  pub found : find addr_of cur.addr ns ≡ some cur
  pub unvisited : cur.visited ≡ false
  pub least : (v : ℕ) → AtLeast cur.distance (find addr_of v ns)

pub lowest_from-Lowest :
    (ns : List AllNodes)
    → Unique addr_of ns
    → check_visited ns ≡ false
    → (cur : AllNodes) × (lowest_from none ns ≡ some cur) × Lowest ns cur
lowest_from-Lowest ns u h = elim (Option-cases (lowest_from none ns)) [
  | inl e ↦ absurd (ground (arith, lowest_from-none none ns e))
  | inr c ↦
      let (cur, e) = c in
      let found = found-lowest_from none ns cur u e in
      (
        cur,
        e,
        record {
          found = ground (arith, found);
          unvisited = ground (arith, found);
          least = λ v. AtLeast-lowest_from none ns cur v e;
        },
      )
]
