-- ===== src/Lsr/Logic/Near.antt =====
-- The table of the neighbors that a host hears.
use des_routing_algorithms.Common.{
  ℕ, ◌≤◌, ◌≡◌, refl, inl, inr, Bool, true, false, some, List, [], ◌∷◌, ◌++◌, arith, Unique, All,
  modify, append-Unique, modify-Unique, All-append, Option-cases, find, ◌==◌,
}
use des_routing_algorithms.Lsr.{NodeNeighbors, neighbor_of}
use des_routing_algorithms.Lsr.Packets.{Verdict}
use des_routing_algorithms.Lsr.Logic.{
  Globals, done, nh_entry_age, neighbor_age, age_neighbor, refresh_neighbor, expire, process_hello,
}
use des_routing_algorithms.Lsr.Logic.Expire.{expire-Unique}

-- An entry as a HELLO leaves it, or one that has aged since.
abbrev pub Heard : NodeNeighbors → Type 0
Heard n = (n.weight ≡ 1) × (n.entry_age ≤ nh_entry_age)

pub record IsNear (ns : List NodeNeighbors) : Type 0 where
  pub unique : Unique neighbor_of ns
  pub heard : All Heard ns

abbrev renewed : NodeNeighbors → NodeNeighbors
renewed n = record n { entry_age = nh_entry_age }

modify-heard :
    (k : ℕ) (ns : List NodeNeighbors) → All Heard ns → All Heard (modify neighbor_of k renewed ns)
modify-heard k [] h = tt
modify-heard k (n ∷ ns) h = ground (arith, h, modify-heard k ns h.1)

expire-heard :
    (write : NodeNeighbors → NodeNeighbors) (intact : Bool)
    → ((n : NodeNeighbors) → (n.entry_age == 0) ≡ false → Heard n → Heard (write n))
    → (ns out : List NodeNeighbors) → expire neighbor_age write intact ns ≡ some out
    → All Heard ns
    → All Heard out
unfolding expire
expire-heard write intact w [] out e h = ground (arith, e)
expire-heard write intact w (n ∷ ns) out e h =
    elim (Option-cases (expire neighbor_age write intact ns)) [
      | inl a ↦ absurd (ground (arith, a, e))
      | inr c ↦
          let (rest, a) = c in
          ground (arith, a, e, w n, h, expire-heard write intact w ns rest a h.1)
    ]

pub aged-IsNear :
    (intact : Bool) (ns out : List NodeNeighbors)
    → expire neighbor_age age_neighbor intact ns ≡ some out
    → IsNear ns
    → IsNear out
aged-IsNear intact ns out e t = record {
  unique = expire-Unique neighbor_of neighbor_age age_neighbor (λ n. refl) intact ns out t.unique e;
  heard = expire-heard age_neighbor intact (λ n a h. ground (arith, h, a)) ns out e t.heard;
}

pub refreshed-IsNear :
    (intact : Bool) (ns out : List NodeNeighbors)
    → expire neighbor_age refresh_neighbor intact ns ≡ some out
    → IsNear ns
    → IsNear out
refreshed-IsNear intact ns out e t = record {
  unique =
      expire-Unique neighbor_of neighbor_age refresh_neighbor (λ n. refl) intact ns out t.unique e;
  heard = expire-heard refresh_neighbor intact (λ n a h. ground (arith, h, a)) ns out e t.heard;
}

pub process_hello-IsNear :
    (malloc : Bool) (g g' : Globals) (shost : ℕ) (v : Verdict)
    → process_hello malloc g shost true ≡ done (g', v)
    → IsNear g.dir_neighbors
    → (g'.all_nodes ≡ g.all_nodes) × IsNear g'.dir_neighbors
unfolding process_hello
process_hello-IsNear malloc g g' shost v e t =
    let fresh : NodeNeighbors = record { addr = shost; entry_age = nh_entry_age; weight = 1 } in
    elim (Option-cases (find neighbor_of shost g.dir_neighbors)) [
      | inl a ↦
          let grown : IsNear (g.dir_neighbors ++ fresh ∷ []) = record {
            unique = append-Unique neighbor_of g.dir_neighbors fresh t.unique a;
            heard = All-append Heard g.dir_neighbors (fresh ∷ []) t.heard ((refl, omega arith), tt);
          } in
          ground (arith, e, a, grown)
      | inr c ↦
          let again : IsNear (modify neighbor_of shost renewed g.dir_neighbors) = record {
            unique = modify-Unique neighbor_of renewed (λ n. refl) shost g.dir_neighbors t.unique;
            heard = modify-heard shost g.dir_neighbors t.heard;
          } in
          ground (arith, e, c, again)
    ]
