-- ===== src/Lsr/Logic/Valid.antt =====
-- What the tasks and callbacks keep of the two tables, in whatever order they come.
use mathlib.Core.Path.{subst, sym}
use des_routing_algorithms.Common.{
  ℕ, ◌≡◌, ◌≢◌, refl, ◌⊎◌, inl, inr, Bool, none, some, List, [], ◌∷◌, ◌++◌, arith, find, delete,
  modify, Unique, find-append, find-delete_self, delete-Unique, append-Unique, modify-Unique,
  Option-cases, Bool-cases, leb,
}
use des_routing_algorithms.Lsr.{NodeNeighbors, AllNodes, addr_of, ether_broadcast}
use des_routing_algorithms.Lsr.Dijkstra.{shortest_path}
use des_routing_algorithms.Lsr.Dijkstra.Lookup.{find-modify}
use des_routing_algorithms.Lsr.Dijkstra.Invariant.{IsWhole}
use des_routing_algorithms.Lsr.Dijkstra.Start.{IsTable}
use des_routing_algorithms.Lsr.Dijkstra.Addresses.{shortest_path-Unique}
use des_routing_algorithms.Lsr.Logic.{
  TcMsg, rt_entry_age, node_age, age_node, route_from, use_cell, add_neighbor, with_node, read_ext,
  refresh_nodes,
}
use des_routing_algorithms.Lsr.Logic.Expire.{find-expire, expire-Unique}
use des_routing_algorithms.Lsr.Logic.Cells.{read_cells-keeps}

-- What the theorems on routes ask of a table of nodes between two runs of the algorithm, which is
-- without the own node.
pub record IsNodes (defsrc : ℕ) (ns : List AllNodes) : Type 0 where
  pub unique : Unique addr_of ns
  pub whole : (v : ℕ) → IsWhole (find addr_of v ns)
  pub broadcast : find addr_of ether_broadcast ns ≡ none
  pub own : find addr_of defsrc ns ≡ none

-- What holds of it whatever memory is given for an entry, and whichever other host sends a TC.
pub record IsApart (defsrc : ℕ) (ns : List AllNodes) : Type 0 where
  pub unique : Unique addr_of ns
  pub own : find addr_of defsrc ns ≡ none

-- With its own entry at the end it is a table for the algorithm.
abbrev pub own_entry : ℕ → AllNodes → List NodeNeighbors → AllNodes
own_entry defsrc mem nbs = record mem {
  addr = defsrc;
  entry_age = rt_entry_age;
  neighbors = some nbs;
}

pub append-IsTable :
    (defsrc : ℕ) (mem : AllNodes) (nbs : List NodeNeighbors) (ns : List AllNodes)
    → defsrc ≢ ether_broadcast
    → IsNodes defsrc ns
    → IsTable defsrc (ns ++ own_entry defsrc mem nbs ∷ [])
append-IsTable defsrc mem nbs ns ne t =
    let self = own_entry defsrc mem nbs in
    let look = λ (v : ℕ). find-append addr_of v ns (self ∷ []) in
    record {
      unique = append-Unique addr_of ns self t.unique t.own;
      whole = λ v. ground (arith, look v, t.whole v);
      broadcast = ground (arith, look ether_broadcast, t.broadcast);
      known = ground (arith, look defsrc, t.own);
    }

-- What `use_cell` writes to the entry of the sender.
abbrev pub told : TcMsg → List NodeNeighbors → AllNodes → AllNodes
told msg nbs n = record n { entry_age = rt_entry_age; seq_nr = msg.u8; neighbors = some nbs }

pub use_cell-cases :
    (msg : TcMsg) (nb : NodeNeighbors) (ns out : List AllNodes)
    → use_cell msg nb ns ≡ some out
    → (out ≡ ns)
      ⊎ ((nbs : List NodeNeighbors) × (out ≡ modify addr_of msg.ether_shost (told msg nbs) ns))
unfolding use_cell
use_cell-cases msg nb ns out e = elim (Option-cases (find addr_of msg.ether_shost ns)) [
  | inl a ↦ inl (ground (arith, a))
  | inr c ↦
      let (node, a) = c in
      elim (Option-cases (add_neighbor nb node.neighbors)) [
        | inl b ↦ inl (ground (arith, a, b))
        | inr d ↦
            let (nbs, b) = d in
            elim (Bool-cases (leb node.seq_nr msg.u8)) [
              | inl l ↦ inr (nbs, ground (arith, a, b, l))
              | inr l ↦ inl (ground (arith, a, b, l))
            ]
      ]
]

module _ (defsrc : ℕ) where
  pub route_from-IsApart :
      (differs : Bool) (mem : AllNodes) (nbs : List NodeNeighbors) (ns out : List AllNodes)
      → route_from differs defsrc mem nbs ns ≡ some out
      → IsApart defsrc ns
      → IsApart defsrc out
  unfolding route_from
  route_from-IsApart differs mem nbs [] out e t = subst (IsApart defsrc) (ground (arith, e)) t
  route_from-IsApart differs mem nbs (n ∷ ns) out e t =
      let all = (n ∷ ns) ++ own_entry defsrc mem nbs ∷ [] in
      elim (Option-cases (shortest_path differs defsrc all)) [
        | inl a ↦ absurd (ground (arith, a, e))
        | inr c ↦
            let (end, a) = c in
            let unique : Unique addr_of end =
              shortest_path-Unique differs defsrc all end a
                (append-Unique addr_of (n ∷ ns) (own_entry defsrc mem nbs) t.unique t.own) in
            let same : delete addr_of defsrc end ≡ out = ground (arith, a, e) in
            subst (IsApart defsrc) same (record {
              unique = delete-Unique addr_of defsrc end unique;
              own = find-delete_self addr_of defsrc end unique;
            })
      ]

  use_cell-IsApart :
      (msg : TcMsg) (nb : NodeNeighbors) (ns out : List AllNodes)
      → use_cell msg nb ns ≡ some out
      → IsApart defsrc ns
      → IsApart defsrc out
  use_cell-IsApart msg nb ns out e t = elim (use_cell-cases msg nb ns out e) [
    | inl same ↦ subst (IsApart defsrc) (sym same) t
    | inr c ↦
        let (nbs, written) = c in
        subst (IsApart defsrc) (sym written) (record {
          unique = modify-Unique addr_of (told msg nbs) (λ n. refl) msg.ether_shost ns t.unique;
          own =
              ground
                (arith, find-modify (told msg nbs) (λ n. refl) defsrc msg.ether_shost ns, t.own);
        })
  ]

  pub with_node-IsApart :
      (mem : AllNodes) (msg : TcMsg) (ns : List AllNodes)
      → msg.ether_shost ≢ defsrc
      → IsApart defsrc ns
      → IsApart defsrc (with_node mem msg ns)
  with_node-IsApart mem msg ns other t = elim (Option-cases (find addr_of msg.ether_shost ns)) [
    | inr c ↦ let (n, a) = c in rw (a, with_node) t
    | inl a ↦
        let node : AllNodes = record mem {
          addr = msg.ether_shost;
          entry_age = rt_entry_age;
          seq_nr = msg.u8;
        } in
        let grown : IsApart defsrc (ns ++ node ∷ []) = record {
          unique = append-Unique addr_of ns node t.unique a;
          own = ground (arith, find-append addr_of defsrc ns (node ∷ []), t.own);
        } in
        rw (a, with_node) grown
  ]

  pub expire-IsApart :
      (intact : Bool) (ns out : List AllNodes)
      → refresh_nodes intact ns ≡ some out
      → IsApart defsrc ns
      → IsApart defsrc out
  expire-IsApart intact ns out e t = record {
    unique = expire-Unique addr_of node_age age_node (λ n. refl) intact ns out t.unique e;
    own = ground (
      arith,
      find-expire addr_of node_age age_node (λ n. refl) intact ns out defsrc t.unique e,
      t.own,
    );
  }

  pub read_ext-IsApart :
      (msg : TcMsg) (bytes : List ℕ) (ns out : List AllNodes)
      → read_ext msg bytes ns ≡ some out
      → IsApart defsrc ns
      → IsApart defsrc out
  read_ext-IsApart msg [] ns out e t = cc
  read_ext-IsApart msg (size ∷ bytes) ns out e t =
      read_cells-keeps msg (IsApart defsrc) (use_cell-IsApart msg) size bytes ns out e t
