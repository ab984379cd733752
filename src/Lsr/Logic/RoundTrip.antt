-- ===== src/Lsr/Logic/RoundTrip.antt =====
-- What a host says in a TC, and what another one reads from it.
use mathlib.Core.Path.{subst, sym}
use des_routing_algorithms.Common.{
  ℕ, suc, ◌+◌, ◌*◌, ◌%◌, ◌^◌, ◌≤◌, ◌<◌, ◌≡◌, ◌≢◌, refl, ◌∙◌, inl, inr, Bool, false, Option, none,
  some, List, [], ◌∷◌, ◌++◌, arith, find, modify, key-find, Unique, find-append, find-modify_self,
  find-modify_ne, Option-cases, ◌==◌, if◌then◌else◌, length, All, first,
}
use des_routing_algorithms.Lsr.{NodeNeighbors, AllNodes, addr_of, neighbor_of}
use des_routing_algorithms.Lsr.Dijkstra.Lookup.{find-modify}
use des_routing_algorithms.Lsr.Packets.{msg_drop}
use des_routing_algorithms.Lsr.Logic.Valid.{told}
use des_routing_algorithms.Lsr.Logic.Cells.{read_cells_end, read_cells_round}
use des_routing_algorithms.Lsr.Logic.{
  Globals, done, TcMsg, delete_old, copy_neighbors, size_of, add_neighbor, use_cell, read_cells,
  with_node, read_ext, process_tc, send_tc,
}

-- The address has 48 bits.
abbrev pub IsMac : NodeNeighbors → Type 0
IsMac n = n.addr < 2 ^ 48

-- What a table of neighbors answers after those of a TC were put into it, in their order.
abbrev pub heard : ℕ → List NodeNeighbors → Option NodeNeighbors → Option NodeNeighbors
heard v [] o = o
heard v (n ∷ ns) o = heard v ns (if n.addr == v then some n else o)

-- The neighbors that the table has for a host.
abbrev pub told_at : ℕ → Option AllNodes → Option NodeNeighbors
told_at v none = none
told_at v (some n) = elim n.neighbors [ none ↦ none | some nbs ↦ find neighbor_of v nbs ]

-- The sender is known, and not with a newer number.
abbrev pub IsOpen : ℕ → Option AllNodes → Type 0
IsOpen u8 none = ⊥
IsOpen u8 (some n) = (n.seq_nr ≤ u8) × (n.neighbors ≢ none)

find-add_neighbor :
    (nb : NodeNeighbors) (nbs : List NodeNeighbors) (v : ℕ)
    → (out : List NodeNeighbors) × (add_neighbor nb (some nbs) ≡ some out)
      × (find neighbor_of v out ≡ (if nb.addr == v then some nb else find neighbor_of v nbs))
unfolding add_neighbor
find-add_neighbor nb nbs v =
    let write = λ (n : NodeNeighbors). record n { entry_age = nb.entry_age; weight = nb.weight } in
    elim (Option-cases (find neighbor_of nb.addr nbs)) [
      | inl a ↦ (
        nbs ++ nb ∷ [],
        ground (arith, a),
        ground (arith, a, find-append neighbor_of v nbs (nb ∷ [])),
      )
      | inr c ↦
          let (n, a) = c in
          (
            modify neighbor_of nb.addr write nbs,
            ground (arith, a),
            ground (
              arith,
              a,
              key-find neighbor_of nb.addr nbs n a,
              find-modify_self neighbor_of write (λ n. refl) v nbs,
              find-modify_ne neighbor_of write (λ n. refl) v nb.addr nbs,
            ),
          )
    ]

use_cell-IsOpen :
    (msg : TcMsg) (nb : NodeNeighbors) (ns : List AllNodes)
    → IsOpen msg.u8 (find addr_of msg.ether_shost ns)
    → (v : ℕ)
    → (out : List AllNodes) × (use_cell msg nb ns ≡ some out)
      × IsOpen msg.u8 (find addr_of msg.ether_shost out)
      × (told_at v (find addr_of msg.ether_shost out)
          ≡ (if nb.addr == v then some nb else told_at v (find addr_of msg.ether_shost ns)))
unfolding use_cell
use_cell-IsOpen msg nb ns free v = elim (Option-cases (find addr_of msg.ether_shost ns)) [
  | inl a ↦ absurd (ground (arith, a, free))
  | inr c ↦
      let (node, a) = c in
      elim (Option-cases node.neighbors) [
        | inl b ↦ absurd (ground (arith, a, b, free))
        | inr d ↦
            let (nbs, b) = d in
            let (nbs', e, answers) = find-add_neighbor nb nbs v in
            let look = find-modify (told msg nbs') (λ n. refl) msg.ether_shost msg.ether_shost ns in
            (
              modify addr_of msg.ether_shost (told msg nbs') ns,
              ground (arith, a, b, e, free),
              ground (arith, a, look),
              ground (arith, a, b, look, answers),
            )
      ]
]

-- Reading what was written.
read_cells-copy_neighbors :
    (msg : TcMsg) (ns : List NodeNeighbors) (rest : List ℕ) (nodes : List AllNodes)
    → All IsMac ns
    → length ns < 32
    → IsOpen msg.u8 (find addr_of msg.ether_shost nodes)
    → (v : ℕ)
    → (out : List AllNodes) × (read_cells msg (1 + 8 * length ns) (copy_neighbors ns ++ rest) nodes
        ≡ some out)
      × (told_at v (find addr_of msg.ether_shost out)
          ≡ heard v ns (told_at v (find addr_of msg.ether_shost nodes)))
unfolding copy_neighbors
read_cells-copy_neighbors msg [] rest nodes macs short free v =
    (nodes, read_cells_end msg 1 rest nodes (omega arith), refl)
read_cells-copy_neighbors msg (n ∷ ns) rest nodes macs short free v =
    let (next, e, free', answers) = use_cell-IsOpen msg n nodes free v in
    let (out, e', answers') =
      read_cells-copy_neighbors msg ns rest next macs.1 (omega arith) free' v in
    let less : (1 + 8 * suc (length ns) + 248) % 2 ^ 8 ≡ 1 + 8 * length ns = omega arith in
    (
      out,
      read_cells_round msg n (1 + 8 * suc (length ns)) (copy_neighbors ns ++ rest) nodes next macs.0
            (omega arith) e
          ∙ rw less e',
      ground (arith, answers, answers'),
    )

heard-find :
    (v : ℕ) (ns : List NodeNeighbors) (o : Option NodeNeighbors)
    → Unique neighbor_of ns
    → heard v ns o ≡ first neighbor_of (find neighbor_of v ns) o
heard-find v [] o u = refl
heard-find v (n ∷ ns) o u =
    ground (arith, heard-find v ns (if n.addr == v then some n else o) u.1, u.0)

read_ext-copy_neighbors :
    (msg : TcMsg) (ns : List NodeNeighbors) (rest : List ℕ) (nodes : List AllNodes)
    → All IsMac ns
    → length ns < 32
    → Unique neighbor_of ns
    → IsOpen msg.u8 (find addr_of msg.ether_shost nodes)
    → (v : ℕ)
    → (out : List AllNodes) × (read_ext msg (size_of ns ∷ copy_neighbors ns ++ rest) nodes
        ≡ some out)
      × (told_at v (find addr_of msg.ether_shost out)
          ≡ first neighbor_of
              (find neighbor_of v ns)
              (told_at v (find addr_of msg.ether_shost nodes)))
read_ext-copy_neighbors msg ns rest nodes macs short u free v =
    let (out, e, answers) = read_cells-copy_neighbors msg ns rest nodes macs short free v in
    let size : size_of ns ≡ 1 + 8 * length ns = omega arith in
    (out, rw size e, answers ∙ heard-find v ns _ u)

sent_by :
    (intact : Bool) (defsrc : ℕ) (g g' : Globals) (msg : TcMsg)
    → send_tc intact defsrc g ≡ done (g', some msg)
    → (msg.tc_ext ≡ size_of g'.dir_neighbors ∷ copy_neighbors g'.dir_neighbors)
      × (msg.ether_shost ≡ defsrc)
      × (length g'.dir_neighbors < 32)
unfolding send_tc
sent_by intact defsrc g g' msg e = elim (Option-cases (delete_old intact g.dir_neighbors)) [
  | inl a ↦ absurd (ground (arith, a, e))
  | inr c ↦ let (ns, a) = c in ground (arith, a, e)
]

-- The message as it is received, with whatever follows the extension in memory.
abbrev pub received : TcMsg → List ℕ → TcMsg
received msg rest = record msg { tc_ext = msg.tc_ext ++ rest }

-- A TC that a host sends, whose table has no address twice and addresses of 48 bits, is read by
-- another host, whatever follows it in memory, if the lock is free there and the sender is new
-- there, with memory that holds a table of neighbors and no newer number, or known with a table
-- and no newer number. Then the table that the reader has for the sender answers for each host
-- that the sender lists as the table of the sender does, and for any other host as before, also if
-- the sender has lost it.
pub process_tc-send_tc :
    (intact : Bool) (defsrc : ℕ) (g g' : Globals) (msg : TcMsg)
    → send_tc intact defsrc g ≡ done (g', some msg)
    → Unique neighbor_of g'.dir_neighbors
    → All IsMac g'.dir_neighbors
    → (mem : AllNodes) (h : Globals) (rest : List ℕ) → h.locked ≡ false
    → IsOpen msg.u8 (find addr_of defsrc (with_node mem msg h.all_nodes))
    → (v : ℕ)
    → (h' : Globals) × (process_tc mem h (some (received msg rest)) ≡ done (h', msg_drop))
      × (told_at v (find addr_of defsrc h'.all_nodes)
          ≡ first neighbor_of
              (find neighbor_of v g'.dir_neighbors)
              (told_at v (find addr_of defsrc (with_node mem msg h.all_nodes))))
unfolding process_tc
process_tc-send_tc intact defsrc g g' msg e u macs mem h rest unlocked free v =
    let (bytes, shost, short) = sent_by intact defsrc g g' msg e in
    let nodes = with_node mem msg h.all_nodes in
    let free' = subst (λ a. IsOpen msg.u8 (find addr_of a nodes)) (sym shost) free in
    let (out, read, answers) =
      read_ext-copy_neighbors (received msg rest) g'.dir_neighbors rest nodes macs short u free'
        v in
    (
      record h { all_nodes = out },
      ground (arith, unlocked, bytes, read),
      ground (arith, shost, answers),
    )
