-- ===== src/Lsr/Logic/Cells.antt =====
-- The loop of `process_tc` on the entries of a TC.
use des_routing_algorithms.Common.{
  ℕ, ◌+◌, ◌%◌, ◌^◌, ◌≤◌, ◌<◌, ◌≡◌, refl, inl, inr, false, none, some, List, [], ◌∷◌, ◌++◌, arith,
  Option-cases, leb,
}
use des_routing_algorithms.Lsr.{NodeNeighbors, AllNodes}
use des_routing_algorithms.Lsr.Logic.{TcMsg, mac_bytes, mac_of, use_cell, read_cells}

pub mac_of-mac_bytes : (a : ℕ) → a < 2 ^ 48 → mac_of (mac_bytes 6 a) ≡ a
mac_of-mac_bytes a h = omega arith

-- What each entry keeps, the loop keeps.
module _ (msg : TcMsg) (P : List AllNodes → Type 0)
    (keeps : (nb : NodeNeighbors) (ns out : List AllNodes)
      → use_cell msg nb ns ≡ some out
      → P ns
      → P out) where
  pub read_cells-keeps :
      (size : ℕ) (bytes : List ℕ) (ns out : List AllNodes)
      → read_cells msg size bytes ns ≡ some out
      → P ns
      → P out
  unfolding read_cells
  read_cells-keeps size [] ns out e p = ground (arith, e, p)
  read_cells-keeps size (a ∷ []) ns out e p = ground (arith, e, p)
  read_cells-keeps size (a ∷ b ∷ []) ns out e p = ground (arith, e, p)
  read_cells-keeps size (a ∷ b ∷ c ∷ []) ns out e p = ground (arith, e, p)
  read_cells-keeps size (a ∷ b ∷ c ∷ d ∷ []) ns out e p = ground (arith, e, p)
  read_cells-keeps size (a ∷ b ∷ c ∷ d ∷ x ∷ []) ns out e p = ground (arith, e, p)
  read_cells-keeps size (a ∷ b ∷ c ∷ d ∷ x ∷ f ∷ []) ns out e p = ground (arith, e, p)
  read_cells-keeps size (a ∷ b ∷ c ∷ d ∷ x ∷ f ∷ age ∷ []) ns out e p = ground (arith, e, p)
  read_cells-keeps size (a ∷ b ∷ c ∷ d ∷ x ∷ f ∷ age ∷ weight ∷ bytes) ns out e p =
      let nb : NodeNeighbors = record {
        addr = mac_of (a ∷ b ∷ c ∷ d ∷ x ∷ f ∷ []);
        entry_age = age;
        weight = weight;
      } in
      elim (Option-cases (use_cell msg nb ns)) [
        | inl u ↦ ground (arith, e, p, u)
        | inr u ↦
            let (next, e') = u in
            ground (
              arith,
              e,
              p,
              e',
              keeps nb ns next e' p,
              read_cells-keeps ((size + 248) % 2 ^ 8) bytes next out,
            )
      ]

-- With a size of 8 bits that is neither a multiple of 8 nor one more, the loop of `process_tc`
-- ends with an access outside of its memory, however much memory follows.
pub read_cells-none :
    (msg : TcMsg) (size : ℕ) (bytes : List ℕ) (ns : List AllNodes)
    → size < 256
    → 2 ≤ size % 8
    → read_cells msg size bytes ns ≡ none
unfolding read_cells
read_cells-none msg size [] ns lt h = ground arith
read_cells-none msg size (a ∷ []) ns lt h = ground arith
read_cells-none msg size (a ∷ b ∷ []) ns lt h = ground arith
read_cells-none msg size (a ∷ b ∷ c ∷ []) ns lt h = ground arith
read_cells-none msg size (a ∷ b ∷ c ∷ d ∷ []) ns lt h = ground arith
read_cells-none msg size (a ∷ b ∷ c ∷ d ∷ x ∷ []) ns lt h = ground arith
read_cells-none msg size (a ∷ b ∷ c ∷ d ∷ x ∷ f ∷ []) ns lt h = ground arith
read_cells-none msg size (a ∷ b ∷ c ∷ d ∷ x ∷ f ∷ age ∷ []) ns lt h = ground arith
read_cells-none msg size (a ∷ b ∷ c ∷ d ∷ x ∷ f ∷ age ∷ weight ∷ bytes) ns lt h =
    let nb : NodeNeighbors = record {
      addr = mac_of (a ∷ b ∷ c ∷ d ∷ x ∷ f ∷ []);
      entry_age = age;
      weight = weight;
    } in
    elim (Option-cases (use_cell msg nb ns)) [
      | inl u ↦ ground (arith, u)
      | inr u ↦
          let (next, e) = u in
          ground (
            arith,
            e,
            read_cells-none msg ((size + 248) % 2 ^ 8) bytes next (omega arith) (omega arith),
          )
    ]

-- At a size of 0 or 1 the loop ends.
pub read_cells_end :
    (msg : TcMsg) (size : ℕ) (bytes : List ℕ) (ns : List AllNodes)
    → size ≤ 1
    → read_cells msg size bytes ns ≡ some ns
unfolding read_cells
read_cells_end msg size [] ns h = ground arith
read_cells_end msg size (a ∷ []) ns h = ground arith
read_cells_end msg size (a ∷ b ∷ []) ns h = ground arith
read_cells_end msg size (a ∷ b ∷ c ∷ []) ns h = ground arith
read_cells_end msg size (a ∷ b ∷ c ∷ d ∷ []) ns h = ground arith
read_cells_end msg size (a ∷ b ∷ c ∷ d ∷ x ∷ []) ns h = ground arith
read_cells_end msg size (a ∷ b ∷ c ∷ d ∷ x ∷ f ∷ []) ns h = ground arith
read_cells_end msg size (a ∷ b ∷ c ∷ d ∷ x ∷ f ∷ age ∷ []) ns h = ground arith
read_cells_end msg size (a ∷ b ∷ c ∷ d ∷ x ∷ f ∷ age ∷ weight ∷ bytes) ns h = ground arith

-- One round of the loop.
pub read_cells_round :
    (msg : TcMsg) (nb : NodeNeighbors) (size : ℕ) (bytes : List ℕ) (ns next : List AllNodes)
    → nb.addr < 2 ^ 48
    → 1 < size
    → use_cell msg nb ns ≡ some next
    → read_cells msg size (mac_bytes 6 nb.addr ++ nb.entry_age ∷ nb.weight ∷ bytes) ns
      ≡ read_cells msg ((size + 248) % 2 ^ 8) bytes next
unfolding read_cells
read_cells_round msg nb size bytes ns next mac h e =
    let addr : mac_of (mac_bytes 6 nb.addr) ≡ nb.addr = mac_of-mac_bytes nb.addr mac in
    let more : leb size 1 ≡ false = ground arith in rw (more, addr, e) refl
