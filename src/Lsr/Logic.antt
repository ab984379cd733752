-- ===== src/Lsr/Logic.antt =====
-- des-lsr/trunk/src/des-lsr_routinglogic.c: the periodic tasks and callbacks that change the
-- tables or take their lock.
pub mod Expire
pub mod Cells
pub mod Valid
pub mod Near
pub mod Steps
pub mod Routes
pub mod RoundTrip
use des_routing_algorithms.Common.{
  ℕ, zero, suc, ◌+◌, ◌*◌, ◌/◌, ◌%◌, ◌^◌, Bool, true, false, Option, none, some, List, [], ◌∷◌, ◌++◌,
  leb, ltb, ◌==◌, if◌then◌else◌, find, delete, modify, length,
}
use des_routing_algorithms.Lsr.{NodeNeighbors, AllNodes, addr_of, neighbor_of}
use des_routing_algorithms.Lsr.Dijkstra.{shortest_path}
use des_routing_algorithms.Lsr.Packets.{Verdict, msg_keep, msg_drop}

-- The globals; `locked` says that `pp_rwlock` is held.
pub record Globals : Type 0 where
  pub dir_neighbors : List NodeNeighbors
  pub all_nodes : List AllNodes
  pub tc_seq_nr : ℕ
  pub locked : Bool

-- How a call ends: with a result, never as it waits for the lock, or with an access outside of the
-- memory that is given for it.
pub data Outcome {ℓ} (A : Type ℓ) : Type ℓ where
  blocked fault : Outcome A
  done : A → Outcome A

-- A message with the extension LSR_EXT_TC: its field `u8`, its source, and the bytes from the
-- start of the extension's data on.
pub record TcMsg : Type 0 where
  pub u8 : ℕ
  pub ether_shost : ℕ
  pub tc_ext : List ℕ

-- NH_ENTRY_AGE and RT_ENTRY_AGE
abbrev pub nh_entry_age : ℕ
nh_entry_age = 32

abbrev pub rt_entry_age : ℕ
rt_entry_age = 32

-- `entry_age--` of an 8-bit field.
abbrev pub decremented : ℕ → ℕ
decremented age = (age + 255) % 2 ^ 8

-- A message without the extension LSR_EXT_HELLO is kept. `malloc` says whether there is memory for
-- an entry, which is not checked.
unfoldable pub process_hello :
    (malloc : Bool) → Globals → (ether_shost : ℕ) (has_ext : Bool) → Outcome (Globals × Verdict)
process_hello malloc g ether_shost false = done (g, msg_keep)
process_hello malloc g ether_shost true =
    if g.locked then blocked else elim (find neighbor_of ether_shost g.dir_neighbors) [
      | some _ ↦ done (
        record g {
          dir_neighbors =
              modify neighbor_of ether_shost (λ n. record n { entry_age = nh_entry_age })
                g.dir_neighbors;
        },
        msg_drop,
      )
      | none ↦
          let neighbor : NodeNeighbors = record {
            addr = ether_shost;
            entry_age = nh_entry_age;
            weight = 1;
          } in
          if malloc
          then done (record g { dir_neighbors = g.dir_neighbors ++ neighbor ∷ [] }, msg_drop)
          else fault
    ]

-- The loops that delete old entries. An entry is freed before its link to the next is read;
-- `intact` says whether freed memory holds what it held. Another entry gets what `write` makes of
-- it.
unfoldable pub expire {ℓ} :
    {A : Type ℓ} (age : A → ℕ) (write : A → A) (intact : Bool) → List A → Option (List A)
expire age write intact [] = some []
expire age write intact (x ∷ xs) =
    let rest = expire age write intact xs in
    if age x == 0
    then if intact then rest else none
    else elim rest [ none ↦ none | some xs' ↦ some (write x ∷ xs') ]

abbrev pub neighbor_age : NodeNeighbors → ℕ
neighbor_age n = n.entry_age

abbrev pub node_age : AllNodes → ℕ
node_age n = n.entry_age

abbrev pub age_neighbor : NodeNeighbors → NodeNeighbors
age_neighbor n = record n { entry_age = decremented n.entry_age }

abbrev pub refresh_neighbor : NodeNeighbors → NodeNeighbors
refresh_neighbor n = record n { entry_age = decremented n.entry_age; weight = 1 }

abbrev pub age_node : AllNodes → AllNodes
age_node n = record n { entry_age = decremented n.entry_age }

-- In `send_tc`.
abbrev pub delete_old : (intact : Bool) → List NodeNeighbors → Option (List NodeNeighbors)
delete_old intact ns = expire neighbor_age age_neighbor intact ns

-- In `refresh_list`.
abbrev pub refresh_neighbors : (intact : Bool) → List NodeNeighbors → Option (List NodeNeighbors)
refresh_neighbors intact ns = expire neighbor_age refresh_neighbor intact ns

unfoldable pub refresh_list : (intact : Bool) → Globals → Outcome Globals
refresh_list intact g =
    if g.locked then blocked else elim (refresh_neighbors intact g.dir_neighbors) [
      | none ↦ fault
      | some ns ↦ done (record g { dir_neighbors = ns })
    ]

-- The first loop of `refresh_rt`.
abbrev pub refresh_nodes : (intact : Bool) → List AllNodes → Option (List AllNodes)
refresh_nodes intact ns = expire node_age age_node intact ns

-- The part of `refresh_rt` on Dijkstra's algorithm. `mem` is what the memory that is allocated for
-- the own entry holds.
unfoldable pub route_from :
    (differs : Bool) (defsrc : ℕ) (mem : AllNodes)
    → List NodeNeighbors
    → List AllNodes
    → Option (List AllNodes)
route_from differs defsrc mem dir_neighbors [] = some []
route_from differs defsrc mem dir_neighbors (n ∷ ns) =
    let self : AllNodes = record mem {
      addr = defsrc;
      entry_age = rt_entry_age;
      neighbors = some dir_neighbors;
    } in
    elim (shortest_path differs defsrc ((n ∷ ns) ++ self ∷ [])) [
      | none ↦ none
      | some nodes ↦ some (delete addr_of defsrc nodes)
    ]

unfoldable pub refresh_rt :
    (intact differs : Bool) (defsrc : ℕ) (mem : AllNodes) → Globals → Outcome Globals
refresh_rt intact differs defsrc mem g =
    if g.locked then blocked else elim (refresh_nodes intact g.all_nodes) [
      | none ↦ fault
      | some nodes ↦ elim (route_from differs defsrc mem g.dir_neighbors nodes) [
        | none ↦ fault
        | some nodes' ↦ done (record g { all_nodes = nodes' })
      ]
    ]

-- The bytes of an address, of which its number is made.
abbrev pub mac_bytes : ℕ → ℕ → List ℕ
mac_bytes zero a = []
mac_bytes (suc n) a = a % 2 ^ 8 ∷ mac_bytes n (a / 2 ^ 8)

abbrev pub mac_of : List ℕ → ℕ
mac_of [] = 0
mac_of (b ∷ bs) = b + mac_of bs * 2 ^ 8

-- The table of neighbors as `send_tc` copies it into the extension.
unfoldable pub copy_neighbors : List NodeNeighbors → List ℕ
copy_neighbors [] = []
copy_neighbors (n ∷ ns) = mac_bytes 6 n.addr ++ n.entry_age ∷ n.weight ∷ copy_neighbors ns

abbrev pub size_of : List NodeNeighbors → ℕ
size_of ns = (1 + 8 * length ns) % 2 ^ 8

-- With a size that does not fit in 8 bits the copy goes past the end of the extension.
unfoldable pub send_tc : (intact : Bool) (defsrc : ℕ) → Globals → Outcome (Globals × Option TcMsg)
send_tc intact defsrc g =
    if g.locked
    then blocked
    else if length g.dir_neighbors == 0
    then done (record g { locked = true }, none)
    else elim (delete_old intact g.dir_neighbors) [
      | none ↦ fault
      | some ns ↦
          let seq = (g.tc_seq_nr + 1) % 2 ^ 16 in
          let tc : TcMsg = record {
            u8 = seq % 2 ^ 8;
            ether_shost = defsrc;
            tc_ext = size_of ns ∷ copy_neighbors ns;
          } in
          if ltb (size_of ns) (1 + 8 * length ns)
          then fault
          else done (record g { dir_neighbors = ns; tc_seq_nr = seq }, some tc)
    ]

-- An entry of a TC is put into the table of the node that sent it.
unfoldable pub add_neighbor :
    NodeNeighbors → Option (List NodeNeighbors) → Option (List NodeNeighbors)
add_neighbor nb none = none
add_neighbor nb (some neighbors) = elim (find neighbor_of nb.addr neighbors) [
  | some _ ↦ some (
      modify neighbor_of nb.addr (λ n. record n { entry_age = nb.entry_age; weight = nb.weight })
        neighbors)
  | none ↦ some (neighbors ++ nb ∷ [])
]

-- The body of the loop of `process_tc`, after an entry was read.
unfoldable pub use_cell : TcMsg → NodeNeighbors → List AllNodes → Option (List AllNodes)
use_cell msg nb nodes = elim (find addr_of msg.ether_shost nodes) [
  | none ↦ some nodes
  | some node ↦
      if leb node.seq_nr msg.u8
      then elim (add_neighbor nb node.neighbors) [
        | none ↦ none
        | some neighbors' ↦ some (
            modify addr_of msg.ether_shost
              (λ n. record n {
                entry_age = rt_entry_age;
                seq_nr = msg.u8;
                neighbors = some neighbors';
              })
              nodes)
      ]
      else some nodes
]

-- The loop of `process_tc`. An entry is of 8 bytes, which are subtracted from the 8-bit size; at
-- the end of the memory the result is `none`.
unfoldable pub read_cells : TcMsg → ℕ → List ℕ → List AllNodes → Option (List AllNodes)
read_cells msg ext_size (a ∷ b ∷ c ∷ d ∷ e ∷ f ∷ age ∷ weight ∷ bytes) nodes =
    let nb : NodeNeighbors = record {
      addr = mac_of (a ∷ b ∷ c ∷ d ∷ e ∷ f ∷ []);
      entry_age = age;
      weight = weight;
    } in
    if leb ext_size 1 then some nodes else elim (use_cell msg nb nodes) [
      | none ↦ none
      | some nodes' ↦ read_cells msg ((ext_size + 248) % 2 ^ 8) bytes nodes'
    ]
read_cells msg ext_size bytes nodes = if leb ext_size 1 then some nodes else none

-- The node that sent the TC is in the table afterwards. `mem` is what the memory that is allocated
-- for an entry holds.
abbrev pub with_node : (mem : AllNodes) → TcMsg → List AllNodes → List AllNodes
with_node mem msg nodes = elim (find addr_of msg.ether_shost nodes) [
  | some _ ↦ nodes
  | none ↦
      let node : AllNodes = record mem {
        addr = msg.ether_shost;
        entry_age = rt_entry_age;
        seq_nr = msg.u8;
      } in
      nodes ++ node ∷ []
]

abbrev pub read_ext : TcMsg → List ℕ → List AllNodes → Option (List AllNodes)
read_ext msg [] nodes = none
read_ext msg (ext_size ∷ bytes) nodes = read_cells msg ext_size bytes nodes

-- `none` is a message without the extension LSR_EXT_TC. With it the message is sent on.
unfoldable pub process_tc : (mem : AllNodes) → Globals → Option TcMsg → Outcome (Globals × Verdict)
process_tc mem g none = if g.locked then blocked else done (g, msg_keep)
process_tc mem g (some msg) =
    if g.locked then blocked else elim (read_ext msg msg.tc_ext (with_node mem msg g.all_nodes)) [
      | none ↦ fault
      | some nodes ↦ done (record g { all_nodes = nodes }, msg_drop)
    ]
