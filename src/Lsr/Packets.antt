-- ===== src/Lsr/Packets.antt =====
-- des-lsr/trunk/src/des-lsr_packethandler.c, and the callbacks of des-lsr_routinglogic.c that
-- change no table. The flags that libdessert sets on a message are arguments.
use des_routing_algorithms.Common.{
  ℕ, Bool, ◌&&◌, ◌||◌, not, Option, none, some, List, ◌==◌, if◌then◌else◌,
}
use des_routing_algorithms.Lsr.{AllNodes, ether_broadcast}
use des_routing_algorithms.Lsr.Dijkstra.{find_addr}

-- DESSERT_MSG_KEEP and DESSERT_MSG_DROP
pub data Verdict : Type 0 where
  msg_keep msg_drop : Verdict

-- The next hop of an entry that has one.
abbrev pub hop_of : Option AllNodes → Option ℕ
hop_of none = none
hop_of (some node) = if node.next_hop == ether_broadcast then none else some node.next_hop

-- The neighbor that a packet of the own system for `ether_dhost` is sent to.
unfoldable pub sys_to_mesh : List AllNodes → ℕ → Option ℕ × Verdict
sys_to_mesh all_nodes ether_dhost = (hop_of (find_addr ether_dhost all_nodes), msg_drop)

-- Whether a packet is handed to the own system.
unfoldable pub mesh_to_sys :
    (l25_dst l25_overheard l25_broadcast l25_multicast : Bool) → Bool × Verdict
mesh_to_sys l25_dst l25_overheard l25_broadcast l25_multicast =
    ((l25_dst && not l25_overheard) || l25_broadcast || l25_multicast, msg_drop)

unfoldable pub drop_errors : (l2_src l25_src : Bool) → Verdict
drop_errors l2_src l25_src = if l2_src || l25_src then msg_drop else msg_keep

-- The neighbor that a packet of the mesh is sent to. `l2_dhost` is the address of the header for
-- the link.
unfoldable pub forward_packet :
    (defsrc : ℕ) → List AllNodes → (l2_dhost : ℕ) (l25_dst : Bool) → Option ℕ × Verdict
forward_packet defsrc all_nodes l2_dhost l25_dst =
    if (defsrc == l2_dhost) && not l25_dst
    then (hop_of (find_addr l2_dhost all_nodes), msg_drop)
    else (none, msg_keep)
