-- ===== src/Aodv/Gossip.antt =====
-- des-aodv/trunk/src/pipeline/aodv_gossip.c: whether a RREQ is sent on, and the RREQs that are held
-- until it is known how many neighbors sent them on. `lucky` is the result of `aodv_gossip_0`, which
-- compares a random number with a setting.
pub mod Unlucky
mod Tests
use des_routing_algorithms.Common.{
  ℕ, ◌+◌, ◌*◌, ◌^◌, Bool, true, false, ◌||◌, Option, none, some, List, [], ◌∷◌, ◌++◌, leb, ◌==◌,
  if◌then◌else◌, find, delete, modify, is_pos, is_zero,
}
use des_routing_algorithms.Aodv.Helper.{comp_u32}
use des_routing_algorithms.Aodv.Timeval.{Timeval, Dessert}

-- What the functions read of a RREQ: the hosts of the Ethernet header within, the hop count, and
-- the number of the originator.
pub record RreqMsg : Type 0 where
  pub ether_shost : ℕ
  pub ether_dhost : ℕ
  pub hops : ℕ
  pub originator_sequence_number : ℕ

-- `struct hold_queue`
pub record Held : Type 0 where
  pub timeout : Timeval
  pub msg : RreqMsg
  pub quantity : ℕ

-- `hold_queue`, and how often a periodic was registered. Its handle is never stored in
-- `hold_queue_periodic`, which is NULL always.
pub record HoldQueue : Type 0 where
  pub held : List Held
  pub registered : ℕ

pub data GossipType : Type 0 where
  gossip_none gossip_type0 gossip_type1 gossip_type3 pissog_0 pissog_3 : GossipType

-- The two hosts of a message, as one number.
abbrev pub hosts : RreqMsg → ℕ
hosts m = m.ether_shost * 2 ^ 48 + m.ether_dhost

abbrev pub hosts_of : Held → ℕ
hosts_of h = hosts h.msg

abbrev pub hold_queue_search : HoldQueue → RreqMsg → Option Held
hold_queue_search q m = find hosts_of (hosts m) q.held

unfoldable pub hold_queue_drop : HoldQueue → RreqMsg → HoldQueue
hold_queue_drop q m = elim (hold_queue_search q m) [
  | none ↦ q
  | some _ ↦ record q { held = delete hosts_of (hosts m) q.held }
]

unfoldable pub gossip_capt_rreq : HoldQueue → RreqMsg → HoldQueue
gossip_capt_rreq q m = elim (hold_queue_search q m) [
  | none ↦ q
  | some el ↦
      let cmp_result = comp_u32 el.msg.originator_sequence_number m.originator_sequence_number in
      if is_pos cmp_result
      then record q { held = delete hosts_of (hosts m) q.held }
      else if is_zero cmp_result
      then record q {
        held = modify hosts_of (hosts m) (λ h. record h { quantity = h.quantity + 1 }) q.held;
      }
      else q
]

module _ ⦃d : Dessert⦄ where
  -- The loop of `aodv_gossip_3`: what is left of the queue, and what is sent.
  unfoldable pub flush : Timeval → List Held → List Held × List RreqMsg
  flush scheduled [] = ([], [])
  flush scheduled (head ∷ rest) =
      let (rest', sent) = flush scheduled rest in
      if is_pos (d.timevalcmp head.timeout scheduled)
      then (head ∷ rest, [])
      else if leb 2 head.quantity
      then (rest', sent)
      else (rest', head.msg ∷ sent)

  unfoldable pub gossip_3 : Timeval → HoldQueue → HoldQueue × List RreqMsg
  gossip_3 scheduled q =
      let (held', sent) = flush scheduled q.held in (record q { held = held' }, sent)

-- The message is cloned to the `msg` of the element that was found. Where none was found, the new
-- element is the `el` of the inner block, and the address is that of a field of NULL: the program
-- ends, as `none`.
unfoldable pub hold_queue_add : HoldQueue → RreqMsg → Option HoldQueue
hold_queue_add q m = elim (hold_queue_search q m) [
  | none ↦ none
  | some _ ↦ some (record {
    held = modify hosts_of (hosts m) (λ h. record h { msg = m }) q.held;
    registered = q.registered + 1;
  })
]

-- The result is `none` where the program ends: in `hold_queue_add`, or at `assert(false)`, which a
-- build with assertions meets for the two types that the command line offers and no case is for.
unfoldable pub gossip :
    GossipType → (lucky : Bool) → HoldQueue → RreqMsg → Option (HoldQueue × Bool)
gossip gossip_none lucky q m = some (q, true)
gossip gossip_type0 lucky q m = some (q, lucky)
gossip gossip_type1 lucky q m = some (q, leb m.hops 1 || lucky)
gossip gossip_type3 true q m = some (hold_queue_drop q m, true)
gossip gossip_type3 false q m = elim (hold_queue_add q m) [
  | none ↦ none
  | some q' ↦ some (q', false)
]
gossip pissog_0 lucky q m = none
gossip pissog_3 lucky q m = none
