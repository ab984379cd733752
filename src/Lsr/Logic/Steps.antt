-- ===== src/Lsr/Logic/Steps.antt =====
-- The tables of the daemon, in whatever order its tasks and callbacks come.
use mathlib.Core.Path.{subst, sym}
use des_routing_algorithms.Common.{
  ℕ, ◌≡◌, ◌≢◌, refl, inl, inr, Bool, true, false, ◌&&◌, not, Option, none, some, [], arith,
  Option-cases, ◌==◌, if◌then◌else◌,
}
use des_routing_algorithms.Lsr.{AllNodes}
use des_routing_algorithms.Lsr.Packets.{Verdict, msg_keep, msg_drop, drop_errors, forward_packet}
use des_routing_algorithms.Lsr.Logic.{
  Globals, blocked, done, TcMsg, process_hello, send_tc, process_tc, refresh_list, refresh_rt,
  with_node, read_ext, delete_old, refresh_neighbors, refresh_nodes, route_from,
}
use des_routing_algorithms.Lsr.Logic.Near.{
  IsNear, aged-IsNear, refreshed-IsNear, process_hello-IsNear,
}
use des_routing_algorithms.Lsr.Logic.Valid.{
  IsApart, route_from-IsApart, with_node-IsApart, expire-IsApart, read_ext-IsApart,
}

pub record IsValid (defsrc : ℕ) (g : Globals) : Type 0 where
  pub nodes : IsApart defsrc g.all_nodes
  pub neighbors : IsNear g.dir_neighbors

-- The tasks and callbacks of the daemon with the address `defsrc`, where they end. A message with a
-- TC has passed `drop_errors`, for which libdessert sets a flag on a message whose source is the own
-- address. `mem` is anything that memory may hold.
pub data Call (defsrc : ℕ) (g : Globals) : Globals → Type 0 where
  hello :
      {g' : Globals} (malloc : Bool) (shost : ℕ) (v : Verdict)
      → process_hello malloc g shost true ≡ done (g', v)
      → Call defsrc g g'
  tc :
      {g' : Globals} (mem : AllNodes) (msg : TcMsg) (l2_src : Bool) (v : Verdict)
      → drop_errors l2_src (msg.ether_shost == defsrc) ≡ msg_keep
      → process_tc mem g (some msg) ≡ done (g', v)
      → Call defsrc g g'
  send :
      {g' : Globals} (intact : Bool) (msg : Option TcMsg)
      → send_tc intact defsrc g ≡ done (g', msg)
      → Call defsrc g g'
  list : {g' : Globals} (intact : Bool) → refresh_list intact g ≡ done g' → Call defsrc g g'
  rt :
      {g' : Globals} (intact differs : Bool) (mem : AllNodes)
      → refresh_rt intact differs defsrc mem g ≡ done g'
      → Call defsrc g g'

abbrev pub initial : Globals
initial = record { dir_neighbors = []; all_nodes = []; tc_seq_nr = 0; locked = false }

pub data Reach (defsrc : ℕ) : Globals → Type 0 where
  begin : Reach defsrc initial
  later : {g g' : Globals} → Reach defsrc g → Call defsrc g g' → Reach defsrc g'

tc-IsApart :
    (defsrc : ℕ) (mem : AllNodes) (g g' : Globals) (msg : TcMsg) (l2_src : Bool) (v : Verdict)
    → drop_errors l2_src (msg.ether_shost == defsrc) ≡ msg_keep
    → process_tc mem g (some msg) ≡ done (g', v)
    → IsApart defsrc g.all_nodes
    → IsApart defsrc g'.all_nodes
unfolding process_tc drop_errors
tc-IsApart defsrc mem g g' msg l2_src v passed e t =
    elim (Option-cases (read_ext msg msg.tc_ext (with_node mem msg g.all_nodes))) [
      | inl a ↦ absurd (ground (arith, a, e))
      | inr c ↦
          let (ns, a) = c in
          let same : ns ≡ g'.all_nodes = ground (arith, a, e) in
          let other : msg.ether_shost ≢ defsrc = λ own. ground (arith, passed, own) in
          subst (IsApart defsrc) same (
            read_ext-IsApart defsrc msg msg.tc_ext (with_node mem msg g.all_nodes) ns a
              (with_node-IsApart defsrc mem msg g.all_nodes other t))
    ]

rt-IsApart :
    (intact differs : Bool) (defsrc : ℕ) (mem : AllNodes) (g g' : Globals)
    → refresh_rt intact differs defsrc mem g ≡ done g'
    → IsApart defsrc g.all_nodes
    → IsApart defsrc g'.all_nodes
unfolding refresh_rt
rt-IsApart intact differs defsrc mem g g' e t =
    elim (Option-cases (refresh_nodes intact g.all_nodes)) [
      | inl a ↦ absurd (ground (arith, a, e))
      | inr c ↦
          let (ns, a) = c in
          elim (Option-cases (route_from differs defsrc mem g.dir_neighbors ns)) [
            | inl b ↦ absurd (ground (arith, a, b, e))
            | inr f ↦
                let (out, b) = f in
                let same : out ≡ g'.all_nodes = ground (arith, a, b, e) in
                subst (IsApart defsrc) same (
                  route_from-IsApart defsrc differs mem g.dir_neighbors ns out b
                    (expire-IsApart defsrc intact g.all_nodes ns a t))
          ]
    ]

send-IsNear :
    (intact : Bool) (defsrc : ℕ) (g g' : Globals) (msg : Option TcMsg)
    → send_tc intact defsrc g ≡ done (g', msg)
    → IsNear g.dir_neighbors
    → (g'.all_nodes ≡ g.all_nodes) × IsNear g'.dir_neighbors
unfolding send_tc
send-IsNear intact defsrc g g' msg e t = elim (Option-cases (delete_old intact g.dir_neighbors)) [
  | inl a ↦ ground (arith, a, e, t)
  | inr c ↦ let (ns, a) = c in ground (arith, a, e, t, aged-IsNear intact g.dir_neighbors ns a t)
]

list-IsNear :
    (intact : Bool) (g g' : Globals)
    → refresh_list intact g ≡ done g'
    → IsNear g.dir_neighbors
    → (g'.all_nodes ≡ g.all_nodes) × IsNear g'.dir_neighbors
unfolding refresh_list
list-IsNear intact g g' e t = elim (Option-cases (refresh_neighbors intact g.dir_neighbors)) [
  | inl a ↦ absurd (ground (arith, a, e))
  | inr c ↦ let (ns, a) = c in ground (arith, a, e, refreshed-IsNear intact g.dir_neighbors ns a t)
]

unmoved :
    (defsrc : ℕ) (g g' : Globals)
    → (g'.all_nodes ≡ g.all_nodes) × IsNear g'.dir_neighbors
    → IsApart defsrc g.all_nodes
    → IsValid defsrc g'
unmoved defsrc g g' (same, near) t = record {
  nodes = subst (IsApart defsrc) (sym same) t;
  neighbors = near;
}

tc-neighbors :
    (mem : AllNodes) (g g' : Globals) (msg : TcMsg) (v : Verdict)
    → process_tc mem g (some msg) ≡ done (g', v)
    → g.dir_neighbors ≡ g'.dir_neighbors
unfolding process_tc
tc-neighbors mem g g' msg v e = ground (arith, e)

rt-neighbors :
    (intact differs : Bool) (defsrc : ℕ) (mem : AllNodes) (g g' : Globals)
    → refresh_rt intact differs defsrc mem g ≡ done g'
    → g.dir_neighbors ≡ g'.dir_neighbors
unfolding refresh_rt
rt-neighbors intact differs defsrc mem g g' e = ground (arith, e)

Call-IsValid :
    (defsrc : ℕ) (g g' : Globals) → Call defsrc g g' → IsValid defsrc g → IsValid defsrc g'
Call-IsValid defsrc g g' (hello malloc shost v e) t =
    unmoved defsrc g g' (process_hello-IsNear malloc g g' shost v e t.neighbors) t.nodes
Call-IsValid defsrc g g' (tc mem msg l2_src v passed e) t = record {
  nodes = tc-IsApart defsrc mem g g' msg l2_src v passed e t.nodes;
  neighbors = subst IsNear (tc-neighbors mem g g' msg v e) t.neighbors;
}
Call-IsValid defsrc g g' (send intact msg e) t =
    unmoved defsrc g g' (send-IsNear intact defsrc g g' msg e t.neighbors) t.nodes
Call-IsValid defsrc g g' (list intact e) t =
    unmoved defsrc g g' (list-IsNear intact g g' e t.neighbors) t.nodes
Call-IsValid defsrc g g' (rt intact differs mem e) t = record {
  nodes = rt-IsApart intact differs defsrc mem g g' e t.nodes;
  neighbors = subst IsNear (rt-neighbors intact differs defsrc mem g g' e) t.neighbors;
}

-- After any tasks and callbacks that ended, in any order, and whatever memory held, where each TC
-- passed `drop_errors`: no address is twice in the table of nodes or in that of the neighbors, the
-- host itself is not among the nodes, and each neighbor has the weight 1 and an age of at most 32.
pub Reach-IsValid : (defsrc : ℕ) (g : Globals) → Reach defsrc g → IsValid defsrc g
Reach-IsValid defsrc g begin = record {
  nodes = record { unique = tt; own = refl };
  neighbors = record { unique = tt; heard = tt };
}
Reach-IsValid defsrc end (later {g} {g'} r s) =
    Call-IsValid defsrc g g' s (Reach-IsValid defsrc g r)

-- After any tasks and callbacks that ended, in any order, and whatever memory held, where each TC
-- passed `drop_errors`: `forward_packet` sends no packet of the mesh on for another host. One that was sent to this host and is not for it is dropped, as the next
-- hop is searched for the own address, which is not in the table; any other is left to the callbacks
-- that follow.
pub Reach-forward_packet :
    (defsrc : ℕ) (g : Globals)
    → Reach defsrc g
    → (l2_dhost : ℕ) (l25_dst : Bool)
    → forward_packet defsrc g.all_nodes l2_dhost l25_dst
      ≡ (none, if (defsrc == l2_dhost) && not l25_dst then msg_drop else msg_keep)
unfolding forward_packet
Reach-forward_packet defsrc g r l2_dhost l25_dst =
    ground (arith, (Reach-IsValid defsrc g r).nodes.own)

-- Once the task that sends TCs has run without a neighbor, it has the lock for good, and every
-- task and callback that takes the lock waits for ever.
pub send_tc-blocked :
    (intact : Bool) (defsrc : ℕ) (g g' : Globals) (msg : Option TcMsg)
    → g.dir_neighbors ≡ []
    → send_tc intact defsrc g ≡ done (g', msg)
    → (malloc intact' differs : Bool) (shost : ℕ) (mem : AllNodes) (told : Option TcMsg)
    → (process_hello malloc g' shost true ≡ blocked)
      × (send_tc intact' defsrc g' ≡ blocked)
      × (process_tc mem g' told ≡ blocked)
      × (refresh_list intact' g' ≡ blocked)
      × (refresh_rt intact' differs defsrc mem g' ≡ blocked)
unfolding send_tc process_hello process_tc refresh_list refresh_rt
send_tc-blocked intact defsrc g g' msg h e malloc intact' differs shost mem none =
    ground (arith, h, e)
send_tc-blocked intact defsrc g g' msg h e malloc intact' differs shost mem (some told) =
    ground (arith, h, e)
