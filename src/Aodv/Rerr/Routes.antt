-- ===== src/Aodv/Rerr/Routes.antt =====
-- What a RERR does to the routes.
use des_routing_algorithms.Common.{
  ℕ, ◌≡◌, refl, ◌∙◌, ◌⊎◌, inl, inr, Bool, Option, none, some, List, [], ◌∷◌, ◌==◌, arith,
  Option-cases, Bool-cases, is_pos, find-modify_by,
}
use des_routing_algorithms.Aodv.Helper.{comp_u32}
use des_routing_algorithms.Aodv.RoutingTable.Defs.{RtEntry, Rt, self_of, addr_of}
use des_routing_algorithms.Aodv.RoutingTable.Query.{getnexthop, markrouteinv, invalidate}
use des_routing_algorithms.Aodv.RoutingTable.Breaks.{LinkBreak}
use des_routing_algorithms.Aodv.RoutingTable.Purge.{entry_for}
use des_routing_algorithms.Aodv.RoutingTable.Valid.{IsValid}
use des_routing_algorithms.Aodv.RoutingTable.Routes.{write_entry-IsValid}
use des_routing_algorithms.Aodv.RoutingTable.Forwarding.{route_of}
use des_routing_algorithms.Aodv.Rerr.{Rerr}
use des_routing_algorithms.Aodv.Rerr.Receive.{
  mark_over, handle_dest, handle_dests, handle_exts, handle_rerr,
}

-- What decides whether a route is affected: its next hop, its number and whether it is unknown.
abbrev pub way_of : Option RtEntry → Option (ℕ × ℕ × Bool)
way_of none = none
way_of (some e) = some (e.next_hop, e.sequence_number, e.flags.next_hop_unknown)

-- The table stays valid, no entry is led elsewhere, and each host has the route that it had, or none.
pub record Shrinks (rt rt' : Rt) : Type 0 where
  pub valid : IsValid rt'
  pub ways : (h : ℕ) → way_of (entry_for h rt'.tables) ≡ way_of (entry_for h rt.tables)
  pub routes :
      (h : ℕ)
      → (route_of (entry_for h rt'.tables) ≡ none)
        ⊎ (route_of (entry_for h rt'.tables) ≡ route_of (entry_for h rt.tables))

same : (rt : Rt) → IsValid rt → Shrinks rt rt
same rt v = record { valid = v; ways = λ h. refl; routes = λ h. inr refl }

and_then : (rt rt1 rt2 : Rt) → Shrinks rt rt1 → Shrinks rt1 rt2 → Shrinks rt rt2
and_then rt rt1 rt2 s t = record {
  valid = t.valid;
  ways = λ h. t.ways h ∙ s.ways h;
  routes = λ h. elim (t.routes h) [
    | inl n ↦ inl n
    | inr e ↦ elim (s.routes h) [ inl n ↦ inl (e ∙ n) | inr f ↦ inr (e ∙ f) ]
  ];
}

pub markrouteinv-Shrinks :
    (rt : Rt) (host seq : ℕ) → IsValid rt → Shrinks rt (markrouteinv rt host seq).0
unfolding markrouteinv
markrouteinv-Shrinks rt host seq v = elim (Option-cases (entry_for host rt.tables)) [
  | inl k ↦ rw (k, markrouteinv) (same rt v)
  | inr (e, k) ↦ elim (Bool-cases (is_pos (comp_u32 e.sequence_number seq))) [
    | inl b ↦ rw (k, markrouteinv, b) (same rt v)
    | inr b ↦
        rw (k, markrouteinv, b)
          (record {
            valid = write_entry-IsValid invalidate (λ x. refl) (λ x. refl) e.self rt v;
            ways = λ h. ground (
              arith,
              find-modify_by addr_of self_of invalidate (λ x. refl) h e.self rt.tables.entries
                  v.sound.selves,
            );
            routes = λ h. ground (
              arith,
              find-modify_by addr_of self_of invalidate (λ x. refl) h e.self rt.tables.entries
                  v.sound.selves,
            );
          })
  ]
]

pub mark_over-Shrinks :
    (ifaces : List ℕ) (next_hop : ℕ) (dest : LinkBreak) (rt : Rt)
    → IsValid rt
    → Shrinks rt (mark_over ifaces next_hop dest rt).0
unfolding mark_over
mark_over-Shrinks [] next_hop dest rt v = same rt v
mark_over-Shrinks (i ∷ ifaces) next_hop dest rt v = elim (Bool-cases (i == next_hop)) [
  | inl b ↦
      let s = markrouteinv-Shrinks rt dest.host dest.sequence_number v in
      rw (b, mark_over) (and_then _ _ _ s (mark_over-Shrinks ifaces next_hop dest _ s.valid))
  | inr b ↦ rw (b, mark_over) (mark_over-Shrinks ifaces next_hop dest rt v)
]

pub handle_dest-Shrinks :
    (ifaces : List ℕ) (dest : LinkBreak) (rt : Rt)
    → IsValid rt
    → Shrinks rt (handle_dest ifaces dest rt).0
unfolding handle_dest
handle_dest-Shrinks ifaces dest rt v = elim (Option-cases (getnexthop rt dest.host)) [
  | inl k ↦ rw (k, handle_dest) (same rt v)
  | inr (hop, k) ↦ rw (k, handle_dest) (mark_over-Shrinks ifaces hop dest rt v)
]

pub handle_dests-Shrinks :
    (ifaces : List ℕ) (ds : List LinkBreak) (rt : Rt)
    → IsValid rt
    → Shrinks rt (handle_dests ifaces ds rt).0
unfolding handle_dests
handle_dests-Shrinks ifaces [] rt v = same rt v
handle_dests-Shrinks ifaces (x ∷ ds) rt v =
    let s = handle_dest-Shrinks ifaces x rt v in
    and_then _ _ _ s (handle_dests-Shrinks ifaces ds _ s.valid)

pub handle_exts-Shrinks :
    (ifaces : List ℕ) (exts : List (List LinkBreak)) (rt : Rt)
    → IsValid rt
    → Shrinks rt (handle_exts ifaces exts rt).0
unfolding handle_exts
handle_exts-Shrinks ifaces [] rt v = same rt v
handle_exts-Shrinks ifaces (x ∷ exts) rt v =
    let s = handle_dests-Shrinks ifaces x rt v in
    and_then _ _ _ s (handle_exts-Shrinks ifaces exts _ s.valid)

-- A RERR leaves a valid table valid, and each host has the route for packets that it had, or none:
-- no RERR makes a route or leads one elsewhere.
pub handle_rerr-Shrinks :
    (my_ifaces : List ℕ) (msg : Rerr) (rt : Rt)
    → IsValid rt
    → Shrinks rt (handle_rerr my_ifaces msg rt).0
unfolding handle_rerr
handle_rerr-Shrinks my_ifaces msg rt v = handle_exts-Shrinks msg.ifaces msg.dest_exts rt v
