-- ===== src/Aodv/Rerr/Affected.antt =====
-- The routes that a RERR is about.
use des_routing_algorithms.Common.{
  ℕ, ◌≡◌, ◌≢◌, refl, ◌∙◌, ◌⊎◌, inl, inr, Bool, true, false, none, some, List, [], ◌∷◌, ◌==◌, arith,
  Option-cases, Bool-cases, is_pos, find-modify_by, ==_refl,
}
use des_routing_algorithms.Aodv.Helper.{comp_u32}
use des_routing_algorithms.Aodv.RoutingTable.Defs.{Rt, self_of, addr_of}
use des_routing_algorithms.Aodv.RoutingTable.Query.{getnexthop, markrouteinv, invalidate}
use des_routing_algorithms.Aodv.RoutingTable.Breaks.{LinkBreak}
use des_routing_algorithms.Aodv.RoutingTable.Purge.{entry_for}
use des_routing_algorithms.Aodv.RoutingTable.Valid.{IsValid}
use des_routing_algorithms.Aodv.RoutingTable.Forwarding.{route_of}
use des_routing_algorithms.Aodv.Rerr.{Rerr}
use des_routing_algorithms.Aodv.Rerr.Receive.{
  mark_over, handle_dest, handle_dests, handle_exts, handle_rerr,
}
use des_routing_algorithms.Aodv.Rerr.Routes.{
  way_of, Shrinks, markrouteinv-Shrinks, mark_over-Shrinks, handle_dest-Shrinks,
  handle_dests-Shrinks, handle_exts-Shrinks,
}

-- A route that was taken away is not brought back.
stays_none :
    (rt rt' : Rt) (h : ℕ)
    → Shrinks rt rt'
    → route_of (entry_for h rt.tables) ≡ none
    → route_of (entry_for h rt'.tables) ≡ none
stays_none rt rt' h s n = elim (s.routes h) [ inl m ↦ m | inr e ↦ e ∙ n ]

abbrev pub Has : {A : Type 0} → A → List A → Type 0
Has x [] = ⊥
Has x (y ∷ ys) = (y ≡ x) ⊎ Has x ys

-- The destination is in one of the extensions.
abbrev pub Lists : LinkBreak → List (List LinkBreak) → Type 0
Lists dest [] = ⊥
Lists dest (ds ∷ exts) = Has dest ds ⊎ Lists dest exts

module _ (dest : LinkBreak) (hop seq : ℕ)
    (behind : is_pos (comp_u32 seq dest.sequence_number) ≡ false) where
  -- The route to the destination has this next hop and this number.
  abbrev Over : Rt → Type 0
  Over rt = way_of (entry_for dest.host rt.tables) ≡ some (hop, seq, false)

  -- The route is gone, and the step says so.
  abbrev Gone : Rt × Bool → Type 0
  Gone (rt, marked) = (marked ≡ true) × (route_of (entry_for dest.host rt.tables) ≡ none)

  markrouteinv-Gone :
      (rt : Rt) → IsValid rt → Over rt → Gone (markrouteinv rt dest.host dest.sequence_number)
  unfolding markrouteinv
  markrouteinv-Gone rt v o = elim (Option-cases (entry_for dest.host rt.tables)) [
    | inl k ↦ absurd (ground (arith, k))
    | inr (e, k) ↦
        let b : is_pos (comp_u32 e.sequence_number dest.sequence_number) ≡ false = ground arith in
        rw (k, markrouteinv, b)
          (
            refl,
            ground (
              arith,
              find-modify_by addr_of self_of invalidate (λ x. refl) dest.host e.self
                  rt.tables.entries v.sound.selves,
              ==_refl e.self,
            ),
          )
  ]

  mark_over-Gone :
      (ifaces : List ℕ) (rt : Rt)
      → IsValid rt
      → Over rt
      → Has hop ifaces
      → Gone (mark_over ifaces hop dest rt)
  unfolding mark_over
  mark_over-Gone [] rt v o h = absurd h
  mark_over-Gone (i ∷ ifaces) rt v o h = elim (Bool-cases (i == hop)) [
    | inl b ↦
        let first = markrouteinv rt dest.host dest.sequence_number in
        let gone : Gone first = markrouteinv-Gone rt v o in
        let s = markrouteinv-Shrinks rt dest.host dest.sequence_number v in
        rw (b, mark_over)
          (
            rw gone.0 refl,
            stays_none first.0 (mark_over ifaces hop dest first.0).0 dest.host
                (mark_over-Shrinks ifaces hop dest first.0 s.valid) gone.1,
          )
    | inr b ↦
        rw (b, mark_over)
          (mark_over-Gone ifaces rt v o (elim h [ inl e ↦ absurd (ground (arith, e)) | inr k ↦ k ]))
  ]

  handle_dest-Gone :
      (ifaces : List ℕ) (rt : Rt)
      → IsValid rt
      → Over rt
      → Has hop ifaces
      → Gone (handle_dest ifaces dest rt)
  unfolding handle_dest getnexthop
  handle_dest-Gone ifaces rt v o h =
      let next : getnexthop rt dest.host ≡ some hop = ground arith in
      rw (next, handle_dest) (mark_over-Gone ifaces rt v o h)

  handle_dests-Gone :
      (ifaces : List ℕ) (ds : List LinkBreak) (rt : Rt)
      → IsValid rt
      → Over rt
      → Has hop ifaces
      → Has dest ds
      → Gone (handle_dests ifaces ds rt)
  unfolding handle_dests
  handle_dests-Gone ifaces [] rt v o h k = absurd k
  handle_dests-Gone ifaces (x ∷ ds) rt v o h k =
      let first = handle_dest ifaces x rt in
      let s = handle_dest-Shrinks ifaces x rt v in
      elim k [
        | inl e ↦
            let gone : Gone first = rw e (handle_dest-Gone ifaces rt v o h) in
            (
              rw gone.0 refl,
              stays_none first.0 (handle_dests ifaces ds first.0).0 dest.host
                  (handle_dests-Shrinks ifaces ds first.0 s.valid) gone.1,
            )
        | inr l ↦
            let gone = handle_dests-Gone ifaces ds first.0 s.valid (s.ways dest.host ∙ o) h l in
            (ground (arith, gone.0), gone.1)
      ]

  handle_exts-Gone :
      (ifaces : List ℕ) (exts : List (List LinkBreak)) (rt : Rt)
      → IsValid rt
      → Over rt
      → Has hop ifaces
      → Lists dest exts
      → Gone (handle_exts ifaces exts rt)
  unfolding handle_exts
  handle_exts-Gone ifaces [] rt v o h k = absurd k
  handle_exts-Gone ifaces (ds ∷ exts) rt v o h k =
      let first = handle_dests ifaces ds rt in
      let s = handle_dests-Shrinks ifaces ds rt v in
      elim k [
        | inl l ↦
            let gone : Gone first = handle_dests-Gone ifaces ds rt v o h l in
            (
              rw gone.0 refl,
              stays_none first.0 (handle_exts ifaces exts first.0).0 dest.host
                  (handle_exts-Shrinks ifaces exts first.0 s.valid) gone.1,
            )
        | inr l ↦
            let gone = handle_exts-Gone ifaces exts first.0 s.valid (s.ways dest.host ∙ o) h l in
            (ground (arith, gone.0), gone.1)
      ]

-- A RERR that lists a destination whose route in a valid table leads over one of the interfaces of
-- the RERR, with a number that is not ahead of the listed one, leaves no route for packets to that
-- destination and is sent on.
pub handle_rerr-Gone :
    (my_ifaces : List ℕ) (msg : Rerr) (rt : Rt) (dest : LinkBreak) (hop seq : ℕ)
    → is_pos (comp_u32 seq dest.sequence_number) ≡ false
    → IsValid rt
    → way_of (entry_for dest.host rt.tables) ≡ some (hop, seq, false)
    → Has hop msg.ifaces
    → Lists dest msg.dest_exts
    → let (rt', resent) = handle_rerr my_ifaces msg rt in
      (route_of (entry_for dest.host rt'.tables) ≡ none) × (resent ≢ none)
unfolding handle_rerr
handle_rerr-Gone my_ifaces msg rt dest hop seq behind v o h l =
    let gone = handle_exts-Gone dest hop seq behind msg.ifaces msg.dest_exts rt v o h l in
    (gone.1, rw gone.0 (λ e. cc))
