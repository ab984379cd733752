-- ===== src/Aodv/Timeslot/Purge.antt =====
-- What a purge takes out, and in which order.
use native.Mathlib.Decide.{dec_lt}
use des_routing_algorithms.Common.{
  ℕ, ◌+◌, ◌-◌, ◌^◌, ◌≤◌, ◌<◌, ◌≡◌, refl, List, [], ◌∷◌, arith, length, All,
}
use des_routing_algorithms.Aodv.Timeval.{Timeval, Dessert, micros}
use des_routing_algorithms.Aodv.Timeslot.{TsElement, purge_loop, purge_tail}
use des_routing_algorithms.Aodv.Timeslot.Order.{time_of, Desc, live, expired, live_none}

pub length-live-expired :
    (now : ℕ) (es : List TsElement) → length (live now es) + length (expired now es) ≡ length es
length-live-expired now [] = refl
length-live-expired now (e ∷ es) = ground (arith, length-live-expired now es)

module _ {ℓ} ⦃d : Dessert⦄ {S : Type ℓ} (purger : Timeval → ℕ → S → S) where
  -- The purger's calls for these elements, the last of the list first.
  abbrev pub purge_all : S → List TsElement → S
  purge_all s [] = s
  purge_all s (e ∷ es) = purger e.purge_time e.object (purge_all s es)

  -- One round after the elements behind `e` were treated.
  purge_tail_lem :
      (now : Timeval) (e : TsElement) (es : List TsElement) (size : ℕ) (s : S)
      → All (λ f. time_of f ≤ time_of e) es
      → length (expired (micros now) es) + 1 ≤ size
      → size < 2 ^ 32
      → purge_tail purger now e
          (live (micros now) es)
          (size - length (expired (micros now) es))
          (purge_all s (expired (micros now) es))
        ≡ (
          live (micros now) (e ∷ es),
          size - length (expired (micros now) (e ∷ es)),
          purge_all s (expired (micros now) (e ∷ es)),
        )
  unfolding purge_tail
  purge_tail_lem now e es size s k h b = elim (dec_lt (micros now) (time_of e)) [
    | yes p ↦ ground (arith, d.cmp_pos e.purge_time now)
    | no p ↦
        ground
          (arith, d.cmp_pos e.purge_time now, live_none (micros now) (time_of e) es (omega arith) k)
  ]

  -- The loop removes the elements that have expired, calls the purger for each of them from the
  -- earliest to the latest, and keeps the others.
  pub purge_loop_lem :
      (now : Timeval) (es : List TsElement) (size : ℕ) (s : S)
      → Desc es
      → length es ≤ size
      → size < 2 ^ 32
      → purge_loop purger now es size s ≡ (
        live (micros now) es,
        size - length (expired (micros now) es),
        purge_all s (expired (micros now) es),
      )
  unfolding purge_loop
  purge_loop_lem now [] size s k h b = ground arith
  purge_loop_lem now (e ∷ es) size s k h b =
      rw (purge_loop_lem now es size s k.1 (omega arith) b)
        (purge_tail_lem now e es size s k.0 (omega (arith, length-live-expired (micros now) es)) b)
