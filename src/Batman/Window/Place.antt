-- ===== src/Batman/Window/Place.antt =====
-- The place of a number in a window that it does not lead.
use des_routing_algorithms.Common.{
  ℕ, suc, ◌^◌, ◌≤◌, ◌<◌, ◌≡◌, true, ◌||◌, Option, none, some, List, [], ◌∷◌, arith, ◌==◌, length,
  Option-cases, inl, inr,
}
use des_routing_algorithms.Batman.Window.{place}
use des_routing_algorithms.Batman.Window.Compare.{behind, hf_seq_comp_i_j-behind, behind-inj}
use des_routing_algorithms.Batman.Window.Chain.{Chain, has}

-- The number is in the window afterwards, and everything else as before; `none` if it was there.
abbrev pub IsPlaced : (h bound lo s k : ℕ) → List ℕ → Option (List ℕ) → Type 0
IsPlaced h bound lo s k xs none = has s xs ≡ true
IsPlaced h bound lo s k xs (some out) =
    Chain h bound lo out × (length out ≡ suc (length xs)) × (has k out ≡ ((s == k) || has k xs))

pub place-IsPlaced :
    (h bound lo s k : ℕ) (xs : List ℕ)
    → h < 2 ^ 16
    → s < 2 ^ 16
    → bound ≤ 2 ^ 8
    → lo ≤ behind h s
    → behind h s < bound
    → Chain h bound lo xs
    → IsPlaced h bound lo s k xs (place s xs)
unfolding place
place-IsPlaced h bound lo s k [] a b c d e f = ground (arith, b, d, e)
place-IsPlaced h bound lo s k (x ∷ []) a b c d e f =
    let order =
      hf_seq_comp_i_j-behind h x s a (ground (arith, f)) b (omega (arith, c, f))
        (omega (arith, c, e)) in
    let inj = behind-inj h x s a (ground (arith, f)) b in
    ground (arith, order, inj, a, b, c, d, e, f)
place-IsPlaced h bound lo s k (x ∷ y ∷ ys) a b c d e f =
    let order =
      hf_seq_comp_i_j-behind h x s a (ground (arith, f)) b (omega (arith, c, f))
        (omega (arith, c, e)) in
    let inj = behind-inj h x s a (ground (arith, f)) b in
    let rest = place-IsPlaced h bound (suc (behind h x)) s k (y ∷ ys) a b c in
    elim (Option-cases (place s (y ∷ ys))) [
      | inl p ↦ ground (arith, order, inj, p, rest)
      | inr q ↦ let (out, p) = q in ground (arith, order, inj, p, rest)
    ]
