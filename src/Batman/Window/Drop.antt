-- ===== src/Batman/Window/Drop.antt =====
-- Dropping what is beyond the window.
use des_routing_algorithms.Common.{
  ℕ, suc, ◌+◌, ◌^◌, ◌≤◌, ◌<◌, ◌≡◌, refl, ◌&&◌, List, [], ◌∷◌, arith, ltb, length,
}
use des_routing_algorithms.Batman.Window.{half_seqno, beyond, drop_last, drop_from_tail}
use des_routing_algorithms.Batman.Window.Compare.{behind, beyond-behind}
use des_routing_algorithms.Batman.Window.Chain.{Chain, has}

-- Exactly the numbers within the window are left, in their order, and the others are counted.
pub record IsDropped (h ws lo : ℕ) (xs left : List ℕ) (freed : ℕ) : Type 0 where
  pub chain : Chain h ws lo left
  pub counted : length left + freed ≡ length xs
  pub inside : (k : ℕ) → has k left ≡ (has k xs && ltb (behind h k) ws)

drop_last-IsDropped :
    (h ws bound lo x : ℕ) (xs left : List ℕ) (freed : ℕ)
    → h < 2 ^ 16
    → ws < 2 ^ 8
    → bound ≤ ws + half_seqno
    → Chain h bound lo (x ∷ xs)
    → IsDropped h ws (suc (behind h x)) xs left freed
    → IsDropped h ws lo
        (x ∷ xs)
        (drop_last (beyond ws h x) x (left, freed)).0
        (drop_last (beyond ws h x) x (left, freed)).1
drop_last-IsDropped h ws bound lo x xs [] freed a b c d r =
    let gone = beyond-behind ws h x a (ground (arith, d)) b (omega (arith, c, d)) in
    record {
      chain = ground (arith, gone, d);
      counted = ground (arith, gone, r.counted);
      inside = λ k. ground (arith, gone, r.inside k);
    }
drop_last-IsDropped h ws bound lo x xs (y ∷ ys) freed a b c d r = record {
  chain = ground (arith, d, r.chain);
  counted = ground (arith, r.counted);
  inside = λ k. ground (arith, r.inside k, r.chain);
}

pub drop_from_tail-IsDropped :
    (h ws bound lo : ℕ) (xs : List ℕ)
    → h < 2 ^ 16
    → ws < 2 ^ 8
    → bound ≤ ws + half_seqno
    → Chain h bound lo xs
    → IsDropped h ws lo xs (drop_from_tail ws h xs).0 (drop_from_tail ws h xs).1
unfolding drop_from_tail
drop_from_tail-IsDropped h ws bound lo [] a b c d = record {
  chain = tt;
  counted = refl;
  inside = λ k. refl;
}
drop_from_tail-IsDropped h ws bound lo (x ∷ xs) a b c d =
    let rest =
      drop_from_tail-IsDropped h ws bound (suc (behind h x)) xs a b c (ground (arith, d)) in
    drop_last-IsDropped h ws bound lo x xs (drop_from_tail ws h xs).0 (drop_from_tail ws h xs).1 a b
      c d rest
