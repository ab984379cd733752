-- ===== src/Batman/Window/Compare.antt =====
-- How far a number lies behind another one, on the circle of 16 bits, and what the comparison
-- says.
use des_routing_algorithms.Common.{
  ℕ, ◌+◌, ◌-◌, ◌%◌, ◌^◌, ◌≤◌, ◌<◌, ◌≡◌, true, false, arith, ltb, leb, is_neg,
}
use des_routing_algorithms.Batman.Window.{hf_seq_comp_i_j, half_seqno, beyond}

unfoldable pub behind : ℕ → ℕ → ℕ
behind h x = (h + 2 ^ 16 - x) % 2 ^ 16

pub behind-lt : (h x : ℕ) → behind h x < 2 ^ 16
unfolding behind
behind-lt h x = omega arith

pub behind_self : (h : ℕ) → behind h h ≡ 0
unfolding behind
behind_self h = omega arith

pub behind-inj :
    (h x y : ℕ) → h < 2 ^ 16 → x < 2 ^ 16 → y < 2 ^ 16 → behind h x ≡ behind h y → x ≡ y
unfolding behind
behind-inj h x y a b c e = omega arith

pub behind_trans :
    (s h x : ℕ)
    → s < 2 ^ 16
    → h < 2 ^ 16
    → x < 2 ^ 16
    → behind s h + behind h x < 2 ^ 16
    → behind s x ≡ behind s h + behind h x
unfolding behind
behind_trans s h x a b c e = omega arith

-- A number that is behind by the size of the window or more is beyond it, up to half of the
-- circle.
pub beyond-behind :
    (ws i j : ℕ)
    → i < 2 ^ 16
    → j < 2 ^ 16
    → ws < 2 ^ 8
    → behind i j < ws + half_seqno
    → beyond ws i j ≡ leb ws (behind i j)
unfolding behind hf_seq_comp_i_j
beyond-behind ws i j a b c e = ground arith

-- The order of two numbers that lie in one window.
pub hf_seq_comp_i_j-behind :
    (h x y : ℕ)
    → h < 2 ^ 16
    → x < 2 ^ 16
    → y < 2 ^ 16
    → behind h x < 2 ^ 8
    → behind h y < 2 ^ 8
    → is_neg (hf_seq_comp_i_j x y) ≡ ltb (behind h y) (behind h x)
unfolding behind hf_seq_comp_i_j
hf_seq_comp_i_j-behind h x y a b c d e = ground arith

-- Farther behind than half of the circle is ahead.
pub beyond-ahead :
    (ws i j : ℕ)
    → i < 2 ^ 16
    → j < 2 ^ 16
    → ws < 2 ^ 8
    → ws + half_seqno ≤ behind i j
    → (beyond ws i j ≡ false) × (is_neg (hf_seq_comp_i_j i j) ≡ true)
unfolding behind hf_seq_comp_i_j
beyond-ahead ws i j a b c e = ground arith

pub behind_back :
    (i j : ℕ) → i < 2 ^ 16 → j < 2 ^ 16 → 0 < behind i j → behind j i + behind i j ≡ 2 ^ 16
unfolding behind
behind_back i j a b e = omega arith

-- The next number is behind by all of the circle but one.
pub behind_next : (h : ℕ) → h < 2 ^ 16 → behind h ((h + 1) % 2 ^ 16) ≡ 65535
unfolding behind
behind_next h a = ground arith
