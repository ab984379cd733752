-- ===== src/Aodv/Helper/Compare.antt =====
-- What the comparisons of helper.c promise.
use des_routing_algorithms.Common.{
  ℕ, ◌+◌, ◌*◌, ◌%◌, ◌^◌, ◌≤◌, ◌<◌, ◌≡◌, ◌↔◌, pos, negsuc, is_neg, is_pos, true, arith,
}
use des_routing_algorithms.Aodv.Helper.{
  comp_u32, sub32, half_range, MetricType, rfc, comp_metric, MacAddr, mac_addr_to_uint64,
}

-- The comparison of 32-bit numbers is zero exactly for equal numbers.
pub comp_u32_zero : (i j : ℕ) → i < 2 ^ 32 → j < 2 ^ 32 → (comp_u32 i j ≡ pos 0) ↔ (i ≡ j)
unfolding comp_u32
comp_u32_zero i j hi hj = ground arith

-- A 32-bit number that is ahead by less than UINT32_MAX >> 1 compares greater, also across the
-- wrap-around, and in the other order it compares less.
pub comp_u32_ahead :
    (j d : ℕ)
    → j < 2 ^ 32
    → 0 < d
    → d < half_range
    → (comp_u32 ((j + d) % 2 ^ 32) j ≡ pos 1) × (comp_u32 j ((j + d) % 2 ^ 32) ≡ negsuc 0)
unfolding comp_u32
comp_u32_ahead j d hj h k = ground arith

-- For 32-bit numbers both orders answer "behind" exactly when the numbers are UINT32_MAX / 2,
-- one more or two more apart: at these distances neither number counts as newer.
pub comp_u32_blind :
    (i j : ℕ)
    → i < 2 ^ 32
    → j < 2 ^ 32
    → ((comp_u32 i j ≡ negsuc 0) × (comp_u32 j i ≡ negsuc 0))
      ↔ ((half_range ≤ sub32 i j) × (sub32 i j ≤ half_range + 2))
unfolding comp_u32
comp_u32_blind i j hi hj = (λ h. ground arith, λ h. ground arith)

-- A metric compares better in one order exactly if it compares worse in the other, and metrics
-- compare equal exactly if they are.
pub comp_metric_lem :
    (t : MetricType) (i j : ℕ)
    → ((is_pos (comp_metric t i j) ≡ true) ↔ (is_neg (comp_metric t j i) ≡ true))
      × ((comp_metric t i j ≡ pos 0) ↔ (i ≡ j))
unfolding comp_metric
comp_metric_lem rfc i j = ground arith
comp_metric_lem _ i j = ground arith

-- The bytes of an address are bytes.
pub record IsMac (a : MacAddr) : Type 0 where
  pub b0 : a.b0 < 2 ^ 8
  pub b1 : a.b1 < 2 ^ 8
  pub b2 : a.b2 < 2 ^ 8
  pub b3 : a.b3 < 2 ^ 8
  pub b4 : a.b4 < 2 ^ 8
  pub b5 : a.b5 < 2 ^ 8

mac_addr_value :
    (a : MacAddr)
    → IsMac a
    → mac_addr_to_uint64 a
      ≡ a.b0 + 2 ^ 8 * (a.b1 + 2 ^ 8 * (a.b2 + 2 ^ 8 * (a.b3 + 2 ^ 8 * (a.b4 + 2 ^ 8 * a.b5))))
unfolding mac_addr_to_uint64
mac_addr_value a v = omega arith

-- Each number fits in 48 bits.
pub mac_addr_to_uint64-lt : (a : MacAddr) → IsMac a → mac_addr_to_uint64 a < 2 ^ 48
mac_addr_to_uint64-lt a v = omega (arith, mac_addr_value a v)

-- Addresses of six bytes that become the same number are the same address.
pub mac_addr_to_uint64-injective :
    (a b : MacAddr) → IsMac a → IsMac b → mac_addr_to_uint64 a ≡ mac_addr_to_uint64 b → a ≡ b
mac_addr_to_uint64-injective a b va vb h = ground (arith, mac_addr_value a va, mac_addr_value b vb)
