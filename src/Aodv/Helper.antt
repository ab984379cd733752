-- ===== src/Aodv/Helper.antt =====
-- des-aodv/trunk/src/helper.c and helper.h: comparisons of sequence numbers and metrics, the
-- weight of a signal strength, and addresses as numbers.
pub mod Compare
mod Tests
use des_routing_algorithms.Common.{
  ℕ, ◌+◌, ◌*◌, ◌-◌, ◌%◌, ◌^◌, ltb, ◌==◌, if◌then◌else◌, ℤ, pos, negsuc, sub_ℕ, is_zero, Bool, true,
}

-- UINT32_MAX >> 1
abbrev pub half_range : ℕ
half_range = 2 ^ 31 - 1

-- `uint32_t diff = i - j`
abbrev pub sub32 : ℕ → ℕ → ℕ
sub32 i j = (i + 2 ^ 32 - j) % 2 ^ 32

unfoldable pub comp_u32 : ℕ → ℕ → ℤ
comp_u32 i j = if i == j then pos 0 else if ltb (sub32 i j) half_range then pos 1 else negsuc 0

-- `aodv_metric_t`; `other` is any further value of the enumeration's type.
pub data MetricType : Type 0 where
  rfc hop_count rssi etx_add etx_mul pdr other : MetricType

unfoldable pub comp_metric : MetricType → ℕ → ℕ → ℤ
comp_metric etx_mul i j = sub_ℕ i j
comp_metric pdr i j = sub_ℕ i j
comp_metric _ i j = sub_ℕ j i

-- `rssi > -n` for a positive n.
abbrev above_neg : ℤ → ℕ → Bool
above_neg (pos m) n = true
above_neg (negsuc m) n = ltb (m + 1) n

unfoldable pub rssi2interval : ℤ → ℕ
rssi2interval level =
    if is_zero level
    then 8
    else if above_neg level 40
    then 1
    else if above_neg level 60
    then 2
    else if above_neg level 70
    then 4
    else 8

-- `mac_addr`, the six bytes of an address.
pub record MacAddr : Type 0 where
  pub b0 : ℕ
  pub b1 : ℕ
  pub b2 : ℕ
  pub b3 : ℕ
  pub b4 : ℕ
  pub b5 : ℕ

-- `result <<= 8; result += addr[i]` on a uint64_t
abbrev shift_in : ℕ → ℕ → ℕ
shift_in result byte = (result * 2 ^ 8 % 2 ^ 64 + byte) % 2 ^ 64

unfoldable pub mac_addr_to_uint64 : MacAddr → ℕ
mac_addr_to_uint64 a =
    shift_in (shift_in (shift_in (shift_in (shift_in a.b5 a.b4) a.b3) a.b2) a.b1) a.b0
