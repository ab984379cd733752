-- ===== src/Aodv/Timeval.antt =====
-- `struct timeval`, and libdessert's functions on it, of which the daemon has only the
-- declarations: they are the fields of `Dessert`, beside what their documentation says.
pub mod Clock
use des_routing_algorithms.Common.{ℕ, ◌+◌, ◌*◌, ◌/◌, ◌%◌, ◌≡◌, ℤ, is_pos, is_neg, ltb}

pub record Timeval : Type 0 where
  pub tv_sec : ℕ
  pub tv_usec : ℕ

abbrev pub micros : Timeval → ℕ
micros t = t.tv_sec * 1000000 + t.tv_usec

pub record Dessert : Type 0 where
  pub timevalcmp : Timeval → Timeval → ℤ
  pub timevaladd2 : Timeval → Timeval → Timeval
  pub timevaladd : Timeval → ℕ → ℕ → Timeval
  pub ms2timeval : ℕ → Timeval
  -- The comparison is positive for a later first argument, and negative for an earlier one.
  pub cmp_pos : (a b : Timeval) → is_pos (timevalcmp a b) ≡ ltb (micros b) (micros a)
  pub cmp_neg : (a b : Timeval) → is_neg (timevalcmp a b) ≡ ltb (micros a) (micros b)
  -- The sums are sums of times.
  pub micros-add2 : (a b : Timeval) → micros (timevaladd2 a b) ≡ micros a + micros b
  pub micros-add :
      (a : Timeval) (sec usec : ℕ)
      → micros (timevaladd a sec usec) ≡ micros a + sec * 1000000 + usec
  pub micros-ms : (ms : ℕ) → micros (ms2timeval ms) ≡ ms * 1000

module _ ⦃d : Dessert⦄ where
  -- helper.h: `hf_tv_add_ms`
  unfoldable pub tv_add_ms : Timeval → ℕ → Timeval
  tv_add_ms tv ms = d.timevaladd tv (ms / 1000) (ms % 1000 * 1000)
