-- ===== src/Batman/Window/Chain.antt =====
-- The numbers of a window, each farther behind its newest one than those before it.
use des_routing_algorithms.Common.{
  ℕ, suc, ◌+◌, ◌^◌, ◌≤◌, ◌<◌, ◌≡◌, Bool, true, false, ◌||◌, List, [], ◌∷◌, arith, ◌==◌, length,
}
use des_routing_algorithms.Batman.Window.{Sw}
use des_routing_algorithms.Batman.Window.Compare.{behind, behind_trans}

abbrev pub Chain : (h bound lo : ℕ) → List ℕ → Type 0
Chain h bound lo [] = Unit
Chain h bound lo (x ∷ xs) =
    (x < 2 ^ 16) × (lo ≤ behind h x) × (behind h x < bound) × Chain h bound (suc (behind h x)) xs

-- From the newest number on.
abbrev pub IsDesc : ℕ → List ℕ → Type 0
IsDesc bound [] = Unit
IsDesc bound (x ∷ xs) = Chain x bound 0 (x ∷ xs)

abbrev pub has : ℕ → List ℕ → Bool
has k [] = false
has k (x ∷ xs) = (x == k) || has k xs

pub record IsValid (sw : Sw) : Type 0 where
  pub desc : IsDesc sw.window_size sw.seq_nums
  pub counted : sw.size ≡ length sw.seq_nums
  pub wide : 2 ≤ sw.window_size
  pub narrow : sw.window_size < 2 ^ 8

pub Chain-le :
    (h bound lo lo' : ℕ) (xs : List ℕ) → lo' ≤ lo → Chain h bound lo xs → Chain h bound lo' xs
Chain-le h bound lo lo' [] le c = tt
Chain-le h bound lo lo' (x ∷ xs) le c = ground (arith, le, c)

pub length-Chain :
    (h bound lo : ℕ) (xs : List ℕ) → Chain h bound lo xs → lo ≤ bound → length xs + lo ≤ bound
length-Chain h bound lo [] c le = omega arith
length-Chain h bound lo (x ∷ xs) c le =
    ground (arith, c, length-Chain h bound (suc (behind h x)) xs)

-- Seen from a newer number, everything is farther behind.
pub Chain-newer :
    (s h bound lo : ℕ) (xs : List ℕ)
    → s < 2 ^ 16
    → h < 2 ^ 16
    → behind s h + bound ≤ 2 ^ 16
    → Chain h bound lo xs
    → Chain s (behind s h + bound) (behind s h + lo) xs
Chain-newer s h bound lo [] a b c d = tt
Chain-newer s h bound lo (x ∷ xs) a b c d = ground (
  arith,
  d,
  behind_trans s h x a b,
  Chain-le s (behind s h + bound) (behind s h + suc (behind h x)) (suc (behind s x)) xs,
  Chain-newer s h bound (suc (behind h x)) xs a b c,
)

-- What is in a window lies within its bounds.
pub has-Chain :
    (h bound lo k : ℕ) (xs : List ℕ)
    → Chain h bound lo xs
    → has k xs ≡ true
    → (k < 2 ^ 16) × (lo ≤ behind h k) × (behind h k < bound)
has-Chain h bound lo k [] c e = cc
has-Chain h bound lo k (x ∷ xs) c e =
    ground (arith, c, e, has-Chain h bound (suc (behind h x)) k xs)
