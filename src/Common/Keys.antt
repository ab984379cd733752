-- ===== src/Common/Keys.antt =====
-- Tables that are searched by one key and changed through another, such as an address in memory.
use Prim.Native.Nat.{ℕ}
use mathlib.Core.Path.{◌≡◌, refl}
use mathlib.Core.Logic.{◌≢◌}
use mathlib.Core.Option.{Option, none, some}
use mathlib.Core.List.{List, [], ◌∷◌}
use native.Mathlib.Omega.{arith}
use des_routing_algorithms.Common.Tests.{◌==◌, if◌then◌else◌}
use des_routing_algorithms.Common.Table.{find, delete, modify, Unique}

module _ {ℓ} {A : Type ℓ} (key other : A → ℕ) where
  -- What a search finds after a write at `p`, and after the removal of the element at `p`.
  abbrev pub written : ℕ → (A → A) → Option A → Option A
  written p f none = none
  written p f (some x) = if other x == p then some (f x) else some x

  abbrev pub removed : ℕ → Option A → Option A
  removed p none = none
  removed p (some x) = if other x == p then none else some x

  pub find-delete-none_by :
      (k p : ℕ) (xs : List A) → find key k xs ≡ none → find key k (delete other p xs) ≡ none
  find-delete-none_by k p [] h = refl
  find-delete-none_by k p (x ∷ xs) h = ground (arith, find-delete-none_by k p xs)

  -- A search does not find what is nowhere under the other key.
  absent_by :
      (k p : ℕ) (xs : List A) → find other p xs ≡ none → removed p (find key k xs) ≡ find key k xs
  absent_by k p [] h = refl
  absent_by k p (x ∷ xs) h = ground (arith, absent_by k p xs)

  -- What is found by one key is found by the other.
  pub found_by :
      (k : ℕ) (xs : List A) (y : A) → find key k xs ≡ some y → find other (other y) xs ≢ none
  found_by k [] y h e = cc
  found_by k (x ∷ xs) y h e = ground (arith, found_by k xs y)

  -- Two searches that find the same address find the same element.
  pub same_by :
      (j k : ℕ) (xs : List A) (x y : A)
      → Unique other xs
      → find key j xs ≡ some x
      → find key k xs ≡ some y
      → other x ≡ other y
      → x ≡ y
  same_by j k [] x y u h e s = cc
  same_by j k (z ∷ xs) x y u h e s =
      ground (arith, same_by j k xs x y u.1, found_by j xs x, found_by k xs y)

  pub find-delete_by :
      (k p : ℕ) (xs : List A)
      → Unique key xs
      → Unique other xs
      → find key k (delete other p xs) ≡ removed p (find key k xs)
  find-delete_by k p [] u v = refl
  find-delete_by k p (x ∷ xs) u v = ground (arith, find-delete_by k p xs u.1 v.1, absent_by k p xs)

  module _ (f : A → A) (keeps : (x : A) → key (f x) ≡ key x) where
    unwritten_by :
        (k p : ℕ) (xs : List A)
        → find other p xs ≡ none
        → written p f (find key k xs) ≡ find key k xs
    unwritten_by k p [] h = refl
    unwritten_by k p (x ∷ xs) h = ground (arith, unwritten_by k p xs)

    pub find-modify_by :
        (k p : ℕ) (xs : List A)
        → Unique other xs
        → find key k (modify other p f xs) ≡ written p f (find key k xs)
    find-modify_by k p [] v = refl
    find-modify_by k p (x ∷ xs) v =
        ground (arith, keeps x, find-modify_by k p xs v.1, unwritten_by k p xs)

    -- A write that keeps the key keeps the table free of duplicates.
    find-modify-none_by :
        (k p : ℕ) (xs : List A) → find key k xs ≡ none → find key k (modify other p f xs) ≡ none
    find-modify-none_by k p [] h = refl
    find-modify-none_by k p (x ∷ xs) h = ground (arith, keeps x, find-modify-none_by k p xs)

    pub modify-Unique_by : (p : ℕ) (xs : List A) → Unique key xs → Unique key (modify other p f xs)
    modify-Unique_by p [] u = tt
    modify-Unique_by p (x ∷ xs) u =
        ground (arith, keeps x, modify-Unique_by p xs u.1, find-modify-none_by (key x) p xs u.0)

  pub delete-Unique_by : (p : ℕ) (xs : List A) → Unique key xs → Unique key (delete other p xs)
  delete-Unique_by p [] u = tt
  delete-Unique_by p (x ∷ xs) u =
      ground (arith, delete-Unique_by p xs u.1, find-delete-none_by (key x) p xs u.0)
