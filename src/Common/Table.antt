-- ===== src/Common/Table.antt =====
-- uthash tables and utlist lists as lists of their elements, in the order of insertion.
-- `key` is the field that the table is keyed by, or the address of the element where the source
-- works through a pointer to it.
use Prim.Native.Nat.{ℕ, suc}
use mathlib.Core.Path.{◌≡◌, refl}
use mathlib.Core.Logic.{◌≢◌}
use mathlib.Core.Option.{Option, none, some}
use mathlib.Core.Option
use mathlib.Core.List.{List, [], ◌∷◌, ◌++◌}
use native.Mathlib.Omega.{arith}
use des_routing_algorithms.Common.Tests.{◌==◌, if◌then◌else◌}
use des_routing_algorithms.Common.Lists.{length}

module _ {ℓ} {A : Type ℓ} (key : A → ℕ) where
  -- HASH_FIND
  abbrev pub find : ℕ → List A → Option A
  find k [] = none
  find k (x ∷ xs) = if key x == k then some x else find k xs

  -- HASH_DEL
  abbrev pub delete : ℕ → List A → List A
  delete k [] = []
  delete k (x ∷ xs) = if key x == k then xs else x ∷ delete k xs

  -- A write through a pointer to an element.
  abbrev pub modify : ℕ → (A → A) → List A → List A
  modify k f [] = []
  modify k f (x ∷ xs) = if key x == k then f x ∷ xs else x ∷ modify k f xs

  -- No two elements have the same key.
  abbrev pub Unique : List A → Type ℓ
  Unique [] = Unit
  Unique (x ∷ xs) = (find (key x) xs ≡ none) × Unique xs

  -- The first of two answers of a table.
  abbrev pub first : Option A → Option A → Option A
  first none b = b
  first (some a) b = some a

  pub find-append : (k : ℕ) (xs ys : List A) → find k (xs ++ ys) ≡ first (find k xs) (find k ys)
  find-append k [] ys = refl
  find-append k (x ∷ xs) ys = ground (arith, find-append k xs ys)

  pub key-find : (k : ℕ) (xs : List A) (y : A) → find k xs ≡ some y → key y ≡ k
  key-find k [] y h = cc
  key-find k (x ∷ xs) y h = ground (arith, key-find k xs y)

  pub find-delete_ne : (j k : ℕ) (xs : List A) → j ≢ k → find j (delete k xs) ≡ find j xs
  find-delete_ne j k [] h = refl
  find-delete_ne j k (x ∷ xs) h = ground (arith, find-delete_ne j k xs h)

  pub find-delete_self : (k : ℕ) (xs : List A) → Unique xs → find k (delete k xs) ≡ none
  find-delete_self k [] u = refl
  find-delete_self k (x ∷ xs) u = ground (arith, find-delete_self k xs u.1)

  pub delete_absent : (k : ℕ) (xs : List A) → find k xs ≡ none → delete k xs ≡ xs
  delete_absent k [] h = refl
  delete_absent k (x ∷ xs) h = ground (arith, delete_absent k xs)

  pub find-delete-none : (j k : ℕ) (xs : List A) → find j xs ≡ none → find j (delete k xs) ≡ none
  find-delete-none j k [] h = refl
  find-delete-none j k (x ∷ xs) h = ground (arith, find-delete-none j k xs)

  pub delete-Unique : (k : ℕ) (xs : List A) → Unique xs → Unique (delete k xs)
  delete-Unique k [] u = tt
  delete-Unique k (x ∷ xs) u =
      ground (arith, delete-Unique k xs u.1, find-delete-none (key x) k xs u.0)

  pub append-Unique :
      (xs : List A) (y : A) → Unique xs → find (key y) xs ≡ none → Unique (xs ++ y ∷ [])
  append-Unique [] y u h = (refl, tt)
  append-Unique (x ∷ xs) y u h =
      ground (arith, append-Unique xs y u.1, find-append (key x) xs (y ∷ []))

  pub length-delete :
      (k : ℕ) (xs : List A) (y : A) → find k xs ≡ some y → length xs ≡ suc (length (delete k xs))
  length-delete k [] y h = cc
  length-delete k (x ∷ xs) y h = ground (arith, length-delete k xs y)

  module _ (f : A → A) (keeps : (x : A) → key (f x) ≡ key x) where
    pub find-modify_self : (k : ℕ) (xs : List A) → find k (modify k f xs) ≡ Option.map f (find k xs)
    find-modify_self k [] = refl
    find-modify_self k (x ∷ xs) = ground (arith, keeps x, find-modify_self k xs)

    pub find-modify_ne : (j k : ℕ) (xs : List A) → j ≢ k → find j (modify k f xs) ≡ find j xs
    find-modify_ne j k [] h = refl
    find-modify_ne j k (x ∷ xs) h = ground (arith, keeps x, find-modify_ne j k xs h)

    find-modify-none : (j k : ℕ) (xs : List A) → find j xs ≡ none → find j (modify k f xs) ≡ none
    find-modify-none j k [] h = refl
    find-modify-none j k (x ∷ xs) h = ground (arith, keeps x, find-modify-none j k xs)

    pub modify-Unique : (k : ℕ) (xs : List A) → Unique xs → Unique (modify k f xs)
    modify-Unique k [] u = tt
    modify-Unique k (x ∷ xs) u =
        ground (arith, keeps x, modify-Unique k xs u.1, find-modify-none (key x) k xs u.0)
