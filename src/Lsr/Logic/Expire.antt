-- ===== src/Lsr/Logic/Expire.antt =====
-- The loops that age the entries of the two tables and delete old ones.
use des_routing_algorithms.Common.{
  ℕ, ◌≡◌, refl, inl, inr, Bool, true, false, ◌||◌, Option, none, some, List, [], ◌∷◌, arith, find,
  Unique, Option-cases, ◌==◌, if◌then◌else◌,
}
use des_routing_algorithms.Lsr.Logic.{expire}

module _ {ℓ} {A : Type ℓ} (key age : A → ℕ) (write : A → A) where
  -- What is left of an entry.
  abbrev pub expired : Option A → Option A
  expired none = none
  expired (some x) = if age x == 0 then none else some (write x)

  -- An entry is at its end.
  abbrev pub has_old : List A → Bool
  has_old [] = false
  has_old (x ∷ xs) = age x == 0 || has_old xs

  pub expire-has_old :
      (intact : Bool) (xs : List A)
      → intact ≡ true
      → (out : List A) × (expire age write intact xs ≡ some out)
  unfolding expire
  expire-has_old intact [] h = ([], refl)
  expire-has_old intact (x ∷ xs) h =
      let (out, e) = expire-has_old intact xs h in
      (if age x == 0 then out else write x ∷ out, ground (arith, h, e))

  pub expire_old : (xs : List A) → has_old xs ≡ true → expire age write false xs ≡ none
  unfolding expire
  expire_old [] h = cc
  expire_old (x ∷ xs) h = ground (arith, expire_old xs)

  module _ (keeps : (x : A) → key (write x) ≡ key x) where
    pub find-expire :
        (intact : Bool) (xs out : List A) (k : ℕ)
        → Unique key xs
        → expire age write intact xs ≡ some out
        → find key k out ≡ expired (find key k xs)
    unfolding expire
    find-expire intact [] out k u e = ground arith
    find-expire intact (x ∷ xs) out k u e = elim (Option-cases (expire age write intact xs)) [
      | inl a ↦ absurd (ground (arith, a))
      | inr c ↦ let (rest, a) = c in ground (arith, a, keeps x, find-expire intact xs rest k u.1 a)
    ]

    pub expire-Unique :
        (intact : Bool) (xs out : List A)
        → Unique key xs
        → expire age write intact xs ≡ some out
        → Unique key out
    unfolding expire
    expire-Unique intact [] out u e = ground arith
    expire-Unique intact (x ∷ xs) out u e = elim (Option-cases (expire age write intact xs)) [
      | inl a ↦ absurd (ground (arith, a))
      | inr c ↦
          let (rest, a) = c in
          ground (
            arith,
            a,
            keeps x,
            expire-Unique intact xs rest u.1 a,
            find-expire intact xs rest (key x) u.1 a,
          )
    ]
