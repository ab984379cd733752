-- ===== src/Aodv/Timeslot/Order.antt =====
-- The order of a timeslot's elements.
use mathlib.Core.List.{filter}
use native.Mathlib.Decide.{dec_lt, dec_le}
use des_routing_algorithms.Common.{
  ℕ, ◌≤◌, ◌<◌, ◌≡◌, refl, List, [], ◌∷◌, delete, All, arith, length, suc,
}
use des_routing_algorithms.Aodv.Timeval.{Dessert, micros}
use des_routing_algorithms.Aodv.Timeslot.{TsElement, object_of, insert_walk}

abbrev pub time_of : TsElement → ℕ
time_of e = micros e.purge_time

-- From the latest to the earliest.
abbrev pub Desc : List TsElement → Type 0
Desc [] = Unit {0}
Desc (e ∷ es) = All (λ f. time_of f ≤ time_of e) es × Desc es

abbrev pub live : ℕ → List TsElement → List TsElement
live now = filter (λ e. dec_lt now (time_of e))

abbrev pub expired : ℕ → List TsElement → List TsElement
expired now = filter (λ e. dec_le (time_of e) now)

pub AllLe-mono :
    (a b : ℕ) (es : List TsElement)
    → a ≤ b
    → All (λ f. time_of f ≤ a) es
    → All (λ f. time_of f ≤ b) es
AllLe-mono a b [] h k = tt
AllLe-mono a b (e ∷ es) h k = (omega arith, AllLe-mono a b es h k.1)

live-All :
    (now n : ℕ) (es : List TsElement)
    → All (λ f. time_of f ≤ n) es
    → All (λ f. time_of f ≤ n) (live now es)
live-All now n [] k = tt
live-All now n (e ∷ es) k = ground (arith, live-All now n es)

pub live-Desc : (now : ℕ) (es : List TsElement) → Desc es → Desc (live now es)
live-Desc now [] k = tt
live-Desc now (e ∷ es) k = ground (arith, live-Desc now es, live-All now (time_of e) es)

delete-All :
    (o n : ℕ) (es : List TsElement)
    → All (λ f. time_of f ≤ n) es
    → All (λ f. time_of f ≤ n) (delete object_of o es)
delete-All o n [] k = tt
delete-All o n (e ∷ es) k = ground (arith, delete-All o n es)

pub delete-Desc : (o : ℕ) (es : List TsElement) → Desc es → Desc (delete object_of o es)
delete-Desc o [] k = tt
delete-Desc o (e ∷ es) k = ground (arith, delete-Desc o es, delete-All o (time_of e) es)

pub live_none :
    (now n : ℕ) (es : List TsElement) → n ≤ now → All (λ f. time_of f ≤ n) es → live now es ≡ []
live_none now n [] h k = refl
live_none now n (e ∷ es) h k = ground (arith, live_none now n es)

-- What holds of all elements holds of those that stay.
module _ {κ} (P : TsElement → Type κ) where
  pub live-keeps : (now : ℕ) (es : List TsElement) → All P es → All P (live now es)
  live-keeps now [] h = tt
  live-keeps now (e ∷ es) h = ground (arith, live-keeps now es h.1)

  pub delete-keeps : (o : ℕ) (es : List TsElement) → All P es → All P (delete object_of o es)
  delete-keeps o [] h = tt
  delete-keeps o (e ∷ es) h = ground (arith, delete-keeps o es h.1)

  pub insert_walk-keeps :
      ⦃d : Dessert⦄ (new : TsElement) (es : List TsElement)
      → P new
      → All P es
      → All P (insert_walk new es)
  unfolding insert_walk
  insert_walk-keeps new [] h k = (h, tt)
  insert_walk-keeps new (e ∷ []) h k = ground arith
  insert_walk-keeps new (e ∷ f ∷ es) h k = ground (arith, insert_walk-keeps new (f ∷ es) h)

module _ ⦃d : Dessert⦄ where
  insert_walk-All :
      (n : ℕ) (new : TsElement) (es : List TsElement)
      → time_of new ≤ n
      → All (λ f. time_of f ≤ n) es
      → All (λ f. time_of f ≤ n) (insert_walk new es)
  unfolding insert_walk
  insert_walk-All n new [] h k = (h, tt)
  insert_walk-All n new (e ∷ []) h k = ground arith
  insert_walk-All n new (e ∷ f ∷ es) h k = ground (arith, insert_walk-All n new (f ∷ es) h)

  pub insert_walk-Desc :
      (new : TsElement) (es : List TsElement) → Desc es → Desc (insert_walk new es)
  unfolding insert_walk
  insert_walk-Desc new [] k = (tt, tt)
  insert_walk-Desc new (e ∷ []) k = ground (arith, d.cmp_neg new.purge_time e.purge_time)
  insert_walk-Desc new (e ∷ f ∷ es) k = ground (
    arith,
    d.cmp_neg new.purge_time e.purge_time,
    insert_walk-Desc new (f ∷ es) k.1,
    insert_walk-All (time_of e) new (f ∷ es),
    AllLe-mono (time_of e) (time_of new) (f ∷ es),
  )

  pub length-insert_walk :
      (new : TsElement) (es : List TsElement) → length (insert_walk new es) ≡ suc (length es)
  unfolding insert_walk
  length-insert_walk new [] = refl
  length-insert_walk new (e ∷ []) = ground arith
  length-insert_walk new (e ∷ f ∷ es) = ground (arith, length-insert_walk new (f ∷ es))

  -- An element that has not expired adds one to those that stay.
  pub length-live-insert_walk :
      (now : ℕ) (new : TsElement) (es : List TsElement)
      → now < time_of new
      → length (live now (insert_walk new es)) ≡ suc (length (live now es))
  unfolding insert_walk
  length-live-insert_walk now new [] h = ground arith
  length-live-insert_walk now new (e ∷ []) h = ground arith
  length-live-insert_walk now new (e ∷ f ∷ es) h =
      ground (arith, length-live-insert_walk now new (f ∷ es) h)
