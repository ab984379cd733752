-- ===== src/Aodv/Timeslot/Lookup.antt =====
-- Looking up an object among the elements of a timeslot.
use mathlib.Core.Logic.{ite}
use native.Mathlib.Decide.{dec_lt, dec_le}
use des_routing_algorithms.Common.{
  ℕ, ◌≡◌, refl, Option, none, some, List, [], ◌∷◌, if◌then◌else◌, find, ◌==◌, arith, Unique,
}
use des_routing_algorithms.Aodv.Timeval.{Dessert}
use des_routing_algorithms.Aodv.Timeslot.{TsElement, object_of, insert_walk}
use des_routing_algorithms.Aodv.Timeslot.Order.{time_of, live, expired}

abbrev pub live_of : ℕ → Option TsElement → Option TsElement
live_of now none = none
live_of now (some e) = ite (dec_lt now (time_of e)) (some e) none

find-live-none :
    (o now : ℕ) (es : List TsElement)
    → find object_of o es ≡ none
    → find object_of o (live now es) ≡ none
find-live-none o now [] h = refl
find-live-none o now (e ∷ es) h = ground (arith, find-live-none o now es)

pub find-live :
    (o now : ℕ) (es : List TsElement)
    → Unique object_of es
    → find object_of o (live now es) ≡ live_of now (find object_of o es)
find-live o now [] u = refl
find-live o now (e ∷ es) u = ground (arith, find-live o now es u.1, find-live-none o now es)

pub live-Unique :
    (now : ℕ) (es : List TsElement) → Unique object_of es → Unique object_of (live now es)
live-Unique now [] u = tt
live-Unique now (e ∷ es) u = ground (arith, live-Unique now es, find-live-none e.object now es)

abbrev pub expired_of : ℕ → Option TsElement → Option TsElement
expired_of now none = none
expired_of now (some e) = ite (dec_le (time_of e) now) (some e) none

find-expired-none :
    (o now : ℕ) (es : List TsElement)
    → find object_of o es ≡ none
    → find object_of o (expired now es) ≡ none
find-expired-none o now [] h = refl
find-expired-none o now (e ∷ es) h = ground (arith, find-expired-none o now es)

pub find-expired :
    (o now : ℕ) (es : List TsElement)
    → Unique object_of es
    → find object_of o (expired now es) ≡ expired_of now (find object_of o es)
find-expired o now [] u = refl
find-expired o now (e ∷ es) u =
    ground (arith, find-expired o now es u.1, find-expired-none o now es)

pub expired-Unique :
    (now : ℕ) (es : List TsElement) → Unique object_of es → Unique object_of (expired now es)
expired-Unique now [] u = tt
expired-Unique now (e ∷ es) u =
    ground (arith, expired-Unique now es, find-expired-none e.object now es)

module _ ⦃d : Dessert⦄ where
  pub find-insert_walk :
      (o : ℕ) (new : TsElement) (es : List TsElement)
      → find object_of new.object es ≡ none
      → find object_of o (insert_walk new es)
        ≡ (if new.object == o then some new else find object_of o es)
  unfolding insert_walk
  find-insert_walk o new [] h = refl
  find-insert_walk o new (e ∷ []) h = ground arith
  find-insert_walk o new (e ∷ f ∷ es) h = ground (arith, find-insert_walk o new (f ∷ es))

  pub insert_walk-Unique :
      (new : TsElement) (es : List TsElement)
      → find object_of new.object es ≡ none
      → Unique object_of es
      → Unique object_of (insert_walk new es)
  unfolding insert_walk
  insert_walk-Unique new [] h u = (refl, tt)
  insert_walk-Unique new (e ∷ []) h u = ground arith
  insert_walk-Unique new (e ∷ f ∷ es) h u =
      ground (arith, insert_walk-Unique new (f ∷ es), find-insert_walk e.object new (f ∷ es))
