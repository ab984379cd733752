-- ===== src/Batman/Slot.antt =====
-- des-batman/trunk/src/database/timeslot.c: objects in the order of their timestamps, in seconds.
use des_routing_algorithms.Common.{
  ℕ, ◌+◌, Bool, true, false, Option, none, some, List, [], ◌∷◌, leb, if◌then◌else◌, delete,
}

pub record TsEl : Type 0 where
  pub timestamp : ℕ
  pub object : ℕ

-- The elements from the head on, by the links `prev`. Their number is not stored.
pub record Slot : Type 0 where
  pub elements : List TsEl
  pub purge_timeout : ℕ

abbrev pub object_of_el : TsEl → ℕ
object_of_el x = x.object

abbrev pub ts_create : (malloc : Bool) → ℕ → Option Slot
ts_create malloc purge_timeout =
    if malloc then some (record { elements = []; purge_timeout = purge_timeout }) else none

-- The place of an element, from the head on.
unfoldable pub insert_el : TsEl → List TsEl → List TsEl
insert_el new [] = new ∷ []
insert_el new (x ∷ xs) =
    if leb x.timestamp new.timestamp then new ∷ x ∷ xs else x ∷ insert_el new xs

abbrev pub ts_deleteobject : Slot → ℕ → Slot
ts_deleteobject ts object = record ts { elements = delete object_of_el object ts.elements }

-- The timestamp of the object is out of date.
abbrev pub outdated : Slot → ℕ → Bool
outdated ts timestamp = elim ts.elements [
  | [] ↦ false
  | head ∷ xs ↦ leb (timestamp + ts.purge_timeout) head.timestamp
]

-- `purger` is the callback, and changes a state of the owner.
module _ {ℓ} {T : Type ℓ} (purger : ℕ → ℕ → T → T) where
  -- The loop of `timeslot_purgeobjects`, which goes from the tail on.
  abbrev pub purge_last : Bool → TsEl → List TsEl × T → List TsEl × T
  purge_last expired x ([], t) =
      if expired then ([], purger x.timestamp x.object t) else (x ∷ [], t)
  purge_last expired x (y ∷ ys, t) = (x ∷ y ∷ ys, t)

  unfoldable pub purge_from_tail : ℕ → ℕ → List TsEl → T → List TsEl × T
  purge_from_tail purge_timeout timestamp [] t = ([], t)
  purge_from_tail purge_timeout timestamp (x ∷ xs) t =
      purge_last (leb (x.timestamp + purge_timeout) timestamp) x
        (purge_from_tail purge_timeout timestamp xs t)

  unfoldable pub ts_purgeobjects : Slot → ℕ → T → Slot × T
  ts_purgeobjects ts timestamp t =
      let (left, t') = purge_from_tail ts.purge_timeout timestamp ts.elements t in
      (record ts { elements = left }, t')

  -- After an element was inserted.
  abbrev pub purge_at_head : Slot → List TsEl → T → Slot × T
  purge_at_head ts [] t = (ts, t)
  purge_at_head ts (head ∷ xs) t =
      ts_purgeobjects (record ts { elements = head ∷ xs }) head.timestamp t

  -- A first element stays whatever its time is.
  abbrev pub add_el : Slot → TsEl → T → Slot × T
  add_el ts new t = elim ts.elements [
    | [] ↦ (record ts { elements = new ∷ [] }, t)
    | _ ∷ _ ↦ purge_at_head ts (insert_el new ts.elements) t
  ]

  unfoldable pub ts_addobject : (malloc : Bool) → Slot → ℕ → ℕ → T → (Slot × T) × Bool
  ts_addobject malloc ts timestamp object t =
      let ts' = ts_deleteobject ts object in
      let new : TsEl = record { timestamp = timestamp; object = object } in
      if outdated ts' timestamp
      then ((ts', purger timestamp object t), true)
      else if malloc
      then (add_el ts' new t, true)
      else ((ts', t), false)
