-- ===== src/Aodv/Timeslot.antt =====
-- des-aodv/trunk/src/database/timeslot.c: objects in the order in which they expire.
-- The doubly linked list and the hash table hold the same elements at every return, so they are
-- one list here, from `head` to `tail`. Addresses of objects are numbers. The purger of a timeslot
-- is an argument, with the state `S` that it changes; so are the time of day that the functions
-- read, and whether `malloc` gives memory for the new element.
pub mod Order
pub mod Lookup
pub mod Purge
pub mod Valid
pub mod Add
mod Tests
use des_routing_algorithms.Common.{
  ℕ, ◌+◌, ◌-◌, ◌%◌, ◌^◌, Bool, true, false, not, Option, none, some, List, [], ◌∷◌, if◌then◌else◌,
  is_pos, is_neg, find, delete, ◌==◌,
}
use des_routing_algorithms.Aodv.Timeval.{Timeval, Dessert}

pub record TsElement : Type 0 where
  pub purge_time : Timeval
  pub object : ℕ

pub record Timeslot : Type 0 where
  pub elements : List TsElement
  pub size : ℕ
  pub purge_timeout : Timeval

abbrev pub object_of : TsElement → ℕ
object_of e = e.object

-- `ts->size++` and `ts->size--` on a uint32_t
abbrev pub inc32 : ℕ → ℕ
inc32 n = (n + 1) % 2 ^ 32

abbrev pub dec32 : ℕ → ℕ
dec32 n = (n + 2 ^ 32 - 1) % 2 ^ 32

unfoldable pub timeslot_create : Timeval → Bool → Option Timeslot
timeslot_create timeout true = some (record { elements = []; size = 0; purge_timeout = timeout })
timeslot_create timeout false = none

unfoldable pub timeslot_deleteobject : Timeslot → ℕ → Timeslot × Bool
timeslot_deleteobject ts object = elim (find object_of object ts.elements) [
  | none ↦ (ts, false)
  | some _ ↦
      (record ts { elements = delete object_of object ts.elements; size = dec32 ts.size }, true)
]

module _ ⦃d : Dessert⦄ where
  -- The walk from `head` while there is an element before and its time is later; then the new
  -- element goes after the element that was reached, towards `head`, or before it.
  unfoldable pub insert_walk : TsElement → List TsElement → List TsElement
  insert_walk new [] = new ∷ []
  insert_walk new (e ∷ []) =
      if not (is_neg (d.timevalcmp new.purge_time e.purge_time)) then new ∷ e ∷ [] else e ∷ new ∷ []
  insert_walk new (e ∷ f ∷ rest) =
      if is_neg (d.timevalcmp new.purge_time e.purge_time)
      then e ∷ insert_walk new (f ∷ rest)
      else new ∷ e ∷ f ∷ rest

  -- The new element in its place, and `size++`.
  unfoldable pub insert_new : TsElement → Timeslot → Timeslot
  insert_new new ts = record ts { elements = insert_walk new ts.elements; size = inc32 ts.size }

  module _ {ℓ} {S : Type ℓ} (purger : Timeval → ℕ → S → S) where
    -- One round at the tail `e`; an element with another behind it is not the tail.
    unfoldable pub purge_tail :
        Timeval → TsElement → List TsElement → ℕ → S → List TsElement × ℕ × S
    purge_tail now e [] size s =
        if not (is_pos (d.timevalcmp e.purge_time now))
        then ([], dec32 size, purger e.purge_time e.object s)
        else (e ∷ [], size, s)
    purge_tail now e (f ∷ rest) size s = (e ∷ f ∷ rest, size, s)

    -- The loop starts at the tail, which is the end of the list: an element is reached once all
    -- behind it are gone.
    unfoldable pub purge_loop : Timeval → List TsElement → ℕ → S → List TsElement × ℕ × S
    purge_loop now [] size s = ([], size, s)
    purge_loop now (e ∷ rest) size s =
        let (rest', size', s') = purge_loop now rest size s in purge_tail now e rest' size' s'

    unfoldable pub timeslot_purgeobjects : Timeslot → Timeval → S → Timeslot × S
    timeslot_purgeobjects ts now s =
        let (rest, size', s') = purge_loop now ts.elements ts.size s in
        (record ts { elements = rest; size = size' }, s')

    -- `timeslot_addobject_varpurge`: the timeslot, the purger's state and the result.
    unfoldable pub timeslot_addobject_varpurge :
        Timeslot → Timeval → ℕ → Timeval → (now : Timeval) (malloc : Bool) → S → Timeslot × S × Bool
    timeslot_addobject_varpurge ts timestamp object lifetime now false s = (ts, s, false)
    timeslot_addobject_varpurge ts timestamp object lifetime now true s =
        let new : TsElement = record {
          purge_time = d.timevaladd2 lifetime timestamp;
          object = object;
        } in
        let (ts', _) = timeslot_deleteobject ts object in
        if ts'.size == 0
        then (record ts' { elements = new ∷ []; size = 1 }, s, true)
        else let (ts'', s') = timeslot_purgeobjects (insert_new new ts') now s in (ts'', s', true)

    unfoldable pub timeslot_addobject :
        Timeslot → Timeval → ℕ → (now : Timeval) (malloc : Bool) → S → Timeslot × S × Bool
    timeslot_addobject ts timestamp object now malloc s =
        timeslot_addobject_varpurge ts timestamp object ts.purge_timeout now malloc s
