-- ===== src/Batman/RlSeq/Stays.antt =====
-- An entry stays in the table while its time has not passed.
use des_routing_algorithms.Common.{
  ℕ, ◌+◌, ◌≤◌, ◌<◌, ◌≡◌, ◌≢◌, none, some, List, [], ◌∷◌, arith, leb, ◌==◌, if◌then◌else◌, find,
  delete, Unique, find-delete_by, delete-Unique, delete-Unique_by, All, Bool-cases, inl, inr,
}
use des_routing_algorithms.Batman.Slot.{TsEl, object_of_el, insert_el, purge_last, purge_from_tail}
use des_routing_algorithms.Batman.RlSeq.{RlPacketId, RlEntrys, rl_self, rl_key, on_rl_timeout}

-- The table has the entry for a key, and no key or address twice.
pub record Stays (k : ℕ) (e : RlPacketId) (t : RlEntrys) : Type 0 where
  pub keys : Unique rl_key t.entrys
  pub selves : Unique rl_self t.entrys
  pub found : find rl_key k t.entrys ≡ some e

-- All times of an object are `time`.
abbrev pub IsAt : ℕ → ℕ → TsEl → Type 0
IsAt object time x = if x.object == object then x.timestamp ≡ time else Unit

abbrev pub Only : ℕ → ℕ → List TsEl → Type 0
Only object time xs = All (IsAt object time) xs

on_rl_timeout-Stays :
    (k : ℕ) (e : RlPacketId) (timestamp object : ℕ) (t : RlEntrys)
    → object ≢ e.self
    → Stays k e t
    → Stays k e (on_rl_timeout timestamp object t)
unfolding on_rl_timeout
on_rl_timeout-Stays k e timestamp object t ne h = record {
  keys = ground (arith, h.keys, delete-Unique_by rl_key rl_self object t.entrys h.keys);
  selves = ground (arith, h.selves, delete-Unique rl_self object t.entrys h.selves);
  found = ground (arith, h.found, find-delete_by rl_key rl_self k object t.entrys h.keys h.selves);
}

pub Only-absent :
    (object time : ℕ) (xs : List TsEl) → find object_of_el object xs ≡ none → Only object time xs
Only-absent object time [] h = tt
Only-absent object time (x ∷ xs) h = ground (arith, h, Only-absent object time xs)

pub Only-delete :
    (object time : ℕ) (xs : List TsEl)
    → Unique object_of_el xs
    → Only object time (delete object_of_el object xs)
Only-delete object time [] u = tt
Only-delete object time (x ∷ xs) u =
    ground (arith, u, Only-delete object time xs, Only-absent object time xs)

pub Only-insert_el :
    (object time : ℕ) (xs : List TsEl)
    → Only object time xs
    → Only object time (insert_el (record { timestamp = time; object = object }) xs)
unfolding insert_el
Only-insert_el object time [] h = ground arith
Only-insert_el object time (x ∷ xs) h = ground (arith, h, Only-insert_el object time xs)

-- A purge before the time of the object has passed.
pub purge_from_tail-Stays :
    (k : ℕ) (e : RlPacketId) (time timeout now : ℕ) (xs : List TsEl) (t : RlEntrys)
    → now < time + timeout
    → Only e.self time xs
    → Stays k e t
    → Only e.self time (purge_from_tail on_rl_timeout timeout now xs t).0
      × Stays k e (purge_from_tail on_rl_timeout timeout now xs t).1
unfolding purge_from_tail
purge_from_tail-Stays k e time timeout now [] t lt only h = (tt, h)
purge_from_tail-Stays k e time timeout now (x ∷ xs) t lt only h =
    purged (purge_from_tail on_rl_timeout timeout now xs t)
      (purge_from_tail-Stays k e time timeout now xs t lt only.1 h)
  where
    purged :
        (rest : List TsEl × RlEntrys)
        → Only e.self time rest.0 × Stays k e rest.1
        → Only e.self time (purge_last on_rl_timeout (leb (x.timestamp + timeout) now) x rest).0
          × Stays k e (purge_last on_rl_timeout (leb (x.timestamp + timeout) now) x rest).1
    purged ([], t') (o, held) = elim (Bool-cases (leb (x.timestamp + timeout) now)) [
      | inl b ↦ rw b (
        tt,
        on_rl_timeout-Stays k e x.timestamp x.object t' (λ same. ground (arith, b, only, lt, same))
            held,
      )
      | inr b ↦ rw b ((only.0, tt), held)
    ]
    purged (y ∷ ys, t') (o, held) = ((only.0, o), held)

-- No element is newer than a time.
abbrev pub AllOld : ℕ → List TsEl → Type 0
AllOld time xs = All (λ x. x.timestamp ≤ time) xs

pub AllOld-delete :
    (time object : ℕ) (xs : List TsEl)
    → AllOld time xs
    → AllOld time (delete object_of_el object xs)
AllOld-delete time object [] h = tt
AllOld-delete time object (x ∷ xs) h = ground (arith, h, AllOld-delete time object xs)

pub AllOld-insert_el :
    (time object : ℕ) (xs : List TsEl)
    → AllOld time xs
    → AllOld time (insert_el (record { timestamp = time; object = object }) xs)
unfolding insert_el
AllOld-insert_el time object [] h = ground arith
AllOld-insert_el time object (x ∷ xs) h = ground (arith, h, AllOld-insert_el time object xs)
