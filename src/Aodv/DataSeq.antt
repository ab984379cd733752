-- ===== src/Aodv/DataSeq.antt =====
-- des-aodv/trunk/src/database/data_seq/ds.c: the last number of a data packet from each source.
pub mod Newer
pub mod Once
mod Tests
use des_routing_algorithms.Common.{
  ℕ, ◌+◌, ◌*◌, ◌/◌, ◌%◌, ◌^◌, Bool, true, false, ◌||◌, Option, none, some, List, [], ◌∷◌, ◌++◌,
  find, delete, modify, ltb, if◌then◌else◌,
}
use des_routing_algorithms.Aodv.Timeval.{Timeval, Dessert}
use des_routing_algorithms.Aodv.Timeslot.{
  Timeslot, timeslot_create, timeslot_purgeobjects, timeslot_addobject,
}

pub record DataPacketId : Type 0 where
  pub self : ℕ
  pub src_addr : ℕ
  pub seq_num : ℕ

-- What the purger reaches; `fault` is set when it follows an address of freed memory.
pub record Ids : Type 0 where
  pub entries : List DataPacketId
  pub fault : Bool

pub record DataSeq : Type 0 where
  pub ids : Ids
  pub ts : Timeslot
  pub brk : ℕ

abbrev pub self_of : DataPacketId → ℕ
self_of e = e.self

abbrev pub src_of : DataPacketId → ℕ
src_of e = e.src_addr

unfoldable pub on_ds_timeout : Timeval → ℕ → Ids → Ids
on_ds_timeout timestamp object t = elim (find self_of object t.entries) [
  | none ↦ record t { fault = true }
  | some _ ↦ record t { entries = delete self_of object t.entries }
]

-- AODV_DATA_SEQ_TIMEOUT is MY_ROUTE_TIMEOUT, 6000 ms.
unfoldable pub ds_init : Bool → Option DataSeq
ds_init malloc = elim (timeslot_create (record { tv_sec = 6; tv_usec = 0 }) malloc) [
  | none ↦ none
  | some ts ↦ some (record { ids = record { entries = []; fault = false }; ts = ts; brk = 1 })
]

-- The test on the numbers, which are of 16 bits and are subtracted as `int`.
unfoldable pub newer : ℕ → ℕ → Bool
newer seq_num data_seq_num = ltb (data_seq_num + 2 ^ 15) seq_num || ltb seq_num data_seq_num

module _ ⦃d : Dessert⦄ where
  -- The entry at an address is refreshed, after `entries` were written.
  abbrev pub refresh : DataSeq → ℕ → List DataPacketId → Timeval → Timeval → Bool → DataSeq
  refresh ds object entries timestamp now malloc =
      let (ts', ids', _) =
        timeslot_addobject on_ds_timeout ds.ts timestamp object now malloc
          (record (ds.ids) { entries = entries }) in
      record ds { ids = ids'; ts = ts' }

  -- `malloc` says whether there is memory for an entry and for its element of the timeslot.
  unfoldable pub capt_data_seq :
      DataSeq
      → (src_addr data_seq_num : ℕ) (timestamp now : Timeval) (malloc : Bool × Bool)
      → DataSeq × Bool
  capt_data_seq ds src_addr data_seq_num timestamp now (m_entry, m_ts) =
      elim (find src_of src_addr ds.ids.entries) [
        | none ↦
            let e : DataPacketId = record {
              self = ds.brk;
              src_addr = src_addr;
              seq_num = data_seq_num;
            } in
            if m_entry
            then (
              refresh (record ds { brk = ds.brk + 1 }) ds.brk (ds.ids.entries ++ e ∷ []) timestamp
                  now m_ts,
              true,
            )
            else (ds, false)
        | some e ↦
            if newer e.seq_num data_seq_num
            then (
              refresh ds e.self
                  (modify self_of e.self (λ x. record x { seq_num = data_seq_num }) ds.ids.entries)
                  timestamp now m_ts,
              true,
            )
            else (ds, false)
      ]

  unfoldable pub ds_cleanup : DataSeq → Timeval → DataSeq
  ds_cleanup ds timestamp =
      let (ts', ids') = timeslot_purgeobjects on_ds_timeout ds.ts timestamp ds.ids in
      record ds { ids = ids'; ts = ts' }
