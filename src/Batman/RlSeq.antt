-- ===== src/Batman/RlSeq.antt =====
-- des-batman/trunk/src/database/rl_seq_t/rl_seq.c: the numbers of the packets between two hosts,
-- by which a packet that comes again is told.
pub mod Stays
pub mod Check
pub mod Next
mod Tests
use des_routing_algorithms.Common.{
  ℕ, ◌+◌, ◌*◌, ◌%◌, ◌^◌, Bool, true, false, ◌||◌, Option, none, some, List, [], ◌∷◌, ◌++◌, ◌==◌,
  if◌then◌else◌, find, delete, modify,
}
use des_routing_algorithms.Batman.Window.{Sw, batman_sw_create, batman_sw_addsn}
use des_routing_algorithms.Batman.Slot.{Slot, ts_create, ts_purgeobjects, ts_addobject}

pub record RlPacketId : Type 0 where
  pub self : ℕ
  pub src_dest_addr : ℕ
  pub sw : Sw

-- What the purger reaches; `fault` is set when it follows an address of freed memory.
pub record RlEntrys : Type 0 where
  pub entrys : List RlPacketId
  pub fault : Bool

pub record RlTable : Type 0 where
  pub rl : RlEntrys
  pub ts : Slot
  pub brk : ℕ

abbrev pub rl_self : RlPacketId → ℕ
rl_self e = e.self

abbrev pub rl_key : RlPacketId → ℕ
rl_key e = e.src_dest_addr

-- The two addresses, as one number.
abbrev pub src_dest : ℕ → ℕ → ℕ
src_dest src_addr dest_addr = src_addr * 2 ^ 48 + dest_addr

unfoldable pub on_rl_timeout : ℕ → ℕ → RlEntrys → RlEntrys
on_rl_timeout timestamp object t = elim (find rl_self object t.entrys) [
  | none ↦ record t { fault = true }
  | some _ ↦ record t { entrys = delete rl_self object t.entrys }
]

-- RL_TIMEOUT, WINDOW_SIZE * 2 * OGM_INTERVAL_MS.
abbrev pub rl_timeout : ℕ
rl_timeout = 80000

abbrev pub rl_table_init : (malloc : Bool) → Option RlTable
rl_table_init malloc = elim (ts_create malloc rl_timeout) [
  | none ↦ none
  | some ts ↦ some (record { rl = record { entrys = []; fault = false }; ts = ts; brk = 1 })
]

-- WINDOW_SIZE * 4
abbrev pub rl_window : ℕ
rl_window = 80

-- How `create_entry` ends: without memory for the window the entry is freed and then written, as
-- `freed`.
pub data EntryMade : Type 0 where
  no_entry freed : EntryMade
  created : RlPacketId → EntryMade

unfoldable pub create_entry : (m_entry m_sw : Bool) → ℕ → ℕ → EntryMade
create_entry m_entry m_sw self key =
    if m_entry
    then elim (batman_sw_create m_sw rl_window) [
      | none ↦ freed
      | some sw ↦ created (record { self = self; src_dest_addr = key; sw = sw })
    ]
    else no_entry

-- The entry gets a window, and a new time in the timeslot.
abbrev pub set_sw : Sw → RlPacketId → RlPacketId
set_sw sw e = record e { sw = sw }

unfoldable pub touch : (m_ts : Bool) → RlTable → RlPacketId → Sw → ℕ → RlTable
touch m_ts t e sw timestamp =
    let entrys' = modify rl_self e.self (set_sw sw) t.rl.entrys in
    let (ts', rl') =
      (ts_addobject on_rl_timeout m_ts t.ts timestamp e.self
        (record (t.rl) { entrys = entrys' })).0 in
    record t { rl = rl'; ts = ts' }

abbrev pub with_packet_id : RlTable → RlPacketId → RlTable
with_packet_id t e = record t {
  rl = record (t.rl) { entrys = t.rl.entrys ++ e ∷ [] };
  brk = t.brk + 1;
}

-- The end of `rl_add_seq`.
unfoldable pub push_seq : (m_el m_ts : Bool) → RlTable → RlPacketId → ℕ → ℕ → Option RlTable
push_seq m_el m_ts t e seq_num timestamp = elim (batman_sw_addsn m_el e.sw seq_num) [
  | none ↦ none
  | some r ↦ let (sw, _) = r in some (touch m_ts t e sw timestamp)
]

-- `malloc` says whether there is memory for an entry, its window, an element of the window and one
-- of the timeslot.
unfoldable pub rl_add_seq :
    (malloc : Bool × Bool × Bool × Bool)
    → RlTable
    → (src_addr dest_addr seq_num timestamp : ℕ) → Option RlTable
rl_add_seq (m_entry, m_sw, m_el, m_ts) t src_addr dest_addr seq_num timestamp =
    elim (find rl_key (src_dest src_addr dest_addr) t.rl.entrys) [
      | some e ↦ push_seq m_el m_ts t e seq_num timestamp
      | none ↦ elim (create_entry m_entry m_sw t.brk (src_dest src_addr dest_addr)) [
        | no_entry ↦ some t
        | freed ↦ none
        | created e ↦ push_seq m_el m_ts (with_packet_id t e) e seq_num timestamp
      ]
    ]

-- The search of a window for a number.
abbrev pub is_in : ℕ → List ℕ → Bool
is_in seq_num [] = false
is_in seq_num (x ∷ xs) = x == seq_num || is_in seq_num xs

unfoldable pub rl_check_seq : RlTable → (src_addr dest_addr seq_num timestamp : ℕ) → RlTable × Bool
rl_check_seq t src_addr dest_addr seq_num timestamp =
    let (ts', rl') = ts_purgeobjects on_rl_timeout t.ts timestamp t.rl in
    (
      record t { rl = rl'; ts = ts' },
      elim (find rl_key (src_dest src_addr dest_addr) rl'.entrys) [
        | none ↦ false
        | some e ↦ is_in seq_num e.sw.seq_nums
      ],
    )

-- The number after the newest one, which is the newest one then.
abbrev pub newest_of : List ℕ → Option ℕ
newest_of [] = none
newest_of (head ∷ xs) = some head

unfoldable pub next_packet_seq :
    (m_el m_ts : Bool) → RlTable → RlPacketId → ℕ → Option (RlTable × ℕ)
next_packet_seq m_el m_ts t e timestamp = elim (newest_of e.sw.seq_nums) [
  | none ↦ none
  | some head ↦ elim (batman_sw_addsn m_el e.sw ((head + 1) % 2 ^ 16)) [
    | none ↦ none
    | some r ↦
        let (sw, _) = r in
        elim (newest_of sw.seq_nums) [
          | none ↦ none
          | some packet_seq ↦ some (touch m_ts t e sw timestamp, packet_seq)
        ]
  ]
]

unfoldable pub rl_get_nextseq :
    (malloc : Bool × Bool × Bool × Bool)
    → RlTable
    → (src_addr dest_addr timestamp : ℕ) → Option (RlTable × ℕ)
rl_get_nextseq (m_entry, m_sw, m_el, m_ts) t src_addr dest_addr timestamp =
    elim (find rl_key (src_dest src_addr dest_addr) t.rl.entrys) [
      | some e ↦ next_packet_seq m_el m_ts t e timestamp
      | none ↦ elim (create_entry m_entry m_sw t.brk (src_dest src_addr dest_addr)) [
        | no_entry ↦ some (t, 0)
        | freed ↦ none
        | created e ↦ elim (push_seq m_el m_ts (with_packet_id t e) e 0 timestamp) [
          | none ↦ none
          | some t' ↦ some (t', 0)
        ]
      ]
    ]
