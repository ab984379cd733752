-- ===== src/Batman/RlSeq/Check.antt =====
-- A number that was added is found.
use des_routing_algorithms.Common.{
  ℕ, ◌+◌, ◌^◌, ◌<◌, ◌≡◌, refl, true, false, Option, none, some, List, [], ◌∷◌, arith, find, delete,
  modify, Unique, find-append, append-Unique, modify-Unique, modify-Unique_by, find-modify_by,
  Option-cases, List-cases, inl, inr,
}
use des_routing_algorithms.Batman.Window.{Sw}
use des_routing_algorithms.Batman.Window.Compare.{behind, behind_self}
use des_routing_algorithms.Batman.Window.Chain.{has}
use des_routing_algorithms.Batman.Window.Chain as Windows
use des_routing_algorithms.Batman.Window.Add.{newest, batman_sw_addsn-IsValid}
use des_routing_algorithms.Batman.Slot.{
  Slot, TsEl, object_of_el, insert_el, purge_at_head, add_el, ts_purgeobjects, ts_addobject,
  ts_deleteobject, outdated,
}
use des_routing_algorithms.Batman.RlSeq.{
  RlPacketId, RlEntrys, RlTable, rl_self, rl_key, src_dest, on_rl_timeout, set_sw, touch,
  with_packet_id, push_seq, create_entry, rl_add_seq, rl_check_seq, is_in, rl_window,
}
use des_routing_algorithms.Batman.RlSeq.Stays.{
  Stays, Only, Only-delete, Only-insert_el, AllOld, AllOld-delete, AllOld-insert_el,
  purge_from_tail-Stays,
}

abbrev pub HasWindow : Option RlPacketId → Type 0
HasWindow none = Unit
HasWindow (some e) = Windows.IsValid e.sw

pub record IsValid (t : RlTable) : Type 0 where
  pub keys : Unique rl_key t.rl.entrys
  pub selves : Unique rl_self t.rl.entrys
  pub slot : Unique object_of_el t.ts.elements
  pub fresh : find rl_self t.brk t.rl.entrys ≡ none
  pub windows : (k : ℕ) → HasWindow (find rl_key k t.rl.entrys)
  pub timed : 0 < t.ts.purge_timeout

-- A number is not too old for the window of an entry.
abbrev pub IsNear : ℕ → Option RlPacketId → Type 0
IsNear s none = Unit
IsNear s (some e) = behind (newest e.sw.window_size s e.sw.seq_nums) s < e.sw.window_size

-- The table after the entry was used at `time`.
pub record Used (k time : ℕ) (e : RlPacketId) (timeout : ℕ) (t : RlTable) : Type 0 where
  pub held : Stays k e t.rl
  pub only : Only e.self time t.ts.elements
  pub timeout_kept : t.ts.purge_timeout ≡ timeout

purge_at_head-Used :
    (k time : ℕ) (e : RlPacketId) (ts : Slot) (xs : List TsEl) (rl : RlEntrys) (brk : ℕ)
    → 0 < ts.purge_timeout
    → Only e.self time ts.elements
    → Only e.self time xs
    → AllOld time xs
    → Stays k e rl
    → Used k time e ts.purge_timeout (record {
      rl = (purge_at_head on_rl_timeout ts xs rl).1;
      ts = (purge_at_head on_rl_timeout ts xs rl).0;
      brk = brk;
    })
unfolding ts_purgeobjects
purge_at_head-Used k time e ts [] rl brk timed only0 only old h = record {
  held = h;
  only = only0;
  timeout_kept = refl;
}
purge_at_head-Used k time e ts (head ∷ xs) rl brk timed only0 only old h =
    let (only', held') =
      purge_from_tail-Stays k e time ts.purge_timeout head.timestamp (head ∷ xs) rl
        (omega (arith, old.0, timed)) only h in
    record { held = held'; only = only'; timeout_kept = refl }

-- The element of the entry is put into a timeslot that has no other for it.
add_el-Used :
    (k time : ℕ) (e : RlPacketId) (els : List TsEl) (timeout : ℕ) (rl : RlEntrys) (brk : ℕ)
    → 0 < timeout
    → Only e.self time els
    → AllOld time els
    → Stays k e rl
    → let ts : Slot = record { elements = els; purge_timeout = timeout } in
      let new : TsEl = record { timestamp = time; object = e.self } in
      Used k time e timeout (record {
        rl = (add_el on_rl_timeout ts new rl).1;
        ts = (add_el on_rl_timeout ts new rl).0;
        brk = brk;
      })
add_el-Used k time e [] timeout rl brk timed only old h = record {
  held = h;
  only = ground arith;
  timeout_kept = refl;
}
add_el-Used k time e (x ∷ xs) timeout rl brk timed only old h =
    purge_at_head-Used k time e (record { elements = x ∷ xs; purge_timeout = timeout })
      (insert_el (record { timestamp = time; object = e.self }) (x ∷ xs)) rl brk timed only
      (Only-insert_el e.self time (x ∷ xs) only) (AllOld-insert_el time e.self (x ∷ xs) old) h

not_outdated :
    (ts : Slot) (time : ℕ)
    → 0 < ts.purge_timeout
    → AllOld time ts.elements
    → outdated ts time ≡ false
not_outdated ts time timed old = elim (List-cases ts.elements) [
  | inl e ↦ ground (arith, e)
  | inr c ↦ let (head, xs, e) = c in ground (arith, e, old, timed)
]

pub touch-Used :
    (t : RlTable) (k time : ℕ) (e : RlPacketId) (sw : Sw)
    → Unique rl_key t.rl.entrys
    → Unique rl_self t.rl.entrys
    → Unique object_of_el t.ts.elements
    → find rl_key k t.rl.entrys ≡ some e
    → 0 < t.ts.purge_timeout
    → AllOld time t.ts.elements
    → Used k time (set_sw sw e) t.ts.purge_timeout (touch true t e sw time)
unfolding touch ts_addobject
touch-Used t k time e sw keys selves slot found timed old =
    let p = e.self in
    let left = delete object_of_el p t.ts.elements in
    let ts = ts_deleteobject t.ts p in
    let only = Only-delete p time t.ts.elements slot in
    let aged = AllOld-delete time p t.ts.elements old in
    let write = set_sw sw in
    let entrys = t.rl.entrys in
    let rl : RlEntrys = record (t.rl) { entrys = modify rl_self p write entrys } in
    let held : Stays k (set_sw sw e) rl = record {
      keys = modify-Unique_by rl_key rl_self write (λ x. refl) p entrys keys;
      selves = modify-Unique rl_self write (λ x. refl) p entrys selves;
      found =
          ground (arith, find-modify_by rl_key rl_self write (λ x. refl) k p entrys selves, found);
    } in
    rw (not_outdated ts time timed aged)
      (add_el-Used k time (set_sw sw e) left t.ts.purge_timeout rl t.brk timed only aged held)

push_seq-Used :
    (t : RlTable) (k s time : ℕ) (e : RlPacketId)
    → Unique rl_key t.rl.entrys
    → Unique rl_self t.rl.entrys
    → Unique object_of_el t.ts.elements
    → find rl_key k t.rl.entrys ≡ some e
    → 0 < t.ts.purge_timeout
    → AllOld time t.ts.elements
    → Windows.IsValid e.sw
    → s < 2 ^ 16
    → IsNear s (some e)
    → (t' : RlTable) × (e' : RlPacketId) × (push_seq true true t e s time ≡ some t')
      × Used k time e' t.ts.purge_timeout t'
      × (has s e'.sw.seq_nums ≡ true)
unfolding push_seq
push_seq-Used t k s time e keys selves slot found timed old valid small near =
    let (sw, added, _, holds) = batman_sw_addsn-IsValid e.sw valid s s small in
    (
      touch true t e sw time,
      set_sw sw e,
      ground (arith, added),
      touch-Used t k time e sw keys selves slot found timed old,
      ground (arith, holds, near),
    )

-- The table with a new entry.
created_entry : ℕ → ℕ → RlPacketId
created_entry self key = record {
  self = self;
  src_dest_addr = key;
  sw = record { seq_nums = []; size = 0; window_size = rl_window };
}

rl_add_seq-Used :
    (t : RlTable) (src_addr dest_addr s time : ℕ)
    → IsValid t
    → s < 2 ^ 16
    → AllOld time t.ts.elements
    → IsNear s (find rl_key (src_dest src_addr dest_addr) t.rl.entrys)
    → (t' : RlTable) × (e' : RlPacketId) × (rl_add_seq
          (true, true, true, true)
          t
          src_addr
          dest_addr
          s
          time
        ≡ some t')
      × Used (src_dest src_addr dest_addr) time e' t.ts.purge_timeout t'
      × (has s e'.sw.seq_nums ≡ true)
unfolding rl_add_seq create_entry created_entry
rl_add_seq-Used t src_addr dest_addr s time v small old near =
    let k = src_dest src_addr dest_addr in
    elim (Option-cases (find rl_key k t.rl.entrys)) [
      | inr c ↦
          let (e, found) = c in
          let (t', e', pushed, used, there) =
            push_seq-Used t k s time e v.keys v.selves v.slot found v.timed old
              (ground (arith, found, v.windows k)) small (ground (arith, found, near)) in
          (t', e', ground (arith, found, pushed), used, there)
      | inl found ↦
          let e = created_entry t.brk k in
          let grown = with_packet_id t e in
          let valid : Windows.IsValid e.sw = record {
            desc = tt;
            counted = refl;
            wide = omega arith;
            narrow = omega arith;
          } in
          let (t', e', pushed, used, there) =
            push_seq-Used grown k s time e (append-Unique rl_key t.rl.entrys e v.keys found)
              (append-Unique rl_self t.rl.entrys e v.selves v.fresh) v.slot
              (ground (arith, found, find-append rl_key k t.rl.entrys (e ∷ []))) v.timed old valid
              small (ground (arith, behind_self s)) in
          (t', e', ground (arith, found, pushed), used, there)
    ]

pub is_in-has : (s : ℕ) (xs : List ℕ) → has s xs ≡ true → is_in s xs ≡ true
is_in-has s [] h = cc
is_in-has s (x ∷ xs) h = ground (arith, h, is_in-has s xs)

-- In a valid table whose timeslot knows no later time, with memory, a number of 16 bits that is
-- not too old for the window of the two hosts is added; until the time of the entry has passed, a
-- packet with the number between these hosts is told to have come before.
pub rl_check_seq-rl_add_seq :
    (t : RlTable) (src_addr dest_addr s time : ℕ)
    → IsValid t
    → s < 2 ^ 16
    → AllOld time t.ts.elements
    → IsNear s (find rl_key (src_dest src_addr dest_addr) t.rl.entrys)
    → (now : ℕ) → now < time + t.ts.purge_timeout
    → (t' : RlTable) × (rl_add_seq (true, true, true, true) t src_addr dest_addr s time ≡ some t')
      × ((rl_check_seq t' src_addr dest_addr s now).1 ≡ true)
unfolding rl_check_seq ts_purgeobjects
rl_check_seq-rl_add_seq t src_addr dest_addr s time v small old near now lt =
    let k = src_dest src_addr dest_addr in
    let (t', e', added, used, there) =
      rl_add_seq-Used t src_addr dest_addr s time v small old near in
    let (_, held) =
      purge_from_tail-Stays k e' time t'.ts.purge_timeout now t'.ts.elements t'.rl
        (omega (arith, lt, used.timeout_kept)) used.only used.held in
    (t', added, ground (arith, held.found, is_in-has s e'.sw.seq_nums there))
