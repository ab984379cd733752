-- ===== src/Batman/RlSeq/Next.antt =====
-- The numbers that are handed out for the packets between two hosts.
use mathlib.Core.Path.{subst}
use des_routing_algorithms.Common.{
  ℕ, ◌+◌, ◌%◌, ◌^◌, ◌<◌, ◌≡◌, true, some, List, ◌∷◌, arith, find, List-cases, inl, inr,
}
use des_routing_algorithms.Batman.Window.{Sw, batman_sw_addsn}
use des_routing_algorithms.Batman.Window.Compare.{
  behind, behind_self, behind_back, behind_next, behind-inj,
}
use des_routing_algorithms.Batman.Window.Chain.{has, has-Chain, Chain, IsDesc}
use des_routing_algorithms.Batman.Window.Chain as Windows
use des_routing_algorithms.Batman.Window.Add.{newest, batman_sw_addsn-IsValid}
use des_routing_algorithms.Batman.Slot.{ts_purgeobjects}
use des_routing_algorithms.Batman.RlSeq.{
  RlPacketId, RlTable, rl_key, src_dest, set_sw, touch, newest_of, next_packet_seq, rl_get_nextseq,
  rl_check_seq,
}
use des_routing_algorithms.Batman.RlSeq.Stays.{AllOld, purge_from_tail-Stays}
use des_routing_algorithms.Batman.RlSeq.Check.{IsValid, touch-Used, is_in-has}

-- A number that no other of the window is ahead of leads it.
leads :
    (sw : Sw) (s x : ℕ) (xs : List ℕ)
    → Windows.IsValid sw
    → s < 2 ^ 16
    → sw.seq_nums ≡ x ∷ xs
    → has s sw.seq_nums ≡ true
    → behind s x < 2 ^ 8
    → x ≡ s
leads sw s x xs v small e there near =
    let c : Chain x sw.window_size 0 (x ∷ xs) = subst (IsDesc sw.window_size) e v.desc in
    ground (
      arith,
      e,
      there,
      near,
      c.0,
      v.narrow,
      has-Chain x sw.window_size 0 s (x ∷ xs) c,
      behind_back x s c.0 small,
      behind-inj x x s c.0 c.0 small,
      behind_self x,
    )

-- After the number that follows the head was added, it is the head.
newest-addsn :
    (sw : Sw) (h : ℕ) (xs : List ℕ)
    → Windows.IsValid sw
    → sw.seq_nums ≡ h ∷ xs
    → let s = (h + 1) % 2 ^ 16 in
      (out : Sw) × (batman_sw_addsn true sw s ≡ some (out, true))
      × (newest_of out.seq_nums ≡ some s)
      × (has s out.seq_nums ≡ true)
newest-addsn sw h xs v e =
    let s = (h + 1) % 2 ^ 16 in
    let c : Chain h sw.window_size 0 (h ∷ xs) = subst (IsDesc sw.window_size) e v.desc in
    let small : s < 2 ^ 16 = omega arith in
    let ahead : newest sw.window_size s sw.seq_nums ≡ s =
      ground (arith, e, behind_next h c.0, v.narrow) in
    let (out, added, valid, holds) = batman_sw_addsn-IsValid sw v s s small in
    let there : has s out.seq_nums ≡ true = ground (arith, holds, ahead, behind_self s, v.wide) in
    elim (List-cases out.seq_nums) [
      | inl n ↦ absurd (ground (arith, n, there))
      | inr d ↦
          let (x, rest, n) = d in
          let (out', added', valid', holds') = batman_sw_addsn-IsValid sw v s x small in
          let same : out' ≡ out = ground (arith, added, added') in
          let near : behind s x < 2 ^ 8 = ground (arith, holds', same, n, ahead, v.narrow) in
          let first : x ≡ s = leads out s x rest valid small n there near in
          (out, added, ground (arith, n, first), there)
    ]

-- In a valid table whose timeslot knows no later time, with memory, a host gets the number after
-- the newest one for its packets to another host to which it has sent before; until the time of
-- the entry has passed, a packet with that number between these hosts is told to have come before.
pub rl_check_seq-rl_get_nextseq :
    (t : RlTable) (src_addr dest_addr time : ℕ) (e : RlPacketId) (h : ℕ) (xs : List ℕ)
    → IsValid t
    → find rl_key (src_dest src_addr dest_addr) t.rl.entrys ≡ some e
    → e.sw.seq_nums ≡ h ∷ xs
    → AllOld time t.ts.elements
    → (now : ℕ) → now < time + t.ts.purge_timeout
    → let s = (h + 1) % 2 ^ 16 in
      (t' : RlTable) × (rl_get_nextseq (true, true, true, true) t src_addr dest_addr time
        ≡ some (t', s))
      × ((rl_check_seq t' src_addr dest_addr s now).1 ≡ true)
unfolding rl_get_nextseq next_packet_seq rl_check_seq ts_purgeobjects
rl_check_seq-rl_get_nextseq t src_addr dest_addr time e h xs v found its old now lt =
    let k = src_dest src_addr dest_addr in
    let s = (h + 1) % 2 ^ 16 in
    let window : Windows.IsValid e.sw = ground (arith, found, v.windows k) in
    let (sw, added, first, there) = newest-addsn e.sw h xs window its in
    let t' = touch true t e sw time in
    let used = touch-Used t k time e sw v.keys v.selves v.slot found v.timed old in
    let (_, held) =
      purge_from_tail-Stays k (set_sw sw e) time t'.ts.purge_timeout now t'.ts.elements t'.rl
        (omega (arith, lt, used.timeout_kept)) used.only used.held in
    (
      t',
      ground (arith, found, its, added, first),
      ground (arith, held.found, is_in-has s sw.seq_nums there),
    )
