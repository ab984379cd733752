-- ===== src/Batman/Window/DropSn.antt =====
-- `batman_sw_dropsn` with the number of the head.
use des_routing_algorithms.Common.{
  ℕ, suc, ◌+◌, ◌^◌, ◌≤◌, ◌<◌, ◌≡◌, true, ◌&&◌, List, [], ◌∷◌, arith, ltb, length,
}
use des_routing_algorithms.Batman.Window.{Sw, half_seqno, drop_from_tail, batman_sw_dropsn}
use des_routing_algorithms.Batman.Window.Compare.{behind, behind_self}
use des_routing_algorithms.Batman.Window.Chain.{Chain, IsDesc, has, IsValid, has-Chain}
use des_routing_algorithms.Batman.Window.Drop.{drop_from_tail-IsDropped}

Chain-IsDesc : (h bound : ℕ) (xs : List ℕ) → Chain h bound 0 xs → has h xs ≡ true → IsDesc bound xs
Chain-IsDesc h bound [] c e = tt
Chain-IsDesc h bound (x ∷ xs) c e =
    ground (arith, c, e, behind_self h, has-Chain h bound (suc (behind h x)) h xs)

-- Dropping what is beyond the window of the head.
pub dropsn-IsValid :
    (sw : Sw) (h bound : ℕ)
    → h < 2 ^ 16
    → 2 ≤ sw.window_size
    → sw.window_size < 2 ^ 8
    → bound ≤ sw.window_size + half_seqno
    → Chain h bound 0 sw.seq_nums
    → has h sw.seq_nums ≡ true
    → sw.size ≡ length sw.seq_nums
    → sw.size < 2 ^ 16
    → IsValid (batman_sw_dropsn sw h)
unfolding batman_sw_dropsn
dropsn-IsValid sw h bound a wide narrow half c newest counted fits =
    let ws = sw.window_size in
    let left = (drop_from_tail ws h sw.seq_nums).0 in
    let dropped = drop_from_tail-IsDropped h ws bound 0 sw.seq_nums a narrow half c in
    record {
      desc =
          Chain-IsDesc h ws left dropped.chain
            (ground (arith, dropped.inside h, newest, behind_self h, wide));
      counted = omega (arith, dropped.counted, counted, fits);
      wide = wide;
      narrow = narrow;
    }

pub dropsn-has :
    (sw : Sw) (h bound k : ℕ)
    → h < 2 ^ 16
    → sw.window_size < 2 ^ 8
    → bound ≤ sw.window_size + half_seqno
    → Chain h bound 0 sw.seq_nums
    → has k (batman_sw_dropsn sw h).seq_nums
      ≡ (has k sw.seq_nums && ltb (behind h k) sw.window_size)
unfolding batman_sw_dropsn
dropsn-has sw h bound k a narrow half c =
    (drop_from_tail-IsDropped h sw.window_size bound 0 sw.seq_nums a narrow half c).inside k
