-- ===== src/Aodv/DataSeq/Newer.antt =====
-- Which numbers of data packets count as newer.
use des_routing_algorithms.Common.{
  ℕ, ◌+◌, ◌%◌, ◌^◌, ◌<◌, ◌≡◌, refl, Bool, true, false, some, find, arith,
}
use des_routing_algorithms.Aodv.Timeval.{Timeval, Dessert}
use des_routing_algorithms.Aodv.DataSeq.{DataPacketId, DataSeq, src_of, newer, capt_data_seq}

-- A number that is ahead of a 16-bit number by less than 2 ^ 15, also across the wrap-around,
-- is newer, and the same number is not.
pub newer_ahead :
    (n d : ℕ)
    → n < 2 ^ 16
    → 0 < d
    → d < 2 ^ 15
    → (newer n ((n + d) % 2 ^ 16) ≡ true) × (newer n n ≡ false)
unfolding newer
newer_ahead n d h k l = ground arith

pub newer_self : (n : ℕ) → newer n n ≡ false
unfolding newer
newer_self n = ground arith

-- Numbers that are more than 2 ^ 15 apart are newer than each other.
pub newer_far : (a b : ℕ) → a + 2 ^ 15 < b → (newer b a ≡ true) × (newer a b ≡ true)
unfolding newer
newer_far a b h = ground arith

module _ ⦃d : Dessert⦄ where
  pub refused :
      (ds : DataSeq) (src seq : ℕ) (timestamp now : Timeval) (malloc : Bool × Bool)
      (e : DataPacketId)
      → find src_of src ds.ids.entries ≡ some e
      → newer e.seq_num seq ≡ false
      → capt_data_seq ds src seq timestamp now malloc ≡ (ds, false)
  unfolding capt_data_seq
  refused ds src seq timestamp now malloc e k h = rw (k, capt_data_seq) (rw h refl)

  pub taken :
      (ds : DataSeq) (src seq : ℕ) (timestamp now : Timeval) (malloc : Bool × Bool)
      (e : DataPacketId)
      → find src_of src ds.ids.entries ≡ some e
      → newer e.seq_num seq ≡ true
      → (capt_data_seq ds src seq timestamp now malloc).1 ≡ true
  unfolding capt_data_seq
  taken ds src seq timestamp now malloc e k h = rw (k, capt_data_seq) (rw h refl)
