-- ===== src/Batman/Window.antt =====
-- des-batman/trunk/src/database/routing_table/batman_sw.c: the sequence numbers that were received
-- over a next hop, from the newest on, and the comparison of numbers in helper.c.
pub mod Compare
pub mod Chain
pub mod Drop
pub mod DropSn
pub mod Place
pub mod Add
mod Tests
use des_routing_algorithms.Common.{
  ℕ, suc, ◌+◌, ◌-◌, ◌%◌, ◌^◌, Bool, true, false, not, Option, none, some, List, [], ◌∷◌, ltb, leb,
  ◌==◌, if◌then◌else◌, ℤ, pos, negsuc, is_neg,
}

-- The list of a window from the head on, by the links `prev`; `size` has 16 bits.
pub record Sw : Type 0 where
  pub seq_nums : List ℕ
  pub size : ℕ
  pub window_size : ℕ

-- SEQNO_MAX >> 1
abbrev pub half_seqno : ℕ
half_seqno = 32767

unfoldable pub hf_seq_comp_i_j : ℕ → ℕ → ℤ
hf_seq_comp_i_j i j =
    if i == j then pos 0 else if ltb ((i + 2 ^ 16 - j) % 2 ^ 16) half_seqno then pos 1 else negsuc 0

-- `hf_seq_comp_i_j(i, j + window_size) >= 0`, where the sum is cut to 16 bits.
abbrev pub beyond : ℕ → ℕ → ℕ → Bool
beyond window_size i j = not (is_neg (hf_seq_comp_i_j i ((j + window_size) % 2 ^ 16)))

abbrev pub batman_sw_create : (malloc : Bool) → ℕ → Option Sw
batman_sw_create malloc ws =
    if malloc then some (record { seq_nums = []; size = 0; window_size = ws }) else none

-- The loop of `batman_sw_dropsn`, which goes from the tail on: what is left, and how many it
-- freed.
abbrev pub drop_last : Bool → ℕ → List ℕ × ℕ → List ℕ × ℕ
drop_last gone x ([], freed) = if gone then ([], suc freed) else (x ∷ [], freed)
drop_last gone x (y ∷ ys, freed) = (x ∷ y ∷ ys, freed)

unfoldable pub drop_from_tail : ℕ → ℕ → List ℕ → List ℕ × ℕ
drop_from_tail ws seq_num [] = ([], 0)
drop_from_tail ws seq_num (x ∷ xs) =
    drop_last (beyond ws seq_num x) x (drop_from_tail ws seq_num xs)

unfoldable pub batman_sw_dropsn : Sw → ℕ → Sw
batman_sw_dropsn sw seq_num =
    let (left, freed) = drop_from_tail sw.window_size seq_num sw.seq_nums in
    record sw { seq_nums = left; size = (sw.size + 2 ^ 16 - freed) % 2 ^ 16 }

-- The search for the place of a number, from the head on, and its insertion; `none` if it is
-- there.
abbrev pub consed : ℕ → Option (List ℕ) → Option (List ℕ)
consed x none = none
consed x (some xs) = some (x ∷ xs)

unfoldable pub place : ℕ → List ℕ → Option (List ℕ)
place seq_num [] = some (seq_num ∷ [])
place seq_num (x ∷ []) =
    if x == seq_num
    then none
    else if is_neg (hf_seq_comp_i_j x seq_num)
    then some (seq_num ∷ x ∷ [])
    else some (x ∷ seq_num ∷ [])
place seq_num (x ∷ y ∷ ys) =
    let rest = place seq_num (y ∷ ys) in
    if is_neg (hf_seq_comp_i_j x seq_num)
    then some (seq_num ∷ x ∷ y ∷ ys)
    else if x == seq_num
    then none
    else consed x rest

-- A number was inserted.
abbrev pub grown : Sw → List ℕ → Sw
grown sw [] = sw
grown sw (head ∷ xs) =
    batman_sw_dropsn (record sw { seq_nums = head ∷ xs; size = (sw.size + 1) % 2 ^ 16 }) head

-- The rest of `batman_sw_addsn`, after the test of the head.
abbrev pub insert_sn : (malloc : Bool) → Sw → ℕ → Option (List ℕ) → Sw × Bool
insert_sn malloc sw seq_num none = (sw, true)
insert_sn malloc sw seq_num (some xs) = if malloc then (grown sw xs, true) else (sw, false)

-- A first number.
abbrev pub first_sn : (malloc : Bool) → Sw → ℕ → Sw × Bool
first_sn malloc sw seq_num =
    if malloc then (record sw { seq_nums = seq_num ∷ []; size = 1 }, true) else (sw, false)

-- `none` where the search starts at the head of an empty list.
unfoldable pub batman_sw_addsn : (malloc : Bool) → Sw → ℕ → Option (Sw × Bool)
batman_sw_addsn malloc sw seq_num = elim sw.seq_nums [
  | [] ↦ if sw.size == 0 then some (first_sn malloc sw seq_num) else none
  | head ∷ xs ↦
      if beyond sw.window_size head seq_num
      then some (sw, true)
      else if sw.size == 0
      then some (first_sn malloc sw seq_num)
      else some (insert_sn malloc sw seq_num (place seq_num (head ∷ xs)))
]

-- `none` where the head of an empty window is followed.
unfoldable pub batman_sw_chage_size : Sw → ℕ → Option Sw
batman_sw_chage_size sw ws = elim sw.seq_nums [
  | [] ↦ none
  | head ∷ xs ↦ some (batman_sw_dropsn (record sw { window_size = ws }) head)
]
