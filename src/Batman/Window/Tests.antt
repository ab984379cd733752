-- ===== src/Batman/Window/Tests.antt =====
-- Runs of a sliding window, and the theorems on it at these values.
use des_routing_algorithms.Common.{◌≡◌, refl, arith, true, some, [], ◌∷◌}
use des_routing_algorithms.Batman.Window.{
  Sw, batman_sw_addsn, batman_sw_dropsn, drop_from_tail, place, hf_seq_comp_i_j,
}
use des_routing_algorithms.Batman.Window.Compare.{behind}
use des_routing_algorithms.Batman.Window.Chain.{IsValid}
use des_routing_algorithms.Batman.Window.Add.{newest, Holds, batman_sw_addsn-IsValid}

-- The numbers 2, 0 and 65535, across the end of the circle.
abbrev window : Sw
window = record { seq_nums = 2 ∷ 0 ∷ 65535 ∷ []; size = 3; window_size = 4 }

window-IsValid : IsValid window
unfolding behind
window-IsValid = record {
  desc = (
    omega arith,
    omega arith,
    omega arith,
    (omega arith, omega arith, omega arith, (omega arith, omega arith, omega arith, tt)),
  );
  counted = refl;
  wide = omega arith;
  narrow = omega arith;
}

added_between :
    batman_sw_addsn true window 1
    ≡ some (record window { seq_nums = 2 ∷ 1 ∷ 0 ∷ 65535 ∷ []; size = 4 }, true)
unfolding batman_sw_addsn batman_sw_dropsn drop_from_tail place hf_seq_comp_i_j
added_between = refl

added_ahead :
    batman_sw_addsn true window 4 ≡ some (record window { seq_nums = 4 ∷ 2 ∷ []; size = 2 }, true)
unfolding batman_sw_addsn batman_sw_dropsn drop_from_tail place hf_seq_comp_i_j
added_ahead = refl

batman_sw_addsn-IsValid_example :
    (out : Sw) × (batman_sw_addsn true window 4 ≡ some (out, true))
    × IsValid out
    × Holds (newest 4 4 (2 ∷ 0 ∷ 65535 ∷ [])) 4 65535 4 window out
batman_sw_addsn-IsValid_example =
    batman_sw_addsn-IsValid window window-IsValid 4 65535 (omega arith)
