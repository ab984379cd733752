-- ===== src/Aodv/Rerr/Tests.antt =====
-- Runs of the sending of RERRs, and the theorems on it at these values.
use des_routing_algorithms.Common.{
  ℕ, ◌<◌, ◌≡◌, ◌≢◌, inl, inr, is_pos, refl, arith, Bool, false, none, List, [], ◌∷◌, leb,
}
use des_routing_algorithms.Aodv.Timeval.Clock.{clock, seconds}
use des_routing_algorithms.Aodv.SendLog.{SendLog, one_second}
use des_routing_algorithms.Aodv.RoutingTable.Breaks.{LinkBreak}
use des_routing_algorithms.Aodv.Helper.{comp_u32}
use des_routing_algorithms.Aodv.RoutingTable.Defs.{Rt, unused}
use des_routing_algorithms.Aodv.RoutingTable.Purge.{entry_for}
use des_routing_algorithms.Aodv.RoutingTable.Valid.{IsValid}
use des_routing_algorithms.Aodv.RoutingTable.Forwarding.{route_of}
use des_routing_algorithms.Aodv.Rerr.Receive.{handle_rerr}
use des_routing_algorithms.Aodv.Rerr.Routes.{Shrinks, handle_rerr-Shrinks}
use des_routing_algorithms.Aodv.Rerr.Affected.{handle_rerr-Gone}
use des_routing_algorithms.Aodv.Rerr.{Rerr, Exts, send_rerrs}
use des_routing_algorithms.Aodv.Rerr.Send.{send_rerrs-stuck}

-- Extensions of 25 bytes at most, which is room for two destinations.
abbrev small : List ℕ → ℕ → Bool
small before len = leb len 25

small_too_long : (before : List ℕ) (len : ℕ) → 25 < len → small before len ≡ false
small_too_long before len h = ground arith

abbrev two_each : Exts
two_each = record { max_data = 25; addext = small; too_long = small_too_long }

abbrev lost : ℕ → LinkBreak
lost host = record { host = host; sequence_number = 1 }

abbrev log : SendLog
log = record {
  ts = record { elements = []; size = 0; purge_timeout = one_second };
  count = 0;
  pseudo_pointer = 0;
}

send_rerrs-stuck_example :
    send_rerrs two_each (9 ∷ []) (seconds 5) (seconds 5) 100 (lost 1 ∷ lost 2 ∷ lost 3 ∷ []) log
    ≡ none
send_rerrs-stuck_example =
    send_rerrs-stuck two_each (9 ∷ []) (seconds 5) (seconds 5) 100 (lost 1 ∷ lost 2 ∷ lost 3 ∷ [])
      log (omega arith)

-- A route to host 20 over the neighbor 30, with the number 5.
abbrev rt : Rt
rt = record {
  tables = record {
    entries =
        record {
          self = 1;
          addr = 20;
          next_hop = 30;
          output_iface = 2;
          sequence_number = 5;
          metric = 3;
          hop_count = 3;
          flags = unused;
          precursor_list = [];
        }
        ∷ [];
    nht = [];
    fault = false;
  };
  ts = record { elements = []; size = 0; purge_timeout = seconds 6 };
  brk = 2;
}

rt-IsValid : IsValid rt
rt-IsValid = record {
  slot = record { desc = tt; unique = tt; counted = refl; fits = omega arith };
  sound = record { addrs = (refl, tt); selves = (refl, tt); no_fault = refl };
  fresh = λ p h. ground arith;
  owned = λ p h. refl;
}

-- The neighbor with the interfaces 30 and 31 has lost host 20.
abbrev received : Rerr
received = record {
  ifaces = 31 ∷ 30 ∷ [];
  dest_exts = (record { host = 20; sequence_number = 6 } ∷ []) ∷ [];
}

handle_rerr-Shrinks_example : Shrinks rt (handle_rerr (9 ∷ []) received rt).0
handle_rerr-Shrinks_example = handle_rerr-Shrinks (9 ∷ []) received rt rt-IsValid

behind : is_pos (comp_u32 5 6) ≡ false
unfolding comp_u32
behind = refl

handle_rerr-Gone_example :
    let (rt', resent) = handle_rerr (9 ∷ []) received rt in
    (route_of (entry_for 20 rt'.tables) ≡ none) × (resent ≢ none)
handle_rerr-Gone_example =
    handle_rerr-Gone (9 ∷ []) received rt (record { host = 20; sequence_number = 6 }) 30 5 behind
      rt-IsValid refl (inr (inl refl)) (inl (inl refl))
