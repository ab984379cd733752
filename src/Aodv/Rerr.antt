-- ===== src/Aodv/Rerr.antt =====
-- des-aodv/trunk/src/pipeline/aodv_periodic.c: the RERRs after a link break. Memory for the log is given.
pub mod Send
pub mod Receive
pub mod Routes
pub mod Affected
mod Tests
use des_routing_algorithms.Common.{
  ℕ, zero, suc, ◌+◌, ◌*◌, ◌/◌, ◌≡◌, ◌<◌, Bool, true, false, not, Option, none, some, List, [], ◌∷◌,
  ◌++◌, length, leb, if◌then◌else◌,
}
use des_routing_algorithms.Aodv.Timeval.{Timeval, Dessert}
use des_routing_algorithms.Aodv.SendLog.{SendLog, getrerrcount, putrerr}
use des_routing_algorithms.Aodv.RoutingTable.Defs.{Tables}
use des_routing_algorithms.Aodv.RoutingTable.Breaks.{LinkBreak, get_destlist, inv_over_nexthop}

-- libdessert's extensions: DESSERT_MAXEXTDATALEN, and whether `dessert_msg_addext` adds one of a
-- length in bytes to a message with extensions of these lengths. It refuses what is too long.
pub record Exts : Type 0 where
  pub max_data : ℕ
  pub addext : List ℕ → ℕ → Bool
  pub too_long : (before : List ℕ) (len : ℕ) → max_data < len → addext before len ≡ false

-- sizeof(struct aodv_mac_seq): an address of six bytes and a number of four.
abbrev pub mac_seq_size : ℕ
mac_seq_size = 10

-- A RERR with the addresses of the interfaces and its lists of destinations, an extension each.
pub record Rerr : Type 0 where
  pub ifaces : List ℕ
  pub dest_exts : List (List LinkBreak)

-- The first elements of the list, as many as the number says, and those behind them.
abbrev pub split_at {ℓ} : {A : Type ℓ} → ℕ → List A → List A × List A
split_at zero xs = ([], xs)
split_at (suc n) [] = ([], [])
split_at (suc n) (x ∷ xs) = let (front, rest) = split_at n xs in (x ∷ front, rest)

-- `for(…; (dl_len <= MAX_MAC_SEQ_PER_EXT) && count_iter; ++dl_len, …)` from `dl_len` on.
unfoldable pub count_dests : ℕ → ℕ → List LinkBreak → ℕ
count_dests max dl_len [] = dl_len
count_dests max dl_len (x ∷ xs) =
    let more = count_dests max (dl_len + 1) xs in if leb dl_len max then more else dl_len

module _ (x : Exts) where
  abbrev pub max_mac_seq_per_ext : ℕ
  max_mac_seq_per_ext = x.max_data / mac_seq_size

  abbrev pub lengths : List (List LinkBreak) → List ℕ
  lengths [] = []
  lengths (ds ∷ exts) = length ds * mac_seq_size ∷ lengths exts

  -- `while(*destlist)`: the extensions, and what is left of the list. Fuel for a round each.
  unfoldable pub add_dests :
      ℕ → List (List LinkBreak) → List LinkBreak → List (List LinkBreak) × List LinkBreak
  add_dests zero exts destlist = (exts, destlist)
  add_dests (suc fuel) exts [] = (exts, [])
  add_dests (suc fuel) exts (d ∷ ds) =
      let dl_len = count_dests max_mac_seq_per_ext 0 (d ∷ ds) in
      let (front, rest) = split_at dl_len (d ∷ ds) in
      let next = add_dests fuel (exts ++ front ∷ []) rest in
      if x.addext (lengths exts) (dl_len * mac_seq_size) then next else (exts, d ∷ ds)

  -- The message, if any, and what is left of the list.
  unfoldable pub create_rerr : List ℕ → List LinkBreak → Option Rerr × List LinkBreak
  create_rerr ifaces [] = (none, [])
  create_rerr ifaces (d ∷ ds) =
      let (exts, rest) = add_dests (length (d ∷ ds)) [] (d ∷ ds) in
      (some (record { ifaces = ifaces; dest_exts = exts }), rest)

  module _ ⦃d : Dessert⦄ (ifaces : List ℕ) (timestamp now : Timeval) where
    -- `while(true)` in the case AODV_SC_SEND_OUT_RERR: the messages that are sent and the log.
    -- `none` says that the rounds, as many as the fuel, did not end the loop.
    unfoldable pub send_rerrs : ℕ → List LinkBreak → SendLog → Option (List Rerr × SendLog)
    send_rerrs zero destlist log = none
    send_rerrs (suc fuel) destlist log =
        let (msg, rest) = create_rerr ifaces destlist in
        let next = send_rerrs fuel rest (putrerr log timestamp now true) in
        elim msg [
          | none ↦ some ([], log)
          | some m ↦ elim next [ none ↦ none | some (ms, log') ↦ some (m ∷ ms, log') ]
        ]

    -- RERR_RATELIMIT
    abbrev pub rerr_ratelimit : ℕ
    rerr_ratelimit = 10

    -- The case AODV_SC_SEND_OUT_RERR of `aodv_periodic_scexecute`.
    unfoldable pub send_out_rerr :
        ℕ → Tables → SendLog → (ether_addr : ℕ) → Tables × Option (List Rerr × SendLog)
    send_out_rerr fuel t log ether_addr =
        let (log1, rerr_count) = getrerrcount log timestamp in
        let (t1, known) = inv_over_nexthop t ether_addr in
        let (t2, destlist) = get_destlist t1 ether_addr in
        if leb rerr_ratelimit rerr_count
        then (t, some ([], log1))
        else if not known
        then (t1, some ([], log1))
        else elim destlist [
          | none ↦ (t2, some ([], log1))
          | some ds ↦ (t2, send_rerrs fuel ds log1)
        ]
