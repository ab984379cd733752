-- ===== src/Aodv/Rerr/Send.antt =====
-- How many RERRs a link break leads to.
use des_routing_algorithms.Common.{
  ℕ, zero, suc, ◌+◌, ◌*◌, ◌≤◌, ◌<◌, ◌≡◌, refl, true, none, some, List, [], ◌∷◌, length, leb, arith,
  if◌then◌else◌,
}
use des_routing_algorithms.Aodv.Timeval.{Timeval, Dessert}
use des_routing_algorithms.Aodv.SendLog.{SendLog, putrerr}
use des_routing_algorithms.Aodv.RoutingTable.Breaks.{LinkBreak}
use des_routing_algorithms.Aodv.Rerr.{
  Exts, mac_seq_size, split_at, count_dests, max_mac_seq_per_ext, add_dests, create_rerr,
  send_rerrs,
}

-- The loop that counts stops one above the maximum.
count_dests_lem :
    (max n : ℕ) (xs : List LinkBreak)
    → n ≤ max + 1
    → count_dests max n xs ≡ (if leb (n + length xs) (max + 1) then n + length xs else max + 1)
unfolding count_dests
count_dests_lem max n [] h = ground arith
count_dests_lem max n (x ∷ xs) h = ground (arith, count_dests_lem max (n + 1) xs)

split_at-length {ℓ} : {A : Type ℓ} → (xs : List A) → split_at (length xs) xs ≡ (xs, [])
split_at-length [] = refl
split_at-length (x ∷ xs) = rw (split_at-length xs) refl

module _ (x : Exts) where
  -- A list that is too long: the first extension is refused, and nothing is taken from the list.
  add_dests_stuck :
      (fuel : ℕ) (ds : List LinkBreak)
      → max_mac_seq_per_ext x < length ds
      → add_dests x fuel [] ds ≡ ([], ds)
  unfolding add_dests
  add_dests_stuck zero ds h = refl
  add_dests_stuck (suc fuel) [] h = refl
  add_dests_stuck (suc fuel) (d ∷ ds) h = ground (
    arith,
    count_dests_lem (max_mac_seq_per_ext x) 0 (d ∷ ds),
    x.too_long [] ((max_mac_seq_per_ext x + 1) * mac_seq_size),
  )

  add_dests_nil : (fuel : ℕ) (exts : List (List LinkBreak)) → add_dests x fuel exts [] ≡ (exts, [])
  unfolding add_dests
  add_dests_nil zero exts = refl
  add_dests_nil (suc fuel) exts = refl

  count_all :
      (ds : List LinkBreak)
      → length ds ≤ max_mac_seq_per_ext x
      → count_dests (max_mac_seq_per_ext x) 0 ds ≡ length ds
  count_all ds h = ground (arith, count_dests_lem (max_mac_seq_per_ext x) 0 ds)

  add_dests_once :
      (e : LinkBreak) (ds : List LinkBreak)
      → length (e ∷ ds) ≤ max_mac_seq_per_ext x
      → x.addext [] (length (e ∷ ds) * mac_seq_size) ≡ true
      → add_dests x (length (e ∷ ds)) [] (e ∷ ds) ≡ ((e ∷ ds) ∷ [], [])
  unfolding add_dests
  add_dests_once e ds h ok =
      ground
        (arith, count_all (e ∷ ds) h, split_at-length ds, add_dests_nil (length ds) ((e ∷ ds) ∷ []))

  module _ ⦃d : Dessert⦄ (ifaces : List ℕ) (timestamp now : Timeval) where
    -- If there are more destinations than MAX_MAC_SEQ_PER_EXT, then the loop that sends
    -- RERRs does not end, however many rounds it is given.
    pub send_rerrs-stuck :
        (fuel : ℕ) (ds : List LinkBreak) (log : SendLog)
        → max_mac_seq_per_ext x < length ds
        → send_rerrs x ifaces timestamp now fuel ds log ≡ none
    unfolding send_rerrs create_rerr
    send_rerrs-stuck zero ds log h = refl
    send_rerrs-stuck (suc fuel) [] log h = absurd (omega arith)
    send_rerrs-stuck (suc fuel) (e ∷ ds) log h =
        rw (add_dests_stuck (length (e ∷ ds)) (e ∷ ds) h)
          (rw (send_rerrs-stuck fuel (e ∷ ds) (putrerr log timestamp now true) h) refl)

    -- If there are destinations, at most MAX_MAC_SEQ_PER_EXT of them, and libdessert
    -- accepts an extension of their length as the first, then one RERR is sent with all of
    -- them in order, it is logged, and the loop ends within two rounds.
    pub send_rerrs-once :
        (e : LinkBreak) (ds : List LinkBreak) (log : SendLog) (fuel : ℕ)
        → length (e ∷ ds) ≤ max_mac_seq_per_ext x
        → x.addext [] (length (e ∷ ds) * mac_seq_size) ≡ true
        → 2 ≤ fuel
        → send_rerrs x ifaces timestamp now fuel (e ∷ ds) log
          ≡ some (
            record { ifaces = ifaces; dest_exts = (e ∷ ds) ∷ [] } ∷ [],
            putrerr log timestamp now true,
          )
    unfolding send_rerrs create_rerr
    send_rerrs-once e ds log zero h ok enough = absurd (omega arith)
    send_rerrs-once e ds log (suc zero) h ok enough = absurd (omega arith)
    send_rerrs-once e ds log (suc (suc fuel)) h ok enough = ground (arith, add_dests_once e ds h ok)
