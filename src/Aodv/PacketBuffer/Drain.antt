-- ===== src/Aodv/PacketBuffer/Drain.antt =====
-- Emptying the buffer when a route was found.
use des_routing_algorithms.Common.{
  ℕ, zero, suc, ◌+◌, ◌%◌, ◌^◌, ◌<◌, ◌≡◌, refl, ap, ◌∙◌, Option, none, some, List, [], ◌∷◌, find,
  Unique, length, arith, if◌then◌else◌, ◌==◌, ==_refl, find-modify_by, modify-Unique_by,
  find-delete_by, same_by, key-find, Option-cases, inl, inr, removed, written,
}
use des_routing_algorithms.Aodv.Timeslot.{dec32}
use des_routing_algorithms.Aodv.PacketBuffer.{
  PbEl, Pb, Sent, self_of, dhost_of, fl_pop_packet, pb_pop_packet, send_packets_from_buffer,
}

module _ {ℓ} {M : Type ℓ} where
  abbrev pub waiting : ℕ → Pb M → Option (PbEl M)
  waiting dhost pb = find dhost_of dhost pb.pbt.entries

  -- Entries are found by their host and by their address.
  pub record IsSound (pb : Pb M) : Type ℓ where
    pub selves : Unique self_of pb.pbt.entries
    pub dhosts : Unique dhost_of pb.pbt.entries

  -- The packets with the numbers that follow, for the next hop.
  abbrev pub stamped : ℕ → ℕ → ℕ → List M → List (Sent M)
  stamped next_hop iface n [] = []
  stamped next_hop iface n (m ∷ ms) =
      record { msg = m; u16 = (n + 1) % 2 ^ 16; ether_dhost = next_hop; iface = iface }
      ∷ stamped next_hop iface ((n + 1) % 2 ^ 16) ms

  -- The buffer after the last packet for a host was taken.
  abbrev pub Drained : Pb M → ℕ → Pb M → Type ℓ
  Drained pb dhost pb' = (h : ℕ) → waiting h pb' ≡ (if dhost == h then none else waiting h pb)

  -- Which entry a host finds: that for `dhost` and no other has its address.
  self_iff :
      (pb : Pb M) (dhost h : ℕ) (el x : PbEl M)
      → IsSound pb
      → waiting dhost pb ≡ some el
      → waiting h pb ≡ some x
      → (x.self == el.self) ≡ (dhost == h)
  self_iff pb dhost h el x v k e = ground (
    arith,
    same_by dhost_of self_of h dhost pb.pbt.entries x el v.selves e k,
    key-find dhost_of dhost pb.pbt.entries el k,
    key-find dhost_of h pb.pbt.entries x e,
  )

  popped :
      (el : PbEl M) (m : M) (ms : List M)
      → el.fl.packets ≡ m ∷ ms
      → fl_pop_packet el.fl ≡ (record { packets = ms; size = dec32 el.fl.size }, some m)
  unfolding fl_pop_packet
  popped el m ms e = rw (e, fl_pop_packet) refl

  pop_last :
      (pb : Pb M) (dhost : ℕ) (el : PbEl M) (m : M)
      → IsSound pb
      → waiting dhost pb ≡ some el
      → el.fl.packets ≡ m ∷ []
      → ((pb_pop_packet pb dhost).1 ≡ some m) × Drained pb dhost (pb_pop_packet pb dhost).0
  unfolding pb_pop_packet
  pop_last pb dhost el m v k e =
      rw (k, pb_pop_packet, popped el m [] e)
        (
          ap (λ r. r.1) (popped el m [] e),
          λ h. find-delete_by dhost_of self_of h el.self pb.pbt.entries v.dhosts v.selves ∙ taken h,
        )
    where
      taken :
          (h : ℕ)
          → removed dhost_of self_of el.self (waiting h pb)
            ≡ (if dhost == h then none else waiting h pb)
      taken h = elim (Option-cases (waiting h pb)) [
        | inl n ↦ rw n (ground arith)
        | inr (x, n) ↦ rw n (ground (arith, self_iff pb dhost h el x v k n))
      ]

  -- An entry with these packets in place of its own.
  abbrev with_packets : List M → ℕ → PbEl M → PbEl M
  with_packets ms size x = record x { fl = record { packets = ms; size = size } }

  pop_next :
      (pb : Pb M) (dhost : ℕ) (el : PbEl M) (m m' : M) (ms : List M)
      → IsSound pb
      → waiting dhost pb ≡ some el
      → el.fl.packets ≡ m ∷ m' ∷ ms
      → let (pb', msg) = pb_pop_packet pb dhost in
        (msg ≡ some m)
        × IsSound pb'
        × ((h : ℕ)
            → waiting h pb' ≡ (
                if dhost == h
                then some (with_packets (m' ∷ ms) (dec32 el.fl.size) el)
                else waiting h pb))
  unfolding pb_pop_packet
  pop_next pb dhost el m m' ms v k e =
      rw (k, pb_pop_packet, popped el m (m' ∷ ms) e)
        (rw (popped el m (m' ∷ ms) e) (
          refl,
          record {
            selves =
                modify-Unique_by self_of self_of (with_packets (m' ∷ ms) (dec32 el.fl.size))
                  (λ x. refl) el.self pb.pbt.entries v.selves;
            dhosts =
                modify-Unique_by dhost_of self_of (with_packets (m' ∷ ms) (dec32 el.fl.size))
                  (λ x. refl) el.self pb.pbt.entries v.dhosts;
          },
          λ h.
              find-modify_by dhost_of self_of (with_packets (m' ∷ ms) (dec32 el.fl.size))
                (λ x. refl) h el.self pb.pbt.entries v.selves
              ∙ kept h,
        ))
    where
      kept :
          (h : ℕ)
          → written dhost_of self_of el.self
              (with_packets (m' ∷ ms) (dec32 el.fl.size))
              (waiting h pb)
            ≡ (if dhost == h
                then some (with_packets (m' ∷ ms) (dec32 el.fl.size) el)
                else waiting h pb)
      kept h = elim (Option-cases (waiting h pb)) [
        | inl n ↦ rw n (ground (arith))
        | inr (x, n) ↦ rw n (
            ground (
              arith,
              self_iff pb dhost h el x v k n,
              same_by dhost_of self_of h dhost pb.pbt.entries x el v.selves n k,
            ))
      ]

  pop_none : (pb : Pb M) (dhost : ℕ) → waiting dhost pb ≡ none → pb_pop_packet pb dhost ≡ (pb, none)
  unfolding pb_pop_packet
  pop_none pb dhost k = rw (k, pb_pop_packet) refl

  send_end :
      (fuel : ℕ) (pb : Pb M) (dhost next_hop iface data_seq : ℕ)
      → waiting dhost pb ≡ none
      → send_packets_from_buffer (suc fuel) pb dhost next_hop iface data_seq
        ≡ some (pb, data_seq, [])
  unfolding send_packets_from_buffer
  send_end fuel pb dhost next_hop iface data_seq k =
      rw (pop_none pb dhost k, send_packets_from_buffer) (rw (pop_none pb dhost k) refl)

  send_step :
      (fuel : ℕ) (pb : Pb M) (dhost next_hop iface data_seq : ℕ) (m : M) (pb' : Pb M) (last : ℕ)
      (sent : List (Sent M))
      → (pb_pop_packet pb dhost).1 ≡ some m
      → send_packets_from_buffer fuel
          (pb_pop_packet pb dhost).0
          dhost
          next_hop
          iface
          ((data_seq + 1) % 2 ^ 16)
        ≡ some (pb', last, sent)
      → send_packets_from_buffer (suc fuel) pb dhost next_hop iface data_seq
        ≡ some (
          pb',
          last,
          record { msg = m; u16 = (data_seq + 1) % 2 ^ 16; ether_dhost = next_hop; iface = iface }
              ∷ sent,
        )
  unfolding send_packets_from_buffer
  send_step fuel pb dhost next_hop iface data_seq m pb' last sent k e =
      rw (k, send_packets_from_buffer) (rw e refl)

  -- Where packets wait for a host in a buffer without duplicate keys, sending them with fuel
  -- for one round more than there are packets ends, sends each of them once in their order
  -- with the numbers that follow, and leaves no entry for the host and all other entries as
  -- they were.
  pub send_packets_from_buffer_lem :
      (ms : List M) (m : M) (fuel : ℕ) (pb : Pb M) (dhost next_hop iface data_seq : ℕ) (el : PbEl M)
      → IsSound pb
      → waiting dhost pb ≡ some el
      → el.fl.packets ≡ m ∷ ms
      → length el.fl.packets < fuel
      → (pb' : Pb M) × (last : ℕ) × (send_packets_from_buffer fuel pb dhost next_hop iface data_seq
          ≡ some (pb', last, stamped next_hop iface data_seq (m ∷ ms)))
        × Drained pb dhost pb'
  send_packets_from_buffer_lem ms m zero pb dhost next_hop iface data_seq el v k e h =
      absurd (omega arith)
  send_packets_from_buffer_lem [] m (suc zero) pb dhost next_hop iface data_seq el v k e h =
      absurd (omega (arith, ap length e))
  send_packets_from_buffer_lem [] m (suc (suc fuel)) pb dhost next_hop iface data_seq el v k e h =
      let p = pop_last pb dhost el m v k e in
      let pb' = (pb_pop_packet pb dhost).0 in
      let gone : waiting dhost pb' ≡ none = p.1 dhost ∙ rw (==_refl dhost) refl in
      (
        pb',
        (data_seq + 1) % 2 ^ 16,
        send_step (suc fuel) pb dhost next_hop iface data_seq m pb' _ [] p.0
            (send_end fuel pb' dhost next_hop iface ((data_seq + 1) % 2 ^ 16) gone),
        p.1,
      )
  send_packets_from_buffer_lem (m' ∷ ms) m (suc fuel) pb dhost next_hop iface data_seq el v k e h =
      let p = pop_next pb dhost el m m' ms v k e in
      let pb1 = (pb_pop_packet pb dhost).0 in
      let found : waiting dhost pb1 ≡ some (with_packets (m' ∷ ms) (dec32 el.fl.size) el) =
        p.2 dhost ∙ rw (==_refl dhost) refl in
      let (pb', last, more, drained) =
        send_packets_from_buffer_lem ms m' fuel pb1 dhost next_hop iface ((data_seq + 1) % 2 ^ 16)
          (with_packets (m' ∷ ms) (dec32 el.fl.size) el) p.1 found refl
          (omega (arith, ap length e)) in
      (
        pb',
        last,
        send_step fuel pb dhost next_hop iface data_seq m pb' last _ p.0 more,
        λ o. ground (arith, drained o, p.2 o),
      )
