-- ===== src/Aodv/PdrTracker/Drift.antt =====
-- What a HELLO adds to the number of a neighbor's window.
use des_routing_algorithms.Common.{
  ℕ, ◌+◌, ◌%◌, ◌^◌, ◌<◌, ◌≡◌, Bool, none, find, if◌then◌else◌, length, arith, Option-cases, inl,
  inr, Bool-cases, [], ◌∷◌, found_by, find-append,
}
use des_routing_algorithms.Aodv.Timeval.{Timeval, Dessert}
use des_routing_algorithms.Aodv.PdrTracker.{PdrEntry, msg_of, seq_of}
use des_routing_algorithms.Aodv.PdrTracker.Capture.{capture_hello}
use des_routing_algorithms.Aodv.PdrTracker.Hellos.{
  present, Counts, Counted, addobject-Counts, grown, grown-Counts,
}

-- A HELLO whose number is in the window already raises the window's number all the same, and no
-- purge counts it off again; a HELLO with a new number is counted once, or not at all without
-- memory for it. The timeslot has room for an element, and the address of the new message is not in
-- use.
pub capture_hello-Counted :
    ⦃d : Dessert⦄ (n : ℕ) (e : PdrEntry) (brk hello_seq : ℕ) (timestamp now : Timeval)
    (malloc : Bool × Bool)
    → Counted n e
    → length e.ts.elements + 1 < 2 ^ 32
    → find msg_of brk e.window.msg_list ≡ none
    → Counted
        (if present (find seq_of hello_seq e.window.msg_list) then n + 1 else n)
        (capture_hello e brk hello_seq timestamp now malloc).0
unfolding capture_hello
capture_hello-Counted n e brk hello_seq timestamp now (m_hello, m_el) c room free =
    let w : Counts n e.window e.ts.elements = c.counts in
    elim (Option-cases (find seq_of hello_seq e.window.msg_list)) [
      | inl f ↦
          rw (capture_hello, f)
            (elim (Bool-cases m_hello) [
              | inl m ↦ rw m (
                  let (s, k) =
                    addobject-Counts n e timestamp now room c.slot m_el brk
                      (grown n e timestamp now room c.slot brk hello_seq c)
                      (grown-Counts n e timestamp now room c.slot brk hello_seq c free f)
                      (ground (
                        arith,
                        find-append msg_of brk e.window.msg_list
                            (record { self = brk; seq_num = hello_seq } ∷ []),
                      )) in
                  record { slot = s; counts = k })
              | inr m ↦ rw m c
            ])
      | inr (x, f) ↦
          rw (capture_hello, f)
            (let (s, k) =
                addobject-Counts (n + 1) e timestamp now room c.slot m_el x.self
                  (record (e.window) { rcvd_hello_count = (e.window.rcvd_hello_count + 1) % 2 ^ 8 })
                  (record {
                    no_fault = w.no_fault;
                    msgs = w.msgs;
                    seqs = w.seqs;
                    held = w.held;
                    counted = omega (arith, w.counted);
                  })
                  (ground (arith, found_by seq_of msg_of hello_seq e.window.msg_list x)) in
              record { slot = s; counts = k })
    ]
