-- ===== src/Aodv/PdrTracker/Hellos.antt =====
-- What the number of HELLOs in a neighbor's window counts.
use des_routing_algorithms.Common.{
  ℕ, ◌+◌, ◌%◌, ◌^◌, ◌<◌, ◌≡◌, refl, Bool, true, false, Option, none, some, List, [], ◌∷◌, ◌++◌,
  find, Unique, if◌then◌else◌, ◌==◌, length, arith, Option-cases, inl, inr, find-append,
  append-Unique, delete-Unique, delete-Unique_by, find-delete_ne, find-delete_self, length-delete,
  length-append,
}
use des_routing_algorithms.Aodv.Timeval.{Timeval, Dessert, micros}
use des_routing_algorithms.Aodv.Timeslot.{
  TsElement, Timeslot, object_of, timeslot_addobject, timeslot_addobject_varpurge,
}
use des_routing_algorithms.Aodv.Timeslot.Order.{live, expired}
use des_routing_algorithms.Aodv.Timeslot.Lookup.{find-live, find-expired, expired-Unique}
use des_routing_algorithms.Aodv.Timeslot.Purge.{purge_all}
use des_routing_algorithms.Aodv.Timeslot.Valid as Slot
use des_routing_algorithms.Aodv.Timeslot.Add as Add
use des_routing_algorithms.Aodv.PdrTracker.{Window, PdrEntry, msg_of, seq_of, purge_hello_msg}
use des_routing_algorithms.Aodv.PdrTracker.Metrics.{pdr_nt_cleanup}

abbrev pub present {ℓ} : {A : Type ℓ} → Option A → Bool
present none = false
present (some _) = true

-- A window whose number is that of its messages and `n` more, as one byte, and whose timeslot holds
-- no other objects than its messages.
pub record Counts (n : ℕ) (w : Window) (es : List TsElement) : Type 0 where
  pub no_fault : w.fault ≡ false
  pub msgs : Unique msg_of w.msg_list
  pub seqs : Unique seq_of w.msg_list
  pub held :
      (o : ℕ) → present (find object_of o es) ≡ true → present (find msg_of o w.msg_list) ≡ true
  pub counted : w.rcvd_hello_count ≡ (length w.msg_list + n) % 2 ^ 8

pub record Counted (n : ℕ) (e : PdrEntry) : Type 0 where
  pub slot : Slot.IsValid e.ts
  pub counts : Counts n e.window e.ts.elements

with_held :
    (n : ℕ) (w : Window) (es fs : List TsElement)
    → Counts n w es
    → ((o : ℕ) → present (find object_of o fs) ≡ true → present (find msg_of o w.msg_list) ≡ true)
    → Counts n w fs
with_held n w es fs c h = record {
  no_fault = c.no_fault;
  msgs = c.msgs;
  seqs = c.seqs;
  held = h;
  counted = c.counted;
}

purge_hello_msg-Counts :
    (ts : Timeval) (o n : ℕ) (w : Window)
    → Counts n w []
    → present (find msg_of o w.msg_list) ≡ true
    → Counts n (purge_hello_msg ts o w) []
unfolding purge_hello_msg
purge_hello_msg-Counts ts o n w c h = elim (Option-cases (find msg_of o w.msg_list)) [
  | inl e ↦ ground (arith)
  | inr (m, e) ↦
      rw (purge_hello_msg, e)
        (record {
          no_fault = c.no_fault;
          msgs = delete-Unique msg_of o w.msg_list c.msgs;
          seqs = delete-Unique_by seq_of msg_of o w.msg_list c.seqs;
          held = λ p f. cc;
          counted = omega (arith, length-delete msg_of o w.msg_list m e, c.counted);
        })
]

find-purge_hello_msg :
    (ts : Timeval) (o p : ℕ) (w : Window)
    → Unique msg_of w.msg_list
    → find msg_of p (purge_hello_msg ts o w).msg_list
      ≡ (if o == p then none else find msg_of p w.msg_list)
unfolding purge_hello_msg
find-purge_hello_msg ts o p w u =
    ground (arith, find-delete_ne msg_of p o w.msg_list, find-delete_self msg_of o w.msg_list u)

module _ ⦃d : Dessert⦄ where
  -- A purge of these elements takes the message of each from the window, and counts it off.
  purge_all-Counts :
      (n : ℕ) (w : Window) (es : List TsElement)
      → Unique object_of es
      → Counts n w es
      → Counts n (purge_all purge_hello_msg w es) []
        × ((o : ℕ)
            → find msg_of o (purge_all purge_hello_msg w es).msg_list
              ≡ (if present (find object_of o es) then none else find msg_of o w.msg_list))
  purge_all-Counts n w [] u c = (c, λ o. refl)
  purge_all-Counts n w (x ∷ es) u c =
      let (k, look) =
        purge_all-Counts n w es u.1
          (with_held n w (x ∷ es) es c (λ o h. ground (arith, c.held o))) in
      (
        purge_hello_msg-Counts x.purge_time x.object n (purge_all purge_hello_msg w es) k
            (ground (arith, look x.object, c.held x.object)),
        λ o. ground (
          arith,
          look o,
          find-purge_hello_msg x.purge_time x.object o (purge_all purge_hello_msg w es) k.msgs,
        ),
      )

  -- A purge of the expired elements leaves a window for the others.
  live-Counts :
      (n now : ℕ) (w : Window) (es : List TsElement)
      → Unique object_of es
      → Counts n w es
      → Counts n (purge_all purge_hello_msg w (expired now es)) (live now es)
  live-Counts n now w es u c =
      let (k, look) = purge_all-Counts n w (expired now es) (expired-Unique now es u) (
        with_held n w es (expired now es) c
          (λ o h. ground (arith, c.held o, find-expired o now es u))) in
      with_held n _ [] (live now es) k
        (λ o h. ground (arith, look o, c.held o, find-expired o now es u, find-live o now es u))

  -- A purge of a neighbor's window counts off the messages that it removes, each once.
  pdr_nt_cleanup-Counted :
      (n : ℕ) (e : PdrEntry) (now : Timeval) → Counted n e → Counted n (pdr_nt_cleanup e now)
  unfolding pdr_nt_cleanup
  pdr_nt_cleanup-Counted n e now c = record {
    slot = Slot.purgeobjects-IsValid purge_hello_msg e.ts now e.window c.slot;
    counts =
        rw (Slot.purgeobjects_lem purge_hello_msg e.ts now e.window c.slot)
          (live-Counts n (micros now) e.window e.ts.elements c.slot.unique c.counts);
  }

  module _ (n : ℕ) (e : PdrEntry) (timestamp now : Timeval)
      (room : length e.ts.elements + 1 < 2 ^ 32) (slot : Slot.IsValid e.ts) where
    -- The object is that of a message of the window.
    pub addobject-Counts :
        (malloc : Bool) (o : ℕ) (w : Window)
        → Counts n w e.ts.elements
        → present (find msg_of o w.msg_list) ≡ true
        → let (ts', w', _) = timeslot_addobject purge_hello_msg e.ts timestamp o now malloc w in
          Slot.IsValid ts' × Counts n w' ts'.elements
    unfolding timeslot_addobject timeslot_addobject_varpurge
    addobject-Counts false o w c h = (slot, c)
    addobject-Counts true o w c h = (
      Add.addobject_varpurge-IsValid purge_hello_msg e.ts timestamp e.ts.purge_timeout now o slot
          true w room,
      Add.addobject_varpurge_cases purge_hello_msg e.ts timestamp e.ts.purge_timeout now o slot
          (λ (r : Timeslot × Window × Bool). Counts n r.1 r.0.elements) w room
          (λ m. with_held n w e.ts.elements _ c (λ p f. ground (arith, h)))
          (λ u v look m t. live-Counts n (micros now) w u.elements v.unique (
            with_held n w e.ts.elements u.elements c (λ p f. ground (arith, look p, c.held p, h)))),
    )

    module _ (brk hello_seq : ℕ) (c : Counted n e) where
      -- The window with a new message.
      abbrev pub grown : Window
      grown = record (e.window) {
        msg_list = e.window.msg_list ++ record { self = brk; seq_num = hello_seq } ∷ [];
        rcvd_hello_count = (e.window.rcvd_hello_count + 1) % 2 ^ 8;
      }

      pub grown-Counts :
          find msg_of brk e.window.msg_list ≡ none
          → find seq_of hello_seq e.window.msg_list ≡ none
          → Counts n grown e.ts.elements
      grown-Counts f s =
          let w : Counts n e.window e.ts.elements = c.counts in
          record {
            no_fault = w.no_fault;
            msgs =
                append-Unique msg_of e.window.msg_list (record { self = brk; seq_num = hello_seq })
                  w.msgs f;
            seqs =
                append-Unique seq_of e.window.msg_list (record { self = brk; seq_num = hello_seq })
                  w.seqs s;
            held = λ o h. ground (
              arith,
              w.held o,
              find-append msg_of o e.window.msg_list
                  (record { self = brk; seq_num = hello_seq } ∷ []),
            );
            counted = omega (
              arith,
              w.counted,
              length-append e.window.msg_list (record { self = brk; seq_num = hello_seq } ∷ []),
            );
          }
