-- ===== src/Aodv/PdrTracker/Capture.antt =====
-- The HELLOs and the answers to them that are counted.
use des_routing_algorithms.Common.{
  ℕ, ◌+◌, ◌*◌, ◌%◌, ◌^◌, Bool, true, false, Option, none, some, List, [], ◌∷◌, ◌++◌, find, modify,
  leb, ◌==◌, if◌then◌else◌,
}
use des_routing_algorithms.Aodv.Timeval.{Timeval, Dessert}
use des_routing_algorithms.Aodv.Timeslot.{
  timeslot_create, timeslot_addobject, timeslot_addobject_varpurge,
}
use des_routing_algorithms.Aodv.PdrTracker.{
  HelloMsg, PdrEntry, Pdr, self_of, neighbor_of, seq_of, min_tracking_interval, expected,
  purge_hello_msg, purge_nb, neighbor_entry_create, neighbor_entry_update,
}

module _ ⦃d : Dessert⦄ where
  -- The entry lives on from now; the entries that have expired go.
  unfoldable pub refresh_neighbor : Pdr → PdrEntry → Timeval → Timeval → Bool → Pdr
  refresh_neighbor st e timestamp now malloc =
      let (ts', nbs', _) =
        timeslot_addobject_varpurge purge_nb st.ts timestamp e.self e.purge_tv now malloc st.nbs in
      record st { ts = ts'; nbs = nbs' }

  -- A HELLO in a neighbor's window: `brk` is the address of a new message, and the result is whether
  -- there is memory for it.
  unfoldable pub capture_hello :
      PdrEntry
      → (brk hello_seq : ℕ) (timestamp now : Timeval) (malloc : Bool × Bool) → PdrEntry × Bool
  capture_hello e brk hello_seq timestamp now (m_hello, m_el) =
      let w = e.window in
      let add = λ (object : ℕ) (msgs : List HelloMsg).
        let (ts', w', _) =
          timeslot_addobject purge_hello_msg e.ts timestamp object now m_el
            (record w { msg_list = msgs; rcvd_hello_count = (w.rcvd_hello_count + 1) % 2 ^ 8 }) in
        record e { ts = ts'; window = w' } in
      elim (find seq_of hello_seq w.msg_list) [
        | none ↦
            if m_hello
            then (add brk (w.msg_list ++ record { self = brk; seq_num = hello_seq } ∷ []), true)
            else (e, false)
        | some m ↦ (add m.self w.msg_list, true)
      ]

module _ ⦃d : Dessert⦄ (factor : ℕ) where
  -- The length of a neighbor's window.
  abbrev pub watch_interval : ℕ → Timeval
  watch_interval hello_interv = d.ms2timeval (
      if leb min_tracking_interval (hello_interv * factor)
      then hello_interv * factor
      else min_tracking_interval)

  -- The neighbor's entry, new or with its interval, in the table; or that there is no memory.
  unfoldable pub capture_neighbor :
      Pdr
      → (ether_neighbor hello_interv : ℕ) (malloc : Bool × Bool) → Option (Pdr × Option PdrEntry)
  capture_neighbor st ether_neighbor hello_interv (m_entry, m_ts) =
      elim (find neighbor_of ether_neighbor st.nbs.entries) [
        | none ↦
            if m_entry
            then elim (timeslot_create (watch_interval hello_interv) m_ts) [
              | none ↦ elim (expected factor hello_interv) [
                | none ↦ none
                | some _ ↦ some (st, none)
              ]
              | some ts ↦
                  elim (neighbor_entry_create factor st.brk ether_neighbor hello_interv ts) [
                    | none ↦ none
                    | some e ↦ some (
                      record st {
                        nbs = record (st.nbs) { entries = st.nbs.entries ++ e ∷ [] };
                        brk = st.brk + 1;
                      },
                      some e,
                    )
                  ]
            ]
            else some (st, none)
        | some e ↦
            if e.hello_interv == hello_interv
            then some (st, some e)
            else elim (neighbor_entry_update factor e hello_interv) [
              | none ↦ none
              | some e' ↦ some (
                record st {
                  nbs = record (st.nbs) {
                    entries = modify self_of e.self (λ _. e') st.nbs.entries;
                  };
                },
                some e',
              )
            ]
      ]

  unfoldable pub cap_hello :
      Pdr
      → (ether_neighbor hello_seq hello_interv : ℕ) (timestamp now now' : Timeval)
        (malloc : (Bool × Bool) × Bool × (Bool × Bool))
      → Option (Pdr × Bool)
  cap_hello st ether_neighbor hello_seq hello_interv timestamp now now' (m_entry, m_nb, m_msg) =
      elim (capture_neighbor st ether_neighbor hello_interv m_entry) [
        | none ↦ none
        | some (st', none) ↦ some (st', false)
        | some (st', some e) ↦
            let st'' = refresh_neighbor st' e timestamp now m_nb in
            elim (find self_of e.self st''.nbs.entries) [
              | none ↦ none
              | some e' ↦
                  let (e'', result) = capture_hello e' st''.brk hello_seq timestamp now' m_msg in
                  some (
                    record st'' {
                      nbs = record (st''.nbs) {
                        entries = modify self_of e.self (λ _. e'') st''.nbs.entries;
                      };
                      brk = st''.brk + 1;
                    },
                    result,
                  )
            ]
      ]

  unfoldable pub cap_hellorsp :
      Pdr
      → (ether_neighbor hello_interv hello_count : ℕ) (timestamp now : Timeval)
        (malloc : (Bool × Bool) × Bool)
      → Option (Pdr × Bool)
  cap_hellorsp st ether_neighbor hello_interv hello_count timestamp now (m_entry, m_nb) =
      elim (capture_neighbor st ether_neighbor hello_interv m_entry) [
        | none ↦ none
        | some (st', none) ↦ some (st', false)
        | some (st', some e) ↦
            let st'' = refresh_neighbor st' e timestamp now m_nb in
            elim (find self_of e.self st''.nbs.entries) [
              | none ↦ none
              | some e' ↦ some (
                record st'' {
                  nbs = record (st''.nbs) {
                    entries =
                        modify self_of e.self (λ x. record x { nb_rcvd_hello_count = hello_count })
                          st''.nbs.entries;
                  };
                },
                true,
              )
            ]
      ]
