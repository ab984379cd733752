-- ===== src/Aodv/SendLog/Count.antt =====
-- The counter of a log, and its elements.
use des_routing_algorithms.Common.{
  ℕ, ◌+◌, ◌-◌, ◌%◌, ◌^◌, ◌≤◌, suc, ◌<◌, ◌≡◌, refl, ap, ◌∙◌, if◌then◌else◌, List, [], ◌∷◌, arith,
  length, Bool, true, false, none,
}
use des_routing_algorithms.Aodv.Timeval.{Timeval, Dessert, micros}
use des_routing_algorithms.Aodv.Timeslot.{
  TsElement, Timeslot, timeslot_addobject, timeslot_addobject_varpurge, timeslot_deleteobject,
  insert_walk, inc32,
}
use des_routing_algorithms.Aodv.Timeslot.Order.{
  live, expired, length-insert_walk, length-live-insert_walk,
}
use des_routing_algorithms.Aodv.Timeslot.Lookup.{find-live, live_of}
use des_routing_algorithms.Aodv.Timeslot.Valid as Slot
use des_routing_algorithms.Aodv.Timeslot.Add as Add
use des_routing_algorithms.Aodv.Timeslot.Purge.{purge_all, length-live-expired}
use des_routing_algorithms.Aodv.SendLog.{
  SendLog, decrement_counter, rl_cleanup, putrreq, getrreqcount,
}

pub record IsValid (log : SendLog) : Type 0 where
  pub slot : Slot.IsValid log.ts
  pub counted : log.count ≡ length log.ts.elements
  pub fresh : (p : ℕ) → log.pseudo_pointer ≤ p → Slot.lookup p log.ts ≡ none

module _ ⦃d : Dessert⦄ where
  -- The purger subtracts one for each element that is purged, modulo 2 ^ 32.
  purge_all-count :
      (es : List TsElement) (n : ℕ)
      → length es ≤ 2 ^ 32
      → n < 2 ^ 32
      → purge_all decrement_counter n es ≡ (n + 2 ^ 32 - length es) % 2 ^ 32
  purge_all-count [] n h b = omega arith
  purge_all-count (e ∷ es) n h b = omega (arith, purge_all-count es n (omega arith) b)

  -- Asking a valid log for the count answers how many messages were logged whose second has
  -- not passed, keeps these and drops the others, and leaves the log valid.
  pub getrreqcount_lem :
      (log : SendLog) (now : Timeval)
      → IsValid log
      → ((getrreqcount log now).1 ≡ length (live (micros now) log.ts.elements))
        × ((getrreqcount log now).0.ts.elements ≡ live (micros now) log.ts.elements)
        × IsValid (getrreqcount log now).0
  unfolding getrreqcount rl_cleanup
  getrreqcount_lem log now v =
      rw (Slot.purgeobjects_lem decrement_counter log.ts now log.count v.slot) (
        left,
        refl,
        record {
          slot =
              rw (Slot.purgeobjects_lem decrement_counter log.ts now log.count v.slot) at
                (Slot.purgeobjects-IsValid decrement_counter log.ts now log.count v.slot);
          counted = left;
          fresh = λ p h.
              find-live p (micros now) log.ts.elements v.slot.unique
              ∙ ap (live_of (micros now)) (v.fresh p h);
        },
      )
    where
      left :
          purge_all decrement_counter log.count (expired (micros now) log.ts.elements)
          ≡ length (live (micros now) log.ts.elements)
      left = omega (
        arith,
        length-live-expired (micros now) log.ts.elements,
        purge_all-count (expired (micros now) log.ts.elements) log.count
            (omega (arith, length-live-expired (micros now) log.ts.elements, v.slot.fits))
            (omega (arith, v.counted, v.slot.fits)),
        v.counted,
        v.slot.fits,
      )

  module _ (log : SendLog) (timestamp now : Timeval) (v : IsValid log) where
    absent : (timeslot_deleteobject log.ts log.pseudo_pointer).0 ≡ log.ts
    absent =
        Slot.deleteobject_absent log.ts log.pseudo_pointer
          (v.fresh log.pseudo_pointer (omega arith))

    -- The counter after a purge and the increment is the number of elements that are left.
    count_after :
        (u : Timeslot)
        → Slot.IsValid u
        → length u.elements ≡ suc (length log.ts.elements)
        → inc32 (purge_all decrement_counter log.count (expired (micros now) u.elements))
          ≡ length (live (micros now) u.elements)
    count_after u w l = omega (
      arith,
      length-live-expired (micros now) u.elements,
      purge_all-count (expired (micros now) u.elements) log.count
          (omega (arith, length-live-expired (micros now) u.elements, w.fits))
          (omega (arith, v.counted, v.slot.fits)),
      v.counted,
      w.fits,
    )

    abbrev logged : TsElement
    logged = record {
      purge_time = d.timevaladd2 log.ts.purge_timeout timestamp;
      object = log.pseudo_pointer;
    }

    inserted_length :
        (u : Timeslot)
        → u.elements
          ≡ insert_walk logged (timeslot_deleteobject log.ts log.pseudo_pointer).0.elements
        → length u.elements ≡ suc (length log.ts.elements)
    inserted_length u e =
        ap length e
        ∙ length-insert_walk logged _
        ∙ ap (λ (ts : Timeslot). suc (length ts.elements)) absent

    -- Logging a message keeps a valid log valid where its timeslot has room for an element,
    -- also where the timeslot purges on the way.
    pub putrreq-IsValid :
        (malloc : Bool)
        → length log.ts.elements + 1 < 2 ^ 32
        → IsValid (putrreq log timestamp now malloc)
    unfolding putrreq timeslot_addobject timeslot_addobject_varpurge
    putrreq-IsValid false h = record {
      slot = v.slot;
      counted = v.counted;
      fresh = λ p k. v.fresh p (omega arith);
    }
    putrreq-IsValid true h =
        Add.addobject_varpurge_cases decrement_counter log.ts timestamp log.ts.purge_timeout now
          log.pseudo_pointer v.slot
          (λ (r : Timeslot × ℕ × Bool). IsValid (record {
            ts = r.0;
            count = if r.2 then inc32 r.1 else r.1;
            pseudo_pointer = log.pseudo_pointer + 1;
          }))
          log.count h
          (λ e. record {
            slot = record {
              desc = (tt, tt);
              unique = (refl, tt);
              counted = refl;
              fits = omega arith;
            };
            counted = omega (arith, v.counted, ap length (rw absent at e));
            fresh = λ p k. ground arith;
          })
          (λ u w l n t. record {
            slot = Slot.purged-IsValid u (micros now) w;
            counted = count_after u w (inserted_length u n);
            fresh = λ p k.
                let gone : Slot.lookup p u ≡ none = ground (arith, l p, v.fresh p (omega arith)) in
                find-live p (micros now) u.elements w.unique ∙ ap (live_of (micros now)) gone;
          })

    -- Logging a message that does not expire at once, in a valid log with room for an
    -- element, makes the count one more than the number of messages whose second has not
    -- passed.
    pub count-putrreq :
        length log.ts.elements + 1 < 2 ^ 32
        → micros now < micros log.ts.purge_timeout + micros timestamp
        → (putrreq log timestamp now true).count ≡ length (live (micros now) log.ts.elements) + 1
    unfolding putrreq timeslot_addobject
    count-putrreq h later =
        Add.addobject_varpurge_cases decrement_counter log.ts timestamp log.ts.purge_timeout now
          log.pseudo_pointer v.slot
          (λ (r : Timeslot × ℕ × Bool).
            (if r.2 then inc32 r.1 else r.1) ≡ length (live (micros now) log.ts.elements) + 1)
          log.count h
          (λ e.
            let none_left : log.ts.elements ≡ [] = rw absent at e in
            rw none_left (omega (arith, v.counted, ap length none_left)))
          (λ u w l n t.
            count_after u w (inserted_length u n)
            ∙ ap (λ es. length (live (micros now) es)) n
            ∙ length-live-insert_walk (micros now) logged _
                (omega (arith, d.micros-add2 log.ts.purge_timeout timestamp))
            ∙ rw absent (omega arith))
