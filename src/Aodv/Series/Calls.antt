-- ===== src/Aodv/Series/Calls.antt =====
-- A thread that calls `aodv_send_rreq` for several hosts in turn, while it and the other threads do
-- steps between the calls. The lock is held in each step only.
use des_routing_algorithms.Common.{
  ℕ, ◌≡◌, ◌⊎◌, inl, inr, Bool, true, not, ◌&&◌, some, List, [], ◌∷◌, find, ◌==◌, arith, Bool-cases,
}
use des_routing_algorithms.Aodv.Timeval.{Dessert}
use des_routing_algorithms.Aodv.Series.{Series, State, self_of, start_series}
use des_routing_algorithms.Aodv.Series.Reach.{
  Step, start, take, postpone, send, repeat, give_up, reply, add, drop, Reach, later, Reach-Inv,
}
use des_routing_algorithms.Aodv.Series.Kept.{owned_series}
use des_routing_algorithms.Aodv.Series.Searched.{
  searched, start-searched, repeat-searched, sent-searched, take-searched, delete-searched,
  reply-searched, stopped-searched,
}

-- A call of `aodv_send_rreq`: the host and the first TTL.
abbrev pub RreqCall : Type 0
RreqCall = ℕ × ℕ

abbrev pub IsCalled : ℕ → List RreqCall → Type 0
IsCalled host [] = ⊥
IsCalled host ((addr, ttl) ∷ rest) = (addr ≡ host) ⊎ IsCalled host rest

module _ ⦃d : Dessert⦄ where
  -- What happens from a state to another while a thread does its calls. The `other` steps are those
  -- of all threads, among them that the calling thread sends the RREQ and schedules it again.
  pub data Calls : List RreqCall → State → State → Type 0 where
    returned : {st : State} → Calls [] st st
    call :
        {calls : List RreqCall} {st end : State} (addr ttl : ℕ)
        → Calls calls (start_series addr ttl st) end
        → Calls ((addr, ttl) ∷ calls) st end
    other :
        {calls : List RreqCall} {st st' end : State}
        → Step st st'
        → Calls calls st' end
        → Calls calls st end

  -- `delete_series_ether` for the host, as for a RREP, or the end of a series for it after the last try.
  abbrev pub Removes : ℕ → (st st' : State) → Step st st' → Type 0
  Removes host st _ (reply addr) = addr ≡ host
  Removes host st _ (give_up p o h e) =
      (s : Series) × (find self_of p st.heap ≡ some s) × (s.key ≡ host)
  Removes host st _ _ = ⊥

  -- One of the steps removes the host.
  abbrev pub Removed : ℕ → (calls : List RreqCall) (st end : State) → Calls calls st end → Type 0
  Removed host _ _ _ returned = ⊥
  Removed host _ _ end (call {calls} {st} addr ttl run) =
      Removed host calls (start_series addr ttl st) end run
  Removed host _ _ end (other {calls} {st} {st'} step run) =
      Removes host st st' step ⊎ Removed host calls st' end run

  -- There is a call for the host; right after it a series for the host is in the list, and at the end
  -- too, if no step after the call removes the host.
  abbrev pub Served : ℕ → (calls : List RreqCall) (st end : State) → Calls calls st end → Type 0
  Served host _ _ _ returned = ⊥
  Served host _ _ end (call {calls} {st} addr ttl run) =
      ((addr ≡ host)
        × (searched (start_series addr ttl st) host ≡ true)
        × ((searched end host ≡ true) ⊎ Removed host calls (start_series addr ttl st) end run))
      ⊎ Served host calls (start_series addr ttl st) end run
  Served host _ _ end (other {calls} {st} {st'} step run) = Served host calls st' end run

  kept_or_removed :
      (host k : ℕ) (a b : Bool) → a ≡ (not (k == host) && b) → b ≡ true → (a ≡ true) ⊎ (k ≡ host)
  kept_or_removed host k a b e h = elim (Bool-cases (k == host)) [
    | inl same ↦ inr (ground arith)
    | inr ne ↦ inl (ground (arith, e, h, ne))
  ]

  Step-kept :
      (host : ℕ) (st st' : State) (step : Step st st')
      → Reach st
      → searched st host ≡ true
      → (searched st' host ≡ true) ⊎ Removes host st st' step
  Step-kept host st _ (start addr ttl) r h =
      inl (ground (arith, h, start-searched host st (Reach-Inv st r) addr ttl))
  Step-kept host st _ (take ts) r h =
      inl (ground (arith, h, take-searched host st (Reach-Inv st r) ts))
  Step-kept host st _ (postpone p o when malloc w e) r h =
      inl (ground (arith, h, repeat-searched host st (Reach-Inv st r) when malloc p o w))
  Step-kept host st _ (send p o ring w e) r h =
      inl (ground (arith, h, sent-searched host st (Reach-Inv st r) ring p o w))
  Step-kept host st _ (repeat p o when malloc w e) r h =
      inl (ground (arith, h, repeat-searched host st (Reach-Inv st r) when malloc p o w))
  Step-kept host st _ (give_up p o w e) r h =
      let (s, there) = owned_series p st o (Reach-Inv st r) w in
      elim (Bool-cases s.stop) [
        | inl l ↦ inl (ground (arith, h, stopped-searched host st (Reach-Inv st r) p s there l))
        | inr l ↦
            elim (kept_or_removed host s.key _ _
              (delete-searched host st (Reach-Inv st r) p s there l) h) [
                | inl a ↦ inl a
                | inr same ↦ inr (s, there, same)
              ]
      ]
  Step-kept host st _ (reply addr) r h =
      kept_or_removed host addr _ _ (reply-searched host st (Reach-Inv st r) addr) h
  Step-kept host st _ (add when addr type param malloc small ne) r h = inl h
  Step-kept host st _ (drop addr type small ne) r h = inl h

  -- A host with a series in the list keeps one, or a step removes it.
  pub Calls-kept :
      (host : ℕ) (calls : List RreqCall) (st end : State) (run : Calls calls st end)
      → Reach st
      → searched st host ≡ true
      → (searched end host ≡ true) ⊎ Removed host calls st end run
  Calls-kept host _ _ _ returned r h = inl h
  Calls-kept host _ _ end (call {calls} {st} addr ttl run) r h =
      Calls-kept host calls (start_series addr ttl st) end run (later r (start addr ttl))
        (ground (arith, h, start-searched host st (Reach-Inv st r) addr ttl))
  Calls-kept host _ _ end (other {calls} {st} {st'} step run) r h =
      elim (Step-kept host st st' step r h) [
        | inr gone ↦ inr (inl gone)
        | inl stays ↦ elim (Calls-kept host calls st' end run (later r step) stays) [
          | inl a ↦ inl a
          | inr gone ↦ inr (inr gone)
        ]
      ]

  -- Whoever does steps meanwhile: a host that is called for is served.
  pub Calls-Served :
      (host : ℕ) (calls : List RreqCall) (st end : State) (run : Calls calls st end)
      → Reach st
      → IsCalled host calls
      → Served host calls st end run
  Calls-Served host _ _ _ returned r m = m
  Calls-Served host _ _ end (call {calls} {st} addr ttl run) r (inl same) =
      let there : searched (start_series addr ttl st) host ≡ true =
        ground (arith, same, start-searched host st (Reach-Inv st r) addr ttl) in
      inl (
        same,
        there,
        Calls-kept host calls (start_series addr ttl st) end run (later r (start addr ttl)) there,
      )
  Calls-Served host _ _ end (call {calls} {st} addr ttl run) r (inr m) =
      inr (Calls-Served host calls (start_series addr ttl st) end run (later r (start addr ttl)) m)
  Calls-Served host _ _ end (other {calls} {st} {st'} step run) r m =
      Calls-Served host calls st' end run (later r step) m
