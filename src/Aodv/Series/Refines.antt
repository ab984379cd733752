-- ===== src/Aodv/Series/Refines.antt =====
-- The hosts that are searched for, as a set.
use des_routing_algorithms.Common.{
  ℕ, ◌≡◌, ◌⊎◌, refl, Bool, not, ◌&&◌, ◌||◌, some, find, ◌==◌, Bool-cases, inl, inr,
}
use des_routing_algorithms.Aodv.Timeval.{Dessert}
use des_routing_algorithms.Aodv.Series.{Series, State, self_of}
use des_routing_algorithms.Aodv.Series.Reach.{
  Step, start, take, postpone, send, repeat, give_up, reply, add, drop, Reach, Reach-Inv,
}
use des_routing_algorithms.Aodv.Series.Kept.{owned_series}
use des_routing_algorithms.Aodv.Series.Searched.{
  searched, start-searched, repeat-searched, sent-searched, take-searched, delete-searched,
  reply-searched, stopped-searched,
}

-- What a step does to a set.
pub data Change : Type 0 where
  stays : Change
  adds removes : ℕ → Change

abbrev pub after : Change → (ℕ → Bool) → ℕ → Bool
after stays a host = a host
after (adds k) a host = (k == host) || a host
after (removes k) a host = not (k == host) && a host

module _ ⦃d : Dessert⦄ where
  -- A start adds its host, a RREP removes its host, and a series that is given up may remove one; no
  -- other step changes the set.
  abbrev pub Allowed : (st st' : State) → Step st st' → Change → Type 0
  Allowed st _ (start addr ttl) c = c ≡ adds addr
  Allowed st _ (reply addr) c = c ≡ removes addr
  Allowed st _ (give_up p o h e) c =
      (c ≡ stays) ⊎ ((s : Series) × (find self_of p st.heap ≡ some s) × (c ≡ removes s.key))
  Allowed st _ _ c = c ≡ stays

  -- The list of series implements a set of hosts: each step of a thread in a state that can be
  -- reached changes the set as the step allows, which is to add the host of a start, to remove the
  -- host of a RREP, to remove at most the host of the series that is given up, and nothing else.
  pub Step-searched :
      (st st' : State) (step : Step st st')
      → Reach st
      → (c : Change) × Allowed st st' step c
        × ((host : ℕ) → searched st' host ≡ after c (searched st) host)
  Step-searched st _ (start addr ttl) r =
      (adds addr, refl, λ host. start-searched host st (Reach-Inv st r) addr ttl)
  Step-searched st _ (take ts) r = (stays, refl, λ host. take-searched host st (Reach-Inv st r) ts)
  Step-searched st _ (postpone p o when malloc h e) r =
      (stays, refl, λ host. repeat-searched host st (Reach-Inv st r) when malloc p o h)
  Step-searched st _ (send p o ring h e) r =
      (stays, refl, λ host. sent-searched host st (Reach-Inv st r) ring p o h)
  Step-searched st _ (repeat p o when malloc h e) r =
      (stays, refl, λ host. repeat-searched host st (Reach-Inv st r) when malloc p o h)
  Step-searched st _ (give_up p o h e) r =
      let (s, there) = owned_series p st o (Reach-Inv st r) h in
      elim (Bool-cases s.stop) [
        | inl l ↦ (stays, inl refl, λ host. stopped-searched host st (Reach-Inv st r) p s there l)
        | inr l ↦ (
          removes s.key,
          inr (s, there, refl),
          λ host. delete-searched host st (Reach-Inv st r) p s there l,
        )
      ]
  Step-searched st _ (reply addr) r =
      (removes addr, refl, λ host. reply-searched host st (Reach-Inv st r) addr)
  Step-searched st _ (add when addr type param malloc small other) r = (stays, refl, λ host. refl)
  Step-searched st _ (drop addr type small other) r = (stays, refl, λ host. refl)
