-- ===== src/Aodv/Series/Search.antt =====
-- What `DL_SEARCH_SCALAR` finds in `series_list`, and what the list and the memory have in common.
use des_routing_algorithms.Common.{
  ℕ, ◌≡◌, ◌≢◌, refl, Bool, true, false, not, Option, none, some, List, [], ◌∷◌, find, arith,
  key-find,
}
use des_routing_algorithms.Aodv.Series.{Series, self_of, address_of, search}

abbrev pub present {ℓ} : {A : Type ℓ} → Option A → Bool
present none = false
present (some _) = true

abbrev pub is_live : Option Series → Bool
is_live none = false
is_live (some s) = not s.stop

-- Every element of the list is in memory, and not stopped.
pub search-live :
    (key : ℕ) (heap : List Series) (ps : List ℕ)
    → ((p : ℕ) → present (find address_of p ps) ≡ true → is_live (find self_of p heap) ≡ true)
    → (search key heap ps).0 ≡ false
unfolding search
search-live key heap [] h = refl
search-live key heap (p ∷ ps) h =
    ground (arith, h p, search-live key heap ps (λ q e. ground (arith, h q)))

pub search-some :
    (key : ℕ) (heap : List Series) (ps : List ℕ) (s : Series)
    → (search key heap ps).1 ≡ some s
    → (present (find address_of s.self ps) ≡ true)
      × (find self_of s.self heap ≡ some s)
      × (s.key ≡ key)
unfolding search
search-some key heap [] s e = cc
search-some key heap (p ∷ ps) s e =
    ground (arith, key-find self_of p heap s, search-some key heap ps s)

pub search-none :
    (key : ℕ) (heap : List Series) (ps : List ℕ) (p : ℕ) (s : Series)
    → (search key heap ps).1 ≡ none
    → (search key heap ps).0 ≡ false
    → present (find address_of p ps) ≡ true
    → find self_of p heap ≡ some s
    → s.key ≢ key
unfolding search
search-none key heap [] p s e f m h = cc
search-none key heap (q ∷ ps) p s e f m h = λ k. ground (arith, search-none key heap ps p s)
