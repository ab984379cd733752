-- ===== src/Batman/Window/Add.antt =====
-- Adding a number to a window.
use mathlib.Core.Path.{subst, sym}
use des_routing_algorithms.Common.{
  ℕ, suc, ◌+◌, ◌%◌, ◌^◌, ◌≤◌, ◌<◌, ◌≡◌, refl, ap, ◌∙◌, true, false, ◌||◌, ◌&&◌, some, List, [], ◌∷◌,
  arith, ◌==◌, ltb, leb, if◌then◌else◌, length, is_neg, Option-cases, List-cases, Bool-cases, inl,
  inr,
}
use des_routing_algorithms.Batman.Window.{
  Sw, half_seqno, hf_seq_comp_i_j, beyond, place, grown, insert_sn, batman_sw_dropsn,
  batman_sw_addsn, batman_sw_chage_size,
}
use des_routing_algorithms.Batman.Window.Compare.{
  behind, behind_self, behind_back, behind-lt, beyond-behind, beyond-ahead, hf_seq_comp_i_j-behind,
}
use des_routing_algorithms.Batman.Window.Chain.{
  Chain, IsDesc, has, IsValid, Chain-le, length-Chain, Chain-newer, has-Chain,
}
use des_routing_algorithms.Batman.Window.DropSn.{dropsn-IsValid, dropsn-has}
use des_routing_algorithms.Batman.Window.Place.{IsPlaced, place-IsPlaced}

-- The newest number after another one has come: that one, if it is ahead of the head `h` by at most
-- 32769 less the size, and else the head.
abbrev pub newest : ℕ → ℕ → List ℕ → ℕ
newest ws s [] = s
newest ws s (h ∷ xs) = if leb (ws + half_seqno) (behind h s) then s else h

-- What a window with the newest number `h` has of a number and of those that it had.
abbrev pub Holds : ℕ → ℕ → ℕ → ℕ → Sw → Sw → Type 0
Holds h s k ws sw sw' =
    has k sw'.seq_nums ≡ (((s == k) || has k sw.seq_nums) && ltb (behind h k) ws)

-- The head stays the head where it is not older, and is left behind where it is.
place-newest :
    (h s : ℕ) (xs out : List ℕ)
    → is_neg (hf_seq_comp_i_j h s) ≡ false
    → place s (h ∷ xs) ≡ some out
    → (rest : List ℕ) × (out ≡ h ∷ rest)
unfolding place
place-newest h s [] out e p = (s ∷ [], ground (arith, e, p))
place-newest h s (y ∷ ys) out e p = elim (Option-cases (place s (y ∷ ys))) [
  | inl q ↦ absurd (ground (arith, e, p, q))
  | inr r ↦ let (rest, q) = r in (rest, ground (arith, e, p, q))
]

place-ahead :
    (s h : ℕ) (xs : List ℕ)
    → is_neg (hf_seq_comp_i_j h s) ≡ true
    → place s (h ∷ xs) ≡ some (s ∷ h ∷ xs)
unfolding place hf_seq_comp_i_j
place-ahead s h [] e = ground (arith, e)
place-ahead s h (y ∷ ys) e = ground (arith, e)

module _ (sw : Sw) (v : IsValid sw) (s k : ℕ) (b : s < 2 ^ 16) where
  open v use {desc, counted, wide, narrow}

  abbrev ws : ℕ
  ws = sw.window_size

  -- The list with the number is within `bound` of its newest one.
  grown-IsValid :
      (h bound : ℕ) (xs : List ℕ)
      → h < 2 ^ 16
      → bound ≤ ws + half_seqno
      → Chain h bound 0 (h ∷ xs)
      → length xs ≡ sw.size
      → sw.size < 2 ^ 8
      → has k (h ∷ xs) ≡ ((s == k) || has k sw.seq_nums)
      → IsValid (grown sw (h ∷ xs)) × Holds h s k ws sw (grown sw (h ∷ xs))
  grown-IsValid h bound xs a half c size small held =
      let sw' = record sw { seq_nums = h ∷ xs; size = (sw.size + 1) % 2 ^ 16 } in
      let size' : sw'.size ≡ suc (length xs) = omega (arith, size, small) in
      (
        dropsn-IsValid sw' h bound a wide narrow half c (ground arith) size' (omega (arith, small)),
        ground (arith, held, dropsn-has sw' h bound k a narrow half c),
      )

  -- What the call leaves, with the newest number `h`.
  abbrev pub Added : ℕ → Sw → Type 0
  Added h sw' = IsValid sw' × Holds h s k ws sw sw'

  -- An older number that lies in the window.
  inserted :
      (h : ℕ) (xs : List ℕ)
      → sw.seq_nums ≡ h ∷ xs
      → behind h s < ws
      → Added h (insert_sn true sw s (place s (h ∷ xs))).0
  inserted h xs e near =
      let c : Chain h ws 0 (h ∷ xs) = subst (IsDesc ws) e desc in
      let small = length-Chain h ws 0 (h ∷ xs) c (omega arith) in
      let placed =
        place-IsPlaced h ws 0 s k (h ∷ xs) c.0 b (omega (arith, narrow)) (omega arith) near c in
      elim (Option-cases (place s (h ∷ xs))) [
        | inl p ↦
            let there : has s (h ∷ xs) ≡ true = ground (arith, p, placed) in
            rw p (v, ground (arith, e, there, has-Chain h ws 0 k (h ∷ xs) c))
        | inr q ↦
            let (out, p) = q in
            let (rest, first) = place-newest h s xs out (ground (arith, order c.0)) p in
            let placed' = subst (IsPlaced h ws 0 s k (h ∷ xs)) (p ∙ ap some first) placed in
            rw (p, first)
              (grown-IsValid h ws rest c.0 (omega arith) placed'.0
                (ground (arith, placed'.1, e, counted)) (ground (arith, counted, e, small, narrow))
                (ground (arith, placed'.2, e)))
      ]
    where
      order : h < 2 ^ 16 → is_neg (hf_seq_comp_i_j h s) ≡ false
      order a = ground (arith, hf_seq_comp_i_j-behind h h s a a b, behind_self h, near, narrow)

  -- A number that is ahead.
  ahead :
      (h : ℕ) (xs : List ℕ)
      → sw.seq_nums ≡ h ∷ xs
      → ws + half_seqno ≤ behind h s
      → Added s (insert_sn true sw s (place s (h ∷ xs))).0
  ahead h xs e far =
      let c : Chain h ws 0 (h ∷ xs) = subst (IsDesc ws) e desc in
      let back = behind_back h s c.0 b (omega (arith, far)) in
      let small = length-Chain h ws 0 (h ∷ xs) c (omega arith) in
      let grows = Chain-newer s h ws 0 (h ∷ xs) b c.0 (omega (arith, back, far, narrow)) c in
      let bound = behind s h + ws in
      let chain : Chain s bound 0 (s ∷ h ∷ xs) = (
        b,
        omega arith,
        ground (arith, behind_self s, wide),
        Chain-le s bound (behind s h + 0) (suc (behind s s)) (h ∷ xs)
            (ground (arith, behind_self s, back, behind-lt h s)) grows,
      ) in
      rw (place-ahead s h xs (beyond-ahead ws h s c.0 b narrow far).1) (
        grown-IsValid s bound (h ∷ xs) b (omega (arith, back, far, wide)) chain
          (ground (arith, e, counted)) (ground (arith, counted, e, small, narrow))
          (ground (arith, e)))

  -- Any number, where the window has one already.
  added :
      (h : ℕ) (xs : List ℕ)
      → sw.seq_nums ≡ h ∷ xs
      → (out : Sw) × (batman_sw_addsn true sw s ≡ some (out, true))
        × Added (newest ws s (h ∷ xs)) out
  unfolding batman_sw_addsn
  added h xs e =
      let c : Chain h ws 0 (h ∷ xs) = subst (IsDesc ws) e desc in
      let some_there : (sw.size == 0) ≡ false = ground (arith, counted, e) in
      elim (Bool-cases (leb (ws + half_seqno) (behind h s))) [
        | inl far ↦
            let far' : ws + half_seqno ≤ behind h s = ground (arith, far) in
            let near : beyond ws h s ≡ false = (beyond-ahead ws h s c.0 b narrow far').0 in
            (
              (insert_sn true sw s (place s (h ∷ xs))).0,
              ground (
                arith,
                e,
                some_there,
                near,
                place-ahead s h xs (beyond-ahead ws h s c.0 b narrow far').1,
              ),
              rw far (ahead h xs e far'),
            )
        | inr far ↦
            let old : beyond ws h s ≡ leb ws (behind h s) =
              beyond-behind ws h s c.0 b narrow (ground (arith, far)) in
            elim (Bool-cases (leb ws (behind h s))) [
              | inl out ↦ (
                sw,
                ground (arith, e, old, out),
                rw far (v, ground (arith, e, out, has-Chain h ws 0 k (h ∷ xs) c)),
              )
              | inr inside ↦ (
                (insert_sn true sw s (place s (h ∷ xs))).0,
                elim (Option-cases (place s (h ∷ xs))) [
                  | inl p ↦ ground (arith, e, some_there, old, inside, p)
                  | inr q ↦ let (l, p) = q in ground (arith, e, some_there, old, inside, p)
                ],
                rw far (inserted h xs e (ground (arith, inside))),
              )
            ]
      ]

-- A first number.
first :
    (sw : Sw)
    → IsValid sw
    → (s k : ℕ) → s < 2 ^ 16
    → sw.seq_nums ≡ []
    → (out : Sw) × (batman_sw_addsn true sw s ≡ some (out, true))
      × IsValid out
      × Holds (newest sw.window_size s sw.seq_nums) s k sw.window_size sw out
unfolding batman_sw_addsn
first sw v s k b e = (
  record sw { seq_nums = s ∷ []; size = 1 },
  ground (arith, e, v.counted),
  record {
    desc = ground (arith, b, behind_self s, v.wide);
    counted = refl;
    wide = v.wide;
    narrow = v.narrow;
  },
  ground (arith, e, behind_self s, v.wide),
)

-- Adding a number of 16 bits, with memory, to a valid window whose size is between 2 and 255
-- succeeds and leaves it valid: it has exactly the number and those that it had, as far as they
-- are behind the newest one by less than the size. The number is the newest one if the window was
-- empty, or if it is another one than the head and ahead of it by at most 32769 less the size,
-- counted on the circle of the 2 ^ 16 numbers; otherwise the head is.
pub batman_sw_addsn-IsValid :
    (sw : Sw)
    → IsValid sw
    → (s k : ℕ) → s < 2 ^ 16
    → (out : Sw) × (batman_sw_addsn true sw s ≡ some (out, true))
      × IsValid out
      × Holds (newest sw.window_size s sw.seq_nums) s k sw.window_size sw out
batman_sw_addsn-IsValid sw v s k b = elim (List-cases sw.seq_nums) [
  | inl e ↦ first sw v s k b e
  | inr c ↦
      let (h, xs, e) = c in
      let (out, succeeds, kept) = added sw v s k b h xs e in
      let ws = sw.window_size in
      (out, succeeds, kept.0, subst (λ l. Holds (newest ws s l) s k ws sw out) (sym e) kept.1)
]

-- A valid window that is not empty gets another size between 2 and 255: it stays valid and has
-- exactly those of its numbers that are behind the newest one by less than the new size.
pub batman_sw_chage_size-IsValid :
    (sw : Sw)
    → IsValid sw
    → (h : ℕ) (xs : List ℕ) → sw.seq_nums ≡ h ∷ xs
    → (ws k : ℕ) → 2 ≤ ws
    → ws < 2 ^ 8
    → (out : Sw) × (batman_sw_chage_size sw ws ≡ some out)
      × IsValid out
      × (out.window_size ≡ ws)
      × (has k out.seq_nums ≡ (has k sw.seq_nums && ltb (behind h k) ws))
unfolding batman_sw_chage_size batman_sw_dropsn
batman_sw_chage_size-IsValid sw v h xs e ws k wide narrow =
    let sized = record sw { window_size = ws } in
    let c : Chain h sw.window_size 0 (h ∷ xs) = subst (IsDesc sw.window_size) e v.desc in
    let chain : Chain h sw.window_size 0 sw.seq_nums = rw e c in
    let small = length-Chain h sw.window_size 0 (h ∷ xs) c (omega arith) in
    let half : sw.window_size ≤ ws + half_seqno = omega (arith, v.narrow) in
    (
      batman_sw_dropsn sized h,
      ground (arith, e),
      dropsn-IsValid sized h sw.window_size c.0 wide narrow half chain (ground (arith, e)) v.counted
          (ground (arith, v.counted, e, small, v.narrow)),
      refl,
      dropsn-has sized h sw.window_size k c.0 narrow half chain,
    )
