-- ===== src/Gacha/Pick.antt =====
-- `WeightedPick` draws each card with the chance that its weight gives it.
use stage_sync.Base.{
  ℕ, ◌+◌, ◌-◌, ◌≤◌, ◌<◌, false, List, [], ◌∷◌, ◌++◌, All, ◌≡◌, refl, arith, ap, ap₂, subst, ◌∙◌,
  dec_lt, if_intro,
}
use stage_sync.Base.Int.{
  ℤ, pos, pos_part, ◌≤ℤ◌, ◌<ℤ◌, add64, add64-eq, two63, ltb_ℤ, leb_ℤ, parts_disjoint, +ℤ_parts,
}
use stage_sync.Gacha.{Card, RandIntN, total_from, last_card, scan, weighted_pick}

abbrev pub sum_weights : List Card → ℕ
sum_weights [] = 0
sum_weights (c ∷ cards) = pos_part c.weight + sum_weights cards

-- No weight is negative.
abbrev pub IsWeighted : List Card → Type 0
IsWeighted = All (λ c. pos 0 ≤ℤ c.weight)

pub add64-pos :
    (a : ℕ) (w : ℤ) → pos 0 ≤ℤ w → a + pos_part w < two63 → add64 (pos a) w ≡ pos (a + pos_part w)
unfolding add64
add64-pos a w h fits = grind (arith, add64-eq (pos a) w, +ℤ_parts (pos a) w)

total_from-eq :
    (cards : List Card) (a : ℕ)
    → IsWeighted cards
    → a + sum_weights cards < two63
    → total_from (pos a) cards ≡ pos (a + sum_weights cards)
unfolding total_from
total_from-eq [] a h fits = ground arith
total_from-eq (c ∷ cards) a h fits =
    rw (add64-pos a c.weight h.0 (omega arith))
      (ground (arith, total_from-eq cards (a + pos_part c.weight) h.1 (omega arith)))

-- The pick falls on the card whose stretch of the running sum holds it.
scan_interval :
    (before : List Card) (c : Card) (after : List Card) (a k : ℕ) (fallback : Card)
    → IsWeighted (before ++ c ∷ after)
    → a + sum_weights (before ++ c ∷ after) < two63
    → a + sum_weights before ≤ k
    → k < a + sum_weights before + pos_part c.weight
    → scan (pos k) (pos a) fallback (before ++ c ∷ after) ≡ c
unfolding scan
scan_interval [] c after a k fallback h fits lo hi =
    ground (arith, add64-pos a c.weight h.0 (omega arith))
scan_interval (x ∷ before) c after a k fallback h fits lo hi =
    rw (add64-pos a x.weight h.0 (omega arith)) (
      ground (
        arith,
        scan_interval before c after (a + pos_part x.weight) k fallback h.1 (omega arith)
            (omega arith) (omega arith),
      ))

-- Every number below the sum of the weights falls in the stretch of some card.
locate :
    (cards : List Card) (k : ℕ)
    → k < sum_weights cards
    → (before : List Card) × (c : Card) × (after : List Card) × (cards ≡ before ++ c ∷ after)
      × (sum_weights before ≤ k)
      × (k < sum_weights before + pos_part c.weight)
locate [] k h = absurd (omega arith)
locate (c ∷ cards) k h = elim (dec_lt k (pos_part c.weight)) [
  | yes here ↦ ([], c, cards, refl, omega arith, omega arith)
  | no past ↦
      let (before, d, after, e, lo, hi) = locate cards (k - pos_part c.weight) (omega arith) in
      (c ∷ before, d, after, ap (◌∷◌ c) e, omega arith, omega arith)
]

-- What `rand.IntN` promises: a number from 0 up to, not including, a positive bound.
abbrev pub IsIntN : {W : Type 0} → RandIntN W → Type 0
IsIntN {W} rng = (n : ℤ) (w : W) → pos 1 ≤ℤ n → (pos 0 ≤ℤ (rng n w).0) × ((rng n w).0 <ℤ n)

pos_part-lt : (p : ℤ) (n : ℕ) → pos 0 ≤ℤ p → p <ℤ pos n → pos_part p < n
pos_part-lt p n lo hi = omega (arith, parts_disjoint p)

eq_pos : (p : ℤ) → pos 0 ≤ℤ p → p ≡ pos (pos_part p)
eq_pos p h = ground arith

total-eq :
    (cards : List Card)
    → IsWeighted cards
    → sum_weights cards < two63
    → total_from (pos 0) cards ≡ pos (sum_weights cards)
total-eq cards h fits = total_from-eq cards 0 h (omega arith) ∙ ap pos (omega arith)

leb_ℤ-pos_zero : (n : ℕ) → 0 < n → leb_ℤ (pos n) (pos 0) ≡ false
leb_ℤ-pos_zero n h = ground arith

weighted_pick-scan :
    {W : Type 0} (rng : RandIntN W) (x : Card) (cards : List Card) (w : W)
    → IsWeighted (x ∷ cards)
    → 0 < sum_weights (x ∷ cards)
    → sum_weights (x ∷ cards) < two63
    → let (pick, w') = rng (pos (sum_weights (x ∷ cards))) w in
      weighted_pick rng (x ∷ cards) w ≡ (scan pick (pos 0) (last_card x cards) (x ∷ cards), w')
unfolding weighted_pick
weighted_pick-scan rng x cards w h some_weight fits =
    rw (total-eq (x ∷ cards) h fits, leb_ℤ-pos_zero (sum_weights (x ∷ cards)) some_weight)

-- With weights that are not negative and whose sum is positive and an `int`, `WeightedPick` asks
-- the generator for a number below the sum, and returns the card in whose stretch of the running
-- sum the number falls. A card's stretch is as long as its weight, so it is returned for exactly
-- that many of the numbers; the fallback after the loop is never reached.
pub weighted_pick_lem :
    {W : Type 0} (rng : RandIntN W) (cards : List Card) (w : W)
    → IsIntN rng
    → IsWeighted cards
    → 0 < sum_weights cards
    → sum_weights cards < two63
    → let (pick, w') = rng (pos (sum_weights cards)) w in
      (before : List Card) × (c : Card) × (after : List Card) × (cards ≡ before ++ c ∷ after)
      × (sum_weights before ≤ pos_part pick)
      × (pos_part pick < sum_weights before + pos_part c.weight)
      × (weighted_pick rng cards w ≡ (c, w'))
weighted_pick_lem rng [] w fair h some_weight fits = absurd (omega arith)
weighted_pick_lem rng (x ∷ cards) w fair h some_weight fits =
    let total = sum_weights (x ∷ cards) in
    let in_range = fair (pos total) w (omega arith) in
    let k = pos_part (rng (pos total) w).0 in
    let (before, c, after, e, lo, hi) =
      locate (x ∷ cards) k (pos_part-lt (rng (pos total) w).0 total in_range.0 in_range.1) in
    (
      before,
      c,
      after,
      e,
      lo,
      hi,
      weighted_pick-scan rng x cards w h some_weight fits
          ∙ ap (λ c. (c, (rng (pos total) w).1))
              (ap₂ (λ p l. scan p (pos 0) (last_card x cards) l)
                  (eq_pos (rng (pos total) w).0 in_range.0) e
                ∙ scan_interval before c after 0 k (last_card x cards) (subst IsWeighted e h)
                    (rw (← e) (omega arith)) (omega arith) (omega arith)),
    )

scan-All {κ} :
    (P : Card → Type κ) (pick acc : ℤ) (fallback : Card) (cards : List Card)
    → P fallback
    → All P cards
    → P (scan pick acc fallback cards)
unfolding scan
scan-All P pick acc fallback [] f h = f
scan-All P pick acc fallback (c ∷ cards) f h =
    if_intro P (ltb_ℤ pick (add64 acc c.weight)) (λ _. h.0)
      (λ _. scan-All P pick (add64 acc c.weight) fallback cards f h.1)

last_card-All {κ} :
    (P : Card → Type κ) (c : Card) (cards : List Card) → P c → All P cards → P (last_card c cards)
last_card-All P c [] h _ = h
last_card-All P c (d ∷ cards) h hs = last_card-All P d cards hs.0 hs.1

-- Where the weights make a pick possible, what is true of every card is true of the picked one,
-- whatever number the generator gives.
pub weighted_pick-All {κ} :
    (P : Card → Type κ) {W : Type 0} (rng : RandIntN W) (cards : List Card) (w : W)
    → IsWeighted cards
    → 0 < sum_weights cards
    → sum_weights cards < two63
    → All P cards
    → P (weighted_pick rng cards w).0
weighted_pick-All P rng [] w h some_weight fits hs = absurd (omega arith)
weighted_pick-All P rng (c ∷ cards) w h some_weight fits hs =
    rw (weighted_pick-scan rng c cards w h some_weight fits)
      (scan-All P _ (pos 0) (last_card c cards) (c ∷ cards) (last_card-All P c cards hs.0 hs.1) hs)
