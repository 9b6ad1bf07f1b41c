-- ===== src/Gacha/Pity.antt =====
-- The pity counter: what the loop in `Roll` keeps, against the count of rolls since the last SSR.
use stage_sync.Base.{
  ℕ, zero, suc, ◌≤◌, ◌<◌, String, true, false, List, [], ◌∷◌, ◌++◌, All, ◌≡◌, refl, arith, ap, sym,
  subst, ◌∙◌, length, ◌==◌, string_eq, if◌then◌else◌, if_intro, eq_of_==, Bool-cases, inl, inr,
}
use mathlib.Core.List.{append_assoc, append-nil}
use stage_sync.Base.Int.{ℤ, pos, add64, two63}
use stage_sync.Runtime.{Result, ok, err, Result-cases, Time}
use stage_sync.Gacha.{Card, CardPool, Roll, RandIntN, rarity_ssr, filter_by_rarity}
use stage_sync.Gacha.Pick.{sum_weights, IsWeighted, weighted_pick-All, add64-pos}
use stage_sync.Gacha.Since.{since, IsBounded}
use stage_sync.Gacha.Service.{
  Source, Drawn, draw, draw_at_threshold, new_roll, roll_loop, is_at_threshold,
}

-- A pool that can give an SSR: weights of 0 or more, SSR cards of a positive weight among them, a
-- sum that is an `int`, and a positive threshold.
pub record IsFairPool (pool : CardPool) (threshold : ℕ) : Type 0 where
  pub threshold_eq : pool.pity_threshold ≡ pos threshold
  pub threshold_pos : 0 < threshold
  pub threshold_fits : threshold < two63
  pub weighted : IsWeighted pool.cards
  pub fits : sum_weights pool.cards < two63
  pub some_ssr : 0 < sum_weights (filter_by_rarity pool.cards rarity_ssr)

sum_weights-filter :
    (cards : List Card) → sum_weights (filter_by_rarity cards rarity_ssr) ≤ sum_weights cards
sum_weights-filter [] = omega arith
sum_weights-filter (c ∷ cards) = ground (arith, sum_weights-filter cards)

filter-IsWeighted :
    (cards : List Card) → IsWeighted cards → IsWeighted (filter_by_rarity cards rarity_ssr)
filter-IsWeighted [] h = tt
filter-IsWeighted (c ∷ cards) h =
    if_intro IsWeighted (c.rarity == rarity_ssr) (λ _. (h.0, filter-IsWeighted cards h.1))
      (λ _. filter-IsWeighted cards h.1)

abbrev IsSsr : Card → Type 0
IsSsr c = c.rarity ≡ rarity_ssr

filter-IsSsr : (cards : List Card) → All IsSsr (filter_by_rarity cards rarity_ssr)
filter-IsSsr [] = tt
filter-IsSsr (c ∷ cards) =
    if_intro (All IsSsr) (c.rarity == rarity_ssr)
      (λ e. (eq_of_== c.rarity rarity_ssr e, filter-IsSsr cards)) (λ _. filter-IsSsr cards)

-- What one round leaves: the counter after the drawn card, below the threshold, and a guaranteed
-- card only if it is an SSR.
abbrev IsDrawn : ℕ → ℕ → Drawn → Type 0
IsDrawn threshold before (card, is_pity, pity) =
    let n = if card.rarity == rarity_ssr then 0 else suc before in
    (pity ≡ pos n) × (n < threshold) × (is_pity ≡ true → card.rarity ≡ rarity_ssr)

next_counter :
    (threshold before : ℕ)
    → threshold < two63
    → before < threshold
    → add64 (pos before) (pos 1) ≡ pos (suc before)
next_counter threshold before fits h =
    add64-pos before (pos 1) (omega arith) (omega arith) ∙ ap pos (omega arith)

below_threshold :
    (pool : CardPool) (threshold before : ℕ)
    → IsFairPool pool threshold
    → is_at_threshold pool (pos (suc before)) ≡ false
    → suc before < threshold
below_threshold pool threshold before fair h = ground (arith, fair.threshold_eq, fair.threshold_pos)

module _ {W : Type 0} (int_n : RandIntN W) where
  draw_at_threshold-IsDrawn :
      (threshold before : ℕ) (cards ssr : List Card) (w : W)
      → 0 < threshold
      → IsWeighted ssr
      → 0 < sum_weights ssr
      → sum_weights ssr < two63
      → All IsSsr ssr
      → IsDrawn threshold before (draw_at_threshold int_n cards ssr w).0
  unfolding draw_at_threshold
  draw_at_threshold-IsDrawn threshold before cards [] w t h some_ssr fits hs = absurd (omega arith)
  draw_at_threshold-IsDrawn threshold before cards (c ∷ ssr) w t h some_ssr fits hs =
      let e = weighted_pick-All IsSsr int_n (c ∷ ssr) w h some_ssr fits hs in ground (arith, e)

  draw-IsDrawn :
      (pool : CardPool) (threshold before : ℕ) (w : W)
      → IsFairPool pool threshold
      → before < threshold
      → IsDrawn threshold before (draw int_n pool (pos before) w).0
  unfolding draw
  draw-IsDrawn pool threshold before w fair h =
      elim (Bool-cases (is_at_threshold pool (add64 (pos before) (pos 1)))) [
        | inl full ↦
            rw (full, draw)
              (draw_at_threshold-IsDrawn threshold before pool.cards
                (filter_by_rarity pool.cards rarity_ssr) w fair.threshold_pos
                (filter-IsWeighted pool.cards fair.weighted) fair.some_ssr
                (omega (arith, sum_weights-filter pool.cards, fair.fits)) (filter-IsSsr pool.cards))
        | inr below ↦
            let counter = next_counter threshold before fair.threshold_fits h in
            let room =
              below_threshold pool threshold before fair
                (subst (λ p. is_at_threshold pool p ≡ false) counter below) in
            rw (below, draw, counter) (ground arith)
      ]

abbrev IsGuaranteedSsr : Roll → Type 0
IsGuaranteedSsr r = r.is_pity ≡ true → r.rarity ≡ rarity_ssr

abbrev pub IsOwned : String → String → Roll → Type 0
IsOwned player_id pool_id r = (r.player_id ≡ player_id) × (r.pool_id ≡ pool_id)

module _ {W : Type 0} (src : Source W) (player_id pool_id : String) (pool : CardPool) (now : Time)
    (threshold : ℕ) where
  -- What a run of the loop over `n` rounds adds to the rolls, and the counter that it ends with.
  abbrev pub IsRolled : ℕ → ℕ → List Roll → Result (List Roll × ℤ) → Type 0
  IsRolled before n rolls (err e) = Unit
  IsRolled before n rolls (ok (out, pity)) =
      (new : List Roll) × (out ≡ rolls ++ new)
      × (length new ≡ n)
      × (pity ≡ pos (since before new))
      × IsBounded threshold before new
      × All IsGuaranteedSsr new
      × All (IsOwned player_id pool_id) new

  extend :
      (rolls : List Roll) (id : String) (d : Drawn) (before n : ℕ) (result : Result (List Roll × ℤ))
      → before < threshold
      → IsDrawn threshold before d
      → let r = new_roll src player_id pool_id pool now id d in
        IsRolled (if d.0.rarity == rarity_ssr then 0 else suc before) n (rolls ++ r ∷ []) result
        → IsRolled before (suc n) rolls result
  extend rolls id d before n (err x) h drawn k = tt
  extend rolls id d before n (ok (out, q)) h drawn (new, o, len, q_eq, bounded, all, owned) =
      let r = new_roll src player_id pool_id pool now id d in
      (
        r ∷ new,
        o ∙ append_assoc rolls (r ∷ []) new,
        ap suc len,
        q_eq,
        (h, bounded),
        (drawn.2, all),
        ((refl, refl), owned),
      )

  -- Over a pool that can give an SSR, `n` rounds of the loop from a counter below the threshold
  -- make `n` rolls of the right player and pool (unless no UUID can be made); the counter they end
  -- with is the number of rolls since the last SSR; at no moment has that number reached the
  -- threshold; and every roll that is marked as guaranteed is an SSR.
  pub roll_loop-IsRolled :
      (n : ℕ) (rolls : List Roll) (before : ℕ) (pity : ℤ) (w : W)
      → IsFairPool pool threshold
      → pity ≡ pos before
      → before < threshold
      → IsRolled before n rolls (roll_loop src player_id pool_id pool now n rolls pity w).0
  unfolding roll_loop
  roll_loop-IsRolled zero rolls before pity w fair e h =
      ([], sym (append-nil rolls), refl, e, h, tt, tt)
  roll_loop-IsRolled (suc n) rolls before pity w fair e h =
      let (d, w') = draw src.int_n pool pity w in
      let drawn : IsDrawn threshold before d =
        rw e (draw-IsDrawn src.int_n pool threshold before w fair h) in
      elim (Result-cases (src.new_v7 w').0) [
        | inr (x, failed) ↦ rw failed tt
        | inl (id, made) ↦
            rw (made, roll_loop)
              (extend rolls id d before n _ h drawn (
                roll_loop-IsRolled n (rolls ++ new_roll src player_id pool_id pool now id d ∷ []) _
                  d.2 (src.new_v7 w').1 fair drawn.0 drawn.1))
      ]
