-- ===== src/Gacha/Service.antt =====
-- internal/service/gacha/service.go. `S` is the repository's state and `W` what the generator, the
-- clock and the UUID library keep; a call changes the pair of them.
use stage_sync.Base.{
  ℕ, zero, suc, String, Bool, true, false, List, [], ◌∷◌, ◌++◌, ◌==◌, string_eq, if◌then◌else◌,
  ◌&&◌, ◌||◌,
}
use stage_sync.Base.Int.{ℤ, pos, pos_part, add64, ltb_ℤ, leb_ℤ}
use stage_sync.Runtime.{Result, ok, Action, pure, fail, context, Time, ◌>>=◌, ◌>>◌}
use stage_sync.Gacha.{
  Card, CardPool, Roll, RandIntN, rarity_ssr, err_invalid_count, err_empty_pool, filter_by_rarity,
  weighted_pick,
}
use stage_sync.Gacha.Pool.{PoolRegistry}
use stage_sync.Gacha.Repo.{Repository}

-- What the service takes from outside: `rand.IntN`, `uuid.NewV7` and the clock.
pub record Source (W : Type 0) : Type 0 where
  pub int_n : RandIntN W
  pub new_v7 : Action W String
  pub now : W → Time × W

-- A card, whether it is a guaranteed one, and the counter after it.
abbrev pub Drawn : Type 0
Drawn = Card × Bool × ℤ

-- `pool.PityThreshold > 0 && pity >= pool.PityThreshold`
abbrev pub is_at_threshold : CardPool → ℤ → Bool
is_at_threshold pool pity = ltb_ℤ (pos 0) pool.pity_threshold && leb_ℤ pool.pity_threshold pity

module _ {W : Type 0} (int_n : RandIntN W) where
  -- The counter has reached the threshold; `ssr` are the pool's SSR cards.
  unfoldable pub draw_at_threshold : List Card → List Card → W → Drawn × W
  draw_at_threshold cards [] w =
      let (card, w') = weighted_pick int_n cards w in ((card, false, pos 0), w')
  draw_at_threshold cards (c ∷ ssr) w =
      let (card, w') = weighted_pick int_n (c ∷ ssr) w in ((card, true, pos 0), w')

  -- One round of the loop in `Roll`, from `pity++` to the new counter.
  unfoldable pub draw : CardPool → ℤ → W → Drawn × W
  draw pool before w =
      let pity = add64 before (pos 1) in
      if is_at_threshold pool pity
      then draw_at_threshold pool.cards (filter_by_rarity pool.cards rarity_ssr) w
      else let (card, w') = weighted_pick int_n pool.cards w in
        ((card, false, if card.rarity == rarity_ssr then pos 0 else pity), w')

module _ {W : Type 0} (src : Source W) (player_id pool_id : String) (pool : CardPool)
    (now : Time) where
  abbrev pub new_roll : String → Drawn → Roll
  new_roll id (card, is_pity, pity) = record {
    id = id;
    player_id = player_id;
    pool_id = pool_id;
    card_id = card.id;
    rarity = card.rarity;
    is_pity = is_pity;
    pulled_at = now;
  }

  -- The loop in `Roll`, with the rounds that are left.
  unfoldable pub roll_loop : ℕ → List Roll → ℤ → Action W (List Roll × ℤ)
  roll_loop zero rolls pity w = (ok (rolls, pity), w)
  roll_loop (suc n) rolls pity w =
      let (d, w') = draw src.int_n pool pity w in
      (context "uuid.NewV7" src.new_v7 >>= λ id. roll_loop n (rolls ++ new_roll id d ∷ []) d.2) w'

module _ {S W : Type 0} where
  -- A call that uses only one of the two states.
  abbrev pub on_repo : {A : Type 0} → Action S A → Action (S × W) A
  on_repo m (s, w) = let (r, s') = m s in (r, (s', w))

  abbrev pub on_source : {A : Type 0} → Action W A → Action (S × W) A
  on_source m (s, w) = let (r, w') = m w in (r, (s, w'))

  abbrev pub from_result : {A : Type 0} → Result A → Action (S × W) A
  from_result r x = (r, x)

-- `len(pool.Cards) == 0`
abbrev pub has_no_cards : List Card → Bool
has_no_cards [] = true
has_no_cards (_ ∷ _) = false

module _ {S W : Type 0} (repo : Repository S) (pools : PoolRegistry) (src : Source W) where
  abbrev pub read_now : Action W Time
  read_now w = let (t, w') = src.now w in (ok t, w')

  -- After the pool is found and has cards.
  unfoldable pub roll_from : String → String → ℤ → CardPool → Action (S × W) (List Roll)
  roll_from player_id pool_id count pool = do
    pity ← context "repo.GetPity" (on_repo (repo.get_pity player_id pool_id))
    now ← on_source read_now
    done ← on_source (roll_loop src player_id pool_id pool now (pos_part count) [] pity)
    context "repo.InsertRollsAndUpdatePity"
        (on_repo (repo.insert_rolls_and_update_pity done.0 player_id pool_id done.1))
    pure done.0

  -- `Roll`
  unfoldable pub roll : String → String → ℤ → Action (S × W) (List Roll)
  unfolding roll_from
  roll player_id pool_id count =
      if ltb_ℤ count (pos 1) || ltb_ℤ (pos 10) count then fail err_invalid_count else (do
        pool ← context "pools.GetPool" (from_result (pools pool_id))
        if has_no_cards pool.cards
            then fail err_empty_pool
            else roll_from player_id pool_id count pool)

-- The limits of `ListHistory`.
abbrev pub history_limit : ℤ → ℤ
history_limit limit =
    let at_least = if ltb_ℤ limit (pos 1) then pos 10 else limit in
    if ltb_ℤ (pos 100) at_least then pos 100 else at_least

unfoldable pub list_history : {S : Type 0} → Repository S → String → ℤ → Action S (List Roll)
list_history repo player_id limit =
    context "repo.ListRollsByPlayer" (repo.list_rolls_by_player player_id (history_limit limit))

unfoldable pub get_pity : {S : Type 0} → Repository S → String → String → Action S ℤ
get_pity repo player_id pool_id = context "repo.GetPity" (repo.get_pity player_id pool_id)
