-- ===== src/Gacha/Returned.antt =====
-- What the calls of the service return, and what two calls at once do to the counter.
use stage_sync.Base.{
  ℕ, zero, suc, ◌≤◌, String, false, List, [], ◌∷◌, ◌++◌, ◌≡◌, ◌||◌, refl, arith, ap, sym, ◌∙◌, keep,
  take, length, ◌==◌, string_eq, if◌then◌else◌,
}
use mathlib.Core.List.{append-nil, append_assoc, reverse}
use stage_sync.Base.Dict.{lookup}
use stage_sync.Base.Int.{ℤ, pos, negsuc, pos_part, ltb_ℤ}
use stage_sync.Runtime.{Result, ok, Action, Time, context, pure, ◌>>=◌, ◌>>◌}
use stage_sync.Gacha.{CardPool, Roll}
use stage_sync.Gacha.Pool.{PoolRegistry}
use stage_sync.Gacha.Repo.{
  GachaRepo, pity_key, or_zero, get_pity, insert_rolls_and_update_pity, newest,
  list_rolls_by_player, inmem_repo,
}
use stage_sync.Gacha.Service.{
  Source, draw, new_roll, roll, roll_from, roll_loop, has_no_cards, list_history, history_limit,
  on_repo, on_source,
}

-- UUIDs can be made.
abbrev pub IsUuidSource : {W : Type 0} → Source W → Type 0
IsUuidSource {W} src = (w : W) → (id : String) × ((src.new_v7 w).0 ≡ ok id)

in_limits :
    (count : ℕ)
    → 1 ≤ count
    → count ≤ 10
    → (ltb_ℤ (pos count) (pos 1) || ltb_ℤ (pos 10) (pos count)) ≡ false
in_limits count lo hi = ground arith

-- `Roll` from the end of its loop on.
abbrev save :
    {W : Type 0} → String → String → Result (List Roll × ℤ) × W → Action (GachaRepo × W) (List Roll)
save p q done = on_source (λ _. done) >>= λ d.
    context "repo.InsertRollsAndUpdatePity"
      (on_repo (inmem_repo.insert_rolls_and_update_pity d.0 p q d.1))
    >> pure d.0

module _ {W : Type 0} (src : Source W) (uuids : IsUuidSource src) where
  roll_loop_returns :
      (p q : String) (pool : CardPool) (now : Time) (n : ℕ) (rolls : List Roll) (pity : ℤ) (w : W)
      → (new : List Roll) × (after : ℤ) × ((roll_loop src p q pool now n rolls pity w).0
          ≡ ok (rolls ++ new, after))
        × (length new ≡ n)
  unfolding roll_loop
  roll_loop_returns p q pool now zero rolls pity w =
      ([], pity, ap (λ l. ok (l, pity)) (sym (append-nil rolls)), refl)
  roll_loop_returns p q pool now (suc n) rolls pity w =
      let (d, w') = draw src.int_n pool pity w in
      let (id, made) = uuids w' in
      let r = new_roll src p q pool now id d in
      let (new, after, e, len) =
        roll_loop_returns p q pool now n (rolls ++ r ∷ []) d.2 (src.new_v7 w').1 in
      (
        r ∷ new,
        after,
        rw (made, roll_loop) (e ∙ ap (λ l. ok (l, after)) (append_assoc rolls (r ∷ []) new)),
        ap suc len,
      )

  -- A request for 1 to 10 cards of a pool that is known and has cards succeeds, whatever the
  -- weights and the generator: it returns as many rolls as were asked for, and has appended exactly
  -- those to the stored rolls.
  pub roll_returns :
      (pools : PoolRegistry) (p q : String) (count : ℕ) (pool : CardPool) (r : GachaRepo) (w : W)
      → 1 ≤ count
      → count ≤ 10
      → pools q ≡ ok pool
      → has_no_cards pool.cards ≡ false
      → (rolls : List Roll) × (let (result, (r', _)) =
            roll inmem_repo pools src p q (pos count) (r, w) in
          (result ≡ ok rolls) × (r'.rolls ≡ r.rolls ++ rolls) × (length rolls ≡ count))
  unfolding roll roll_from get_pity insert_rolls_and_update_pity
  roll_returns pools p q count pool r w lo hi found cards =
      let (now, w') = src.now w in
      let before = or_zero (lookup (pity_key p q) r.pity) in
      let (new, after, e, len) = roll_loop_returns p q pool now count [] before w' in
      let w'' = (roll_loop src p q pool now count [] before w').1 in
      let run = ap (λ (x : Result (List Roll × ℤ)). save p q (x, w'') (r, w')) e in
      (
        new,
        (
          rw (in_limits count lo hi, found, cards) (ap (λ x. x.0) run),
          rw (in_limits count lo hi, found, cards) (ap (λ x. x.1.0.rolls) run),
          len,
        ),
      )

newest-eq :
    (player_id : String) (room : ℕ) (down : List Roll)
    → newest player_id room down ≡ take room (keep (λ r. r.player_id == player_id) down)
unfolding newest
newest-eq player_id zero [] = refl
newest-eq player_id (suc room) [] = refl
newest-eq player_id zero (r ∷ down) = refl
newest-eq player_id (suc room) (r ∷ down) =
    ground (arith, newest-eq player_id room down, newest-eq player_id (suc room) down)

history_limit-eq :
    (limit : ℤ)
    → history_limit limit
      ≡ pos (
          if ltb_ℤ limit (pos 1) then 10 else if ltb_ℤ (pos 100) limit then 100 else pos_part limit)
history_limit-eq (pos n) = ground arith
history_limit-eq (negsuc n) = ground arith

-- `ListHistory` returns a player's newest rolls, newest first, and changes nothing: as many as were
-- asked for where that is 1 to 100, 10 where it is less than 1, and 100 where it is more than 100, or
-- all of them where there are fewer.
pub list_history_lem :
    (player_id : String) (limit : ℤ) (r : GachaRepo)
    → let shown =
        if ltb_ℤ limit (pos 1) then 10 else if ltb_ℤ (pos 100) limit then 100 else pos_part limit in
      list_history inmem_repo player_id limit r
      ≡ (ok (take shown (keep (λ x. x.player_id == player_id) (reverse r.rolls))), r)
unfolding list_history list_rolls_by_player
list_history_lem player_id limit r =
    rw (history_limit-eq limit) (ap (λ l. (ok l, r)) (newest-eq player_id _ (reverse r.rolls)))
