-- ===== src/Gacha/Tests.antt =====
-- Runs of the service over the demo pool, and the theorems at concrete data.
use stage_sync.Base.{
  ℕ, ◌+◌, ◌≤◌, ◌<◌, false, true, List, [], ◌∷◌, ◌++◌, ◌≡◌, refl, arith, string_eq, take, drop, keep,
  ◌==◌, length,
}
use mathlib.Core.List.{reverse}
use stage_sync.Base.Dict.{lookup, insert}
use stage_sync.Base.Int.{pos, negsuc, pos_part, add64, wrap64, ◌+ℤ◌}
use stage_sync.Runtime.{ok}
use stage_sync.Gacha.{Card, CardPool, Roll, RandIntN, total_from, scan, weighted_pick}
use stage_sync.Gacha.Pool.{demo, static_pools, get_pool}
use stage_sync.Gacha.Pick.{sum_weights, IsIntN, weighted_pick_lem}
use stage_sync.Gacha.Repo.{GachaRepo, new_gacha_repo, inmem_repo, insert_rolls_and_update_pity}
use stage_sync.Gacha.Repo
use stage_sync.Gacha.Since.{has_ssr}
use stage_sync.Gacha.Pity.{IsFairPool}
use stage_sync.Gacha.Stored.{IsCounted, history, roll-IsCounted}
use stage_sync.Gacha.Guaranteed.{RollCall, after_rolls, guaranteed_ssr}
use stage_sync.Gacha.Returned.{IsUuidSource, roll_returns, list_history_lem}
use stage_sync.Gacha.Service.{Source, draw, roll, roll_from, roll_loop, list_history}

-- A generator that always gives the smallest number, and so the first card.
abbrev smallest : RandIntN ℕ
smallest n w = (pos 0, w + 1)

smallest-IsIntN : IsIntN smallest
smallest-IsIntN n w h = (omega arith, omega arith)

abbrev source : Source ℕ
source = record { int_n = smallest; new_v7 = λ w. (ok "uuid", w + 1); now = λ w. (w, w) }

source-IsUuidSource : IsUuidSource source
source-IsUuidSource w = ("uuid", refl)

demo-IsFairPool : IsFairPool demo 80
unfolding string_eq
demo-IsFairPool = record {
  threshold_eq = refl;
  threshold_pos = omega arith;
  threshold_fits = omega arith;
  weighted = omega arith;
  fits = omega arith;
  some_ssr = omega arith;
}

-- One roll short of the guarantee.
abbrev plain : Roll
plain = record {
  id = "u";
  player_id = "ann";
  pool_id = "demo";
  card_id = "c_basic_a";
  rarity = "R";
  is_pity = false;
  pulled_at = 0;
}

abbrev table : GachaRepo
table = record { rolls = plain ∷ plain ∷ []; pity = ("ann/demo", pos 2) ∷ [] }

table-IsCounted : IsCounted 80 "ann" "demo" table
unfolding lookup string_eq
table-IsCounted = record { counter = refl; bounded = omega arith }

weighted_pick_lem_example :
    (before : List Card) × (c : Card) × (after : List Card) × (demo.cards ≡ before ++ c ∷ after)
    × (sum_weights before ≤ 0)
    × (0 < sum_weights before + pos_part c.weight)
    × (weighted_pick smallest demo.cards 5 ≡ (c, 6))
weighted_pick_lem_example =
    weighted_pick_lem smallest demo.cards 5 smallest-IsIntN (omega arith) (omega arith)
      (omega arith)

roll-IsCounted_example :
    IsCounted 80 "ann" "demo"
      (roll inmem_repo (get_pool static_pools) source "ann" "demo" (pos 3) (table, 0)).1.0
unfolding get_pool lookup string_eq
roll-IsCounted_example =
    roll-IsCounted (get_pool static_pools) source 80 "ann" "demo" demo "ann" "demo" (pos 3) table 0
      refl demo-IsFairPool (λ _. (refl, refl)) table-IsCounted

roll_returns_example :
    (rolls : List Roll) × (let (result, (r', _)) =
        roll inmem_repo (get_pool static_pools) source "ann" "demo" (pos 3) (table, 0) in
      (result ≡ ok rolls) × (r'.rolls ≡ table.rolls ++ rolls) × (length rolls ≡ 3))
unfolding get_pool lookup string_eq
roll_returns_example =
    roll_returns source source-IsUuidSource (get_pool static_pools) "ann" "demo" 3 demo table 0
      (omega arith) (omega arith) refl refl

-- The generator gives the first card, and so an SSR only at the threshold.
abbrev pair : CardPool
pair = record {
  id = "pair";
  name = "Pair";
  cards =
      record { id = "r"; name = "R"; rarity = "R"; weight = pos 1 }
      ∷ record { id = "s"; name = "S"; rarity = "SSR"; weight = pos 1 }
      ∷ [];
  pity_threshold = pos 2;
}

pair-IsFairPool : IsFairPool pair 2
unfolding string_eq
pair-IsFairPool = record {
  threshold_eq = refl;
  threshold_pos = omega arith;
  threshold_fits = omega arith;
  weighted = omega arith;
  fits = omega arith;
  some_ssr = omega arith;
}

abbrev pair_calls : List RollCall
pair_calls = record { player_id = "ann"; pool_id = "pair"; count = pos 4 } ∷ []

abbrev pair_rolls : List Roll
pair_rolls =
    history "ann" "pair" (after_rolls (λ _. ok pair) source pair_calls (new_gacha_repo, 0)).0.rolls

guaranteed_ssr_example : has_ssr (take 2 pair_rolls) ≡ true
unfolding roll roll_from roll_loop draw weighted_pick total_from scan add64 wrap64 ◌+ℤ◌ lookup
    insert string_eq insert_rolls_and_update_pity Repo.get_pity
guaranteed_ssr_example =
    guaranteed_ssr (λ _. ok pair) source 2 "ann" "pair" pair pair_calls 0 [] (take 2 pair_rolls)
      (drop 2 pair_rolls) refl pair-IsFairPool ((λ _. (refl, refl)), tt) refl refl

list_history_lem_example :
    list_history inmem_repo "ann" (negsuc 6) table
    ≡ (ok (take 10 (keep (λ x. x.player_id == "ann") (reverse table.rolls))), table)
list_history_lem_example = list_history_lem "ann" (negsuc 6) table

-- The first card is an SSR, so the counter goes back to 0.
demo_run :
    (roll inmem_repo (get_pool static_pools) source "ann" "demo" (pos 1) (table, 0)).1.0.pity
    ≡ ("ann/demo", pos 0) ∷ []
unfolding roll roll_from roll_loop draw weighted_pick total_from scan add64 wrap64 ◌+ℤ◌ get_pool
    lookup insert string_eq insert_rolls_and_update_pity Repo.get_pity
demo_run = refl
