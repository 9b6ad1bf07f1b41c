-- ===== src/Gacha/Mysql/Tests.antt =====
-- A database that is its tables, and the theorem on it.
use stage_sync.Base.{
  ℕ, ◌/◌, ◌*◌, map, ◌≡◌, String, Bool, false, List, [], ◌∷◌, none, refl, ◌==◌, string_eq,
  if◌then◌else◌,
}
use stage_sync.Base.Int.{ℤ, pos}
use stage_sync.Runtime.{Time, other, Result, ok, err}
use stage_sync.Runtime.Post.{Post, on_ok, on_err}
use stage_sync.Gacha.{Roll, CardPool, rarity_ssr}
use stage_sync.Gacha.Service.{Source, roll}
use stage_sync.Gacha.Mysql.Called.{Drawn, Refused, roll_stored_lem}
use stage_sync.Gacha.Mysql.{
  Queries, insert_rolls, save_in_tx, end_save, mysql_repo, mysql_insert_rolls_and_update_pity,
}
use stage_sync.Gacha.Mysql.Atomic.{
  Tables, Same, Same-refl, with_rolls, with_pity, saved, roll_row, SaveLaws,
}

-- A collation that takes "P1" for "p1".
abbrev key : String → String
key p = if p == "P1" then "p1" else p

-- Ten ticks of the clock are a second.
abbrev whole_second : Time → Time
whole_second t = t / 10 * 10

abbrev row : Roll → Roll
row = roll_row (λ id. id) whole_second

-- A transaction is a copy of the tables; the second roll of a player is refused.
abbrev refuse_second : Roll → Tables → Result (Unit {0}) × Tables
refuse_second roll t =
    if roll.id == "r2" then (err (other "duplicate"), t) else (ok tt, with_rolls (row roll ∷ []) t)

abbrev queries : Queries Tables Tables
queries = record {
  get_pity = λ p q d. (ok (pos 0), d);
  list_rolls_by_player = λ p n d. (ok [], d);
  begin_tx = λ d. (ok d, d);
  insert_roll = refuse_second;
  upsert_pity = λ p q c t. (ok tt, with_pity (key p) (key q) c t);
  commit = λ t d. (ok tt, t);
  rollback = λ t d. d;
}

inserted :
    (b : Bool) (roll : Roll) (t : Tables)
    → Post
        (λ (u : Unit {0}) t'. Same t' (with_rolls (row roll ∷ []) t))
        (λ (t' : Tables). Unit)
        (if b then (err (other "duplicate"), t) else (ok tt, with_rolls (row roll ∷ []) t))
inserted Bool.true roll t = on_err tt
inserted false roll t = on_ok (Same-refl (with_rolls (row roll ∷ []) t))

abbrev laws : SaveLaws queries
laws = record {
  fold = key;
  trimmed = λ id. id;
  to_second = whole_second;
  committed = λ d. d;
  seen = λ t. t;
  begin_tx = λ d. on_ok (Same-refl d, Same-refl d);
  get_pity = λ p q d. Same-refl d;
  insert_roll = λ roll t. inserted (roll.id == "r2") roll t;
  upsert_pity = λ p q c t. on_ok (Same-refl (with_pity (key p) (key q) c t));
  commit = λ t d. on_ok (Same-refl t);
  rollback = λ t d. Same-refl d;
}

abbrev roll_of : String → Roll
roll_of id = record {
  id = id;
  player_id = "p1";
  pool_id = "demo";
  card_id = "c1";
  rarity = rarity_ssr;
  is_pity = false;
  pulled_at = 7;
}

abbrev empty_tables : Tables
empty_tables = record { rolls = []; pity = λ p q. none }

abbrev two_rolls : List Roll
two_rolls = roll_of "r1" ∷ roll_of "r2" ∷ []

-- The second insertion fails: nothing is stored.
second_refused :
    (mysql_insert_rolls_and_update_pity queries two_rolls "p1" "demo" (pos 3) empty_tables).1
    ≡ empty_tables
unfolding mysql_insert_rolls_and_update_pity save_in_tx insert_rolls end_save string_eq
second_refused = refl

abbrev one_card : CardPool
one_card = record {
  id = "demo";
  name = "demo";
  pity_threshold = pos 80;
  cards = record { id = "c1"; name = "card"; rarity = rarity_ssr; weight = pos 1 } ∷ [];
}

-- The clock and the generator stand still, and all IDs are the same.
abbrev source : Source ℕ
source = record { int_n = λ n w. (pos 0, w); new_v7 = λ w. (ok "r1", w); now = λ w. (7, w) }

roll_stored_lem_example :
    Post
      (λ rolls (x : Tables × ℕ).
        (c : ℤ) × Drawn queries laws source
          (λ id. ok one_card)
          "P1"
          "demo"
          (pos 2)
          empty_tables
          0
          rolls
          c
        × Same x.0 (saved (map row rolls) "p1" "demo" c empty_tables))
      (λ (x : Tables × ℕ).
        Refused queries laws source (λ id. ok one_card) "P1" "demo" (pos 2) empty_tables 0 x.0)
      (roll (mysql_repo queries) (λ id. ok one_card) source "P1" "demo" (pos 2) (empty_tables, 0))
unfolding string_eq
roll_stored_lem_example =
    roll_stored_lem queries laws source (λ id. ok one_card) "P1" "demo" (pos 2) empty_tables 0
