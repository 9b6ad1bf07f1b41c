-- ===== src/Gacha/Mysql.antt =====
-- internal/persistence/mysql/gacha_repo.go: the repository in MySQL, over the generated queries and
-- the transactions of `database/sql`.
pub mod Atomic
pub mod Called
mod Tests
use stage_sync.Base.{String, ◌<>◌, List, [], ◌∷◌, if◌then◌else◌}
use stage_sync.Base.Int.{ℤ, pos, wrap32}
use stage_sync.Runtime.{wrap, is_error, Result, ok, err, Action, context, pure, ◌>>=◌, ◌>>◌}
use stage_sync.Gacha.{Roll}
use stage_sync.Gacha.Repo.{Repository}

-- `D` is the database, `T` an open transaction. A row of a roll has the fields of a roll; a counter
-- and a limit are `int32`.
pub record Queries (D T : Type 0) : Type 0 where
  pub get_pity : String → String → Action D ℤ
  pub list_rolls_by_player : String → ℤ → Action D (List Roll)
  pub begin_tx : Action D T
  pub insert_roll : Roll → Action T (Unit {0})
  pub upsert_pity : String → String → ℤ → Action T (Unit {0})
  pub commit : T → Action D (Unit {0})
  pub rollback : T → D → D

-- What `GetPity` makes of its row, or of an error.
unfoldable pub pity_outcome : Result ℤ → Result ℤ
pity_outcome (ok c) = ok c
pity_outcome (err e) =
    if is_error e "sql.ErrNoRows" then ok (pos 0) else err (wrap "queries.GetPity" e)

module _ {D T : Type 0} (queries : Queries D T) where
  unfoldable pub mysql_get_pity : String → String → Action D ℤ
  mysql_get_pity player_id pool_id d =
      let (c, d') = queries.get_pity player_id pool_id d in (pity_outcome c, d')

  -- The loop over the rolls; the first error ends it.
  unfoldable pub insert_rolls : List Roll → Action T (Unit {0})
  insert_rolls [] = pure tt
  insert_rolls (roll ∷ rolls) =
      context ("insert roll " <> roll.id) (queries.insert_roll roll) >> insert_rolls rolls

  -- The statements of the transaction.
  unfoldable pub save_in_tx : List Roll → String → String → ℤ → Action T (Unit {0})
  save_in_tx rolls player_id pool_id new_counter =
      insert_rolls rolls
      >> context "upsert pity" (queries.upsert_pity player_id pool_id (wrap32 new_counter))

  -- `Commit`, where no statement failed, and the deferred `Rollback`.
  unfoldable pub end_save : Result (Unit {0}) × T → Action D (Unit {0})
  end_save (err e, t) d = (err e, queries.rollback t d)
  end_save (ok u, t) d =
      let (c, d') = context "commit" (queries.commit t) d in (c, queries.rollback t d')

  -- `InsertRollsAndUpdatePity`
  unfoldable pub mysql_insert_rolls_and_update_pity :
      List Roll → String → String → ℤ → Action D (Unit {0})
  mysql_insert_rolls_and_update_pity rolls player_id pool_id new_counter =
      context "begin tx" queries.begin_tx >>= λ t.
      end_save (save_in_tx rolls player_id pool_id new_counter t)

  abbrev pub mysql_list_rolls_by_player : String → ℤ → Action D (List Roll)
  mysql_list_rolls_by_player player_id limit =
      context "queries.ListRollsByPlayer" (queries.list_rolls_by_player player_id (wrap32 limit))

  abbrev pub mysql_repo : Repository D
  mysql_repo = record {
    get_pity = mysql_get_pity;
    insert_rolls_and_update_pity = mysql_insert_rolls_and_update_pity;
    list_rolls_by_player = mysql_list_rolls_by_player;
  }
