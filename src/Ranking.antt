-- ===== src/Ranking.antt =====
-- internal/domain/ranking: the entries of a leaderboard, its limits and errors; and the interface of
-- a store of internal/service/ranking.
use stage_sync.Base.{ℕ, String, List}
use stage_sync.Base.Int.{ℤ, pos}
use stage_sync.Runtime.{GoError, sentinel, Action}
pub mod Board
pub mod Service
pub mod Order
pub mod Rank
pub mod Window
pub mod Increments
pub mod Redis
mod Tests

pub record Entry : Type 0 where
  pub player_id : String
  pub score : ℤ
  pub rank : ℕ

abbrev pub max_top_n : ℤ
max_top_n = pos 100

abbrev pub default_top_n : ℤ
default_top_n = pos 10

abbrev pub max_around_radius : ℤ
max_around_radius = pos 25

abbrev pub default_around_radius : ℤ
default_around_radius = pos 5

abbrev pub err_player_not_ranked : GoError
err_player_not_ranked = sentinel "ranking.ErrPlayerNotRanked" "player not in ranking"

abbrev pub err_invalid_limit : GoError
err_invalid_limit = sentinel "ranking.ErrInvalidLimit" "invalid limit"

pub record Store (S : Type 0) : Type 0 where
  pub incr_by : String → String → ℤ → Action S ℤ
  pub top : String → ℤ → Action S (List Entry)
  pub rank : String → String → Action S Entry
  pub around : String → String → ℤ → Action S (List Entry)
