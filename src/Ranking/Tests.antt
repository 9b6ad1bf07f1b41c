-- ===== src/Ranking/Tests.antt =====
-- A small leaderboard, and the theorems on it.
use stage_sync.Base.{◌≤◌, List, [], ◌∷◌, none, ◌≡◌, refl, string_eq, length, keep}
use stage_sync.Base.Dict.{lookup, NodupKeys}
use stage_sync.Base.Int.{pos, negsuc, add64, wrap64, ◌+ℤ◌}
use stage_sync.Base.Sort.{sort_slice, insert_sorted}
use stage_sync.Base.Text.{text_lt}
use stage_sync.Runtime.{ok}
use stage_sync.Ranking.{Entry}
use stage_sync.Ranking.Board.{
  ahead, Scores, Leaderboard, ranked, find_player, sorted_locked, inmem_store,
}
use stage_sync.Ranking.Service.{service_rank, service_top, service_around}
use stage_sync.Ranking.Rank.{service_rank_lem, service_top_lem}
use stage_sync.Ranking.Window.{service_around_lem, is_near}
use stage_sync.Ranking.Increments.{IsBoard, add_aimed}

abbrev scores : Scores
scores = ("ann", pos 5) ∷ ("bob", pos 9) ∷ ("cid", pos 5) ∷ []

abbrev board : Leaderboard
board = ("spring", scores) ∷ []

abbrev visited_otherwise : Scores
visited_otherwise = ("bob", pos 9) ∷ ("ann", pos 5) ∷ ("cid", pos 5) ∷ []

scores-NodupKeys : NodupKeys scores
unfolding lookup string_eq
scores-NodupKeys = (refl, (refl, (refl, tt)))

-- Equal scores are listed by ID, the later one first.
standings :
    sorted_locked "spring" board
    ≡ record { player_id = "bob"; score = pos 9; rank = 1 }
      ∷ record { player_id = "cid"; score = pos 5; rank = 2 }
      ∷ record { player_id = "ann"; score = pos 5; rank = 3 }
      ∷ []
unfolding sorted_locked ranked lookup string_eq sort_slice insert_sorted ahead text_lt
standings = refl

service_rank_lem_example :
    service_rank inmem_store "spring" "ann" board
    ≡ (ok (record { player_id = "ann"; score = pos 5; rank = 3 }), board)
unfolding lookup string_eq ahead text_lt
service_rank_lem_example =
    service_rank_lem "spring" "ann" (pos 5) board scores refl scores-NodupKeys refl

service_top_lem_example :
    (es : List Entry) × (service_top inmem_store "spring" (pos 2) board ≡ (ok es, board))
    × (length es ≤ 2)
    × (find_player "ann" es ≡ none)
unfolding lookup string_eq ahead text_lt
service_top_lem_example =
    service_top_lem "spring" "ann" (pos 5) (pos 2) board scores refl refl scores-NodupKeys refl

service_around_lem_example :
    service_around inmem_store "spring" "ann" (pos 1) board
    ≡ (ok (keep (is_near 1 3) (sorted_locked "spring" board)), board)
unfolding lookup string_eq ahead text_lt
service_around_lem_example =
    service_around_lem "spring" "ann" (pos 5) (pos 1) board scores refl refl scores-NodupKeys refl

empty-IsBoard : IsBoard []
unfolding lookup
empty-IsBoard event_id = tt

left :
    add_aimed "spring" "ann" (("spring", "ann", pos 5) ∷ ("spring", "ann", negsuc 1) ∷ []) (pos 0)
    ≡ pos 3
unfolding string_eq add64 wrap64 ◌+ℤ◌
left = refl
