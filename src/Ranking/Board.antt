-- ===== src/Ranking/Board.antt =====
-- internal/persistence/inmem/leaderboard.go: scores by event and player, sorted at every read.
use stage_sync.Base.{
  ℕ, suc, ◌+◌, ◌-◌, String, Bool, List, [], ◌∷◌, Option, none, some, ◌&&◌, ◌==◌, string_eq,
  if◌then◌else◌, take, drop, length, ltb,
}
use stage_sync.Base.Dict.{Dict, lookup, insert}
use stage_sync.Base.Int.{ℤ, pos, negsuc, add64, ltb_ℤ, leb_ℤ}
use stage_sync.Base.Sort.{sort_slice}
use stage_sync.Base.Text.{text_lt}
use stage_sync.Runtime.{ok, err, other, Action}
use stage_sync.Ranking.{Entry, Store, err_player_not_ranked}

-- `Leaderboard.scores`: by event, then by player.
abbrev pub Scores : Type 0
Scores = Dict String ℤ

abbrev pub Leaderboard : Type 0
Leaderboard = Dict String Scores

abbrev pub new_leaderboard : Leaderboard
new_leaderboard = []

-- The inner map of an event, a new one if there is none; and a player's score, 0 if there is none.
abbrev pub inner_of : Option Scores → Scores
inner_of none = []
inner_of (some inner) = inner

abbrev pub score_of : Option ℤ → ℤ
score_of none = pos 0
score_of (some s) = s

unfoldable pub incr_by : String → String → ℤ → Action Leaderboard ℤ
incr_by event_id player_id delta l =
    let inner = inner_of (lookup event_id l) in
    let total = add64 (score_of (lookup player_id inner)) delta in
    (ok total, insert event_id (insert player_id total inner) l)

-- The `less` of `sortedLocked`, on a player and a score.
unfoldable pub ahead : String × ℤ → String × ℤ → Bool
ahead a b = if leb_ℤ a.1 b.1 && leb_ℤ b.1 a.1 then text_lt b.0 a.0 else ltb_ℤ b.1 a.1

-- The loop that numbers the sorted entries, the first with `i + 1`.
unfoldable pub ranked : ℕ → List (String × ℤ) → List Entry
ranked i [] = []
ranked i ((p, s) ∷ l) = record { player_id = p; score = s; rank = suc i } ∷ ranked (suc i) l

unfoldable pub sorted_locked : String → Leaderboard → List Entry
unfolding ranked
sorted_locked event_id l = elim (lookup event_id l) [
  | none ↦ []
  | some inner ↦ ranked 0 (sort_slice ahead inner)
]

-- `sorted[:n]`; a negative bound panics.
unfoldable pub top : String → ℤ → Action Leaderboard (List Entry)
unfolding sorted_locked
top event_id (pos n) l =
    let sorted = sorted_locked event_id l in
    (ok (take (if ltb (length sorted) n then length sorted else n) sorted), l)
top event_id (negsuc n) l = (err (other "panic: slice bounds out of range"), l)

-- The loop of `Rank`, and the one of `Around`, which returns the position.
unfoldable pub find_player : String → List Entry → Option Entry
find_player player_id [] = none
find_player player_id (e ∷ es) =
    if e.player_id == player_id then some e else find_player player_id es

unfoldable pub find_index : String → ℕ → List Entry → Option ℕ
find_index player_id i [] = none
find_index player_id i (e ∷ es) =
    if e.player_id == player_id then some i else find_index player_id (suc i) es

unfoldable pub rank : String → String → Action Leaderboard Entry
unfolding find_player sorted_locked
rank event_id player_id l = (
  elim (find_player player_id (sorted_locked event_id l)) [
    | none ↦ err err_player_not_ranked
    | some e ↦ ok e
  ],
  l,
)

-- `sorted[start:end]` around a position; a natural `idx - radius` stops at 0, as `start` does.
unfoldable pub window : ℕ → ℕ → List Entry → List Entry
window radius idx sorted =
    let start = idx - radius in
    let past = idx + radius + 1 in
    let end = if ltb (length sorted) past then length sorted else past in
    take (end - start) (drop start sorted)

-- With a negative radius `make` or the slice panics.
unfoldable pub around : String → String → ℤ → Action Leaderboard (List Entry)
unfolding window find_index sorted_locked
around event_id player_id radius l =
    let sorted = sorted_locked event_id l in
    (
      elim (find_index player_id 0 sorted) [
        | none ↦ err err_player_not_ranked
        | some idx ↦ elim radius [
          | pos r ↦ ok (window r idx sorted)
          | negsuc n ↦ err (other "panic: makeslice: len out of range")
        ]
      ],
      l,
    )

abbrev pub inmem_store : Store Leaderboard
inmem_store = record { incr_by = incr_by; top = top; rank = rank; around = around }
