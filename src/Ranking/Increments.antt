-- ===== src/Ranking/Increments.antt =====
-- internal/persistence/inmem/leaderboard.go: what a series of `IncrBy` calls leaves.
use stage_sync.Base.{
  String, List, [], ◌∷◌, ◌≡◌, refl, ap, ◌∙◌, arith, ◌==◌, string_eq, if◌then◌else◌, ◌&&◌, eq_of_==,
  if_intro,
}
use stage_sync.Base.Dict.{lookup, insert, NodupKeys, lookup-insert, insert-NodupKeys}
use stage_sync.Base.Int.{ℤ, add64}
use stage_sync.Ranking.Board.{Leaderboard, incr_by, inner_of, score_of}

-- A call's event, player and amount.
abbrev pub Increment : Type 0
Increment = String × String × ℤ

abbrev pub score_in : String → String → Leaderboard → ℤ
score_in event_id p l = score_of (lookup p (inner_of (lookup event_id l)))

-- The board after a series of calls.
abbrev pub after_increments : List Increment → Leaderboard → Leaderboard
after_increments [] l = l
after_increments ((event_id, p, delta) ∷ calls) l =
    after_increments calls (incr_by event_id p delta l).1

-- The amounts aimed at a player in an event, added one after the other to a score.
abbrev pub add_aimed : String → String → List Increment → ℤ → ℤ
add_aimed event_id p [] s = s
add_aimed event_id p ((event_id', p', delta) ∷ calls) s =
    add_aimed event_id p calls (if (event_id == event_id') && (p == p') then add64 s delta else s)

-- Every event's map has one entry for a player.
abbrev pub IsBoard : Leaderboard → Type 0
IsBoard l = (event_id : String) → NodupKeys (inner_of (lookup event_id l))

pub score_in-incr_by :
    (event_id p event_id' p' : String) (delta : ℤ) (l : Leaderboard)
    → score_in event_id p (incr_by event_id' p' delta l).1 ≡ (
        if (event_id == event_id') && (p == p')
        then add64 (score_in event_id p l) delta
        else score_in event_id p l)
unfolding incr_by
score_in-incr_by event_id p event_id' p' delta l =
    let inner = inner_of (lookup event_id' l) in
    let total = add64 (score_of (lookup p' inner)) delta in
    ground (
      arith,
      lookup-insert event_id event_id' (insert p' total inner) l,
      lookup-insert p p' total inner,
      eq_of_== event_id event_id',
      eq_of_== p p',
    )

incr_by-IsBoard :
    (event_id p : String) (delta : ℤ) (l : Leaderboard)
    → IsBoard l
    → IsBoard (incr_by event_id p delta l).1
unfolding incr_by
incr_by-IsBoard event_id p delta l h event_id' =
    let inner = inner_of (lookup event_id l) in
    let total = add64 (score_of (lookup p inner)) delta in
    rw (lookup-insert event_id' event_id (insert p total inner) l) (
      if_intro (λ found. NodupKeys (inner_of found)) (event_id' == event_id)
        (λ _. insert-NodupKeys p total inner (h event_id)) (λ _. h event_id'))

-- A series of `IncrBy` calls leaves every player in every event with the score they had and the
-- amounts aimed at that player in that event added to it in turn, in 64-bit arithmetic, if every
-- event's map has one entry for a player; and every map keeps one entry for a player.
pub after_increments_lem :
    (event_id p : String) (calls : List Increment) (l : Leaderboard)
    → IsBoard l
    → (score_in event_id p (after_increments calls l)
        ≡ add_aimed event_id p calls (score_in event_id p l))
      × IsBoard (after_increments calls l)
after_increments_lem event_id p [] l h = (refl, h)
after_increments_lem event_id p ((event_id', p', delta) ∷ calls) l h =
    let l' = (incr_by event_id' p' delta l).1 in
    let rest = after_increments_lem event_id p calls l' (incr_by-IsBoard event_id' p' delta l h) in
    (
      rest.0 ∙ ap (add_aimed event_id p calls) (score_in-incr_by event_id p event_id' p' delta l),
      rest.1,
    )
