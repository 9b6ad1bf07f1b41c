-- ===== src/Ranking/Service.antt =====
-- internal/service/ranking/service.go: the limits of a query, and the errors of the store.
use stage_sync.Base.{String, List, if◌then◌else◌}
use stage_sync.Base.Int.{ℤ, pos, leb_ℤ, ltb_ℤ}
use stage_sync.Runtime.{ok, err, wrap, Action, fail, context, is_error}
use stage_sync.Ranking.{
  Entry, Store, max_top_n, default_top_n, max_around_radius, default_around_radius,
  err_invalid_limit,
}

-- An error that means the player is not ranked is passed on as it is, any other is wrapped.
abbrev pub context_unless_not_ranked : {S A : Type 0} → String → Action S A → Action S A
context_unless_not_ranked text m s =
    let (r, s') = m s in
    (
      elim r [
        | ok a ↦ ok a
        | err e ↦ if is_error e "ranking.ErrPlayerNotRanked" then err e else err (wrap text e)
      ],
      s',
    )

module _ {S : Type 0} (store : Store S) where
  unfoldable pub service_top : String → ℤ → Action S (List Entry)
  service_top event_id n =
      let limit = if leb_ℤ n (pos 0) then default_top_n else n in
      if ltb_ℤ max_top_n limit
      then fail err_invalid_limit
      else context "store.Top" (store.top event_id limit)

  unfoldable pub service_around : String → String → ℤ → Action S (List Entry)
  service_around event_id player_id radius =
      let limit = if ltb_ℤ radius (pos 0) then default_around_radius else radius in
      if ltb_ℤ max_around_radius limit
      then fail err_invalid_limit
      else context_unless_not_ranked "store.Around" (store.around event_id player_id limit)

  unfoldable pub service_rank : String → String → Action S Entry
  service_rank event_id player_id =
      context_unless_not_ranked "store.Rank" (store.rank event_id player_id)
