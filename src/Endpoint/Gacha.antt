-- ===== src/Endpoint/Gacha.antt =====
-- internal/endpoint/gacha.go: the three handlers, over any service.
use stage_sync.Base.{String, List, [], Option, none, some, ◌==◌, string_eq, if◌then◌else◌, ◌||◌}
use stage_sync.Base.Int.{ℤ, pos, ltb_ℤ}
use stage_sync.Runtime.{GoError, Action, is_error, error_text}
use stage_sync.AppError.{validation, not_found, internal, write_json}
use stage_sync.Gacha.{Roll}
use stage_sync.Endpoint.{
  Reply, replied, refused, Body, with_body, answer, invalid_json, status_ok, status_created,
}

pub record GachaService (S : Type 0) : Type 0 where
  pub roll : String → String → ℤ → Action S (List Roll)
  pub list_history : String → ℤ → Action S (List Roll)
  pub get_pity : String → String → Action S ℤ

pub record RollReq : Type 0 where
  pub player_id : String
  pub pool_id : String
  pub count : ℤ

pub record PityDto : Type 0 where
  pub player_id : String
  pub pool_id : String
  pub counter : ℤ

abbrev pub roll_error : String → GoError → GoError
roll_error pool_id e =
    if is_error e "gacha.ErrPoolNotFound"
    then not_found "gacha pool" pool_id
    else if is_error e "gacha.ErrInvalidCount"
    then validation (error_text e) []
    else if is_error e "gacha.ErrEmptyPool"
    then internal "pool has no cards" e
    else internal "gacha roll" e

-- The `limit` parameter as `strconv.Atoi` reads it: absent, no number, or not positive leave 10.
abbrev pub limit_of : Option ℤ → ℤ
limit_of none = pos 10
limit_of (some n) = if ltb_ℤ (pos 0) n then n else pos 10

module _ {S : Type 0} (service : GachaService S) where
  -- `Roll`; a roll is replied with all its fields.
  unfoldable pub handle_roll : Body RollReq → S → Reply (List Roll) × S
  handle_roll body = with_body invalid_json body (λ req.
      answer (roll_error req.pool_id) (replied status_created)
        (service.roll req.player_id req.pool_id req.count))

  -- `History`
  unfoldable pub handle_history : String → Option ℤ → S → Reply (List Roll) × S
  handle_history player_id limit s =
      if player_id == ""
      then (refused (write_json (validation "playerId path param is required" [])), s)
      else answer (internal "gacha history") (replied status_ok)
          (service.list_history player_id (limit_of limit)) s

  -- `Pity`
  unfoldable pub handle_pity : String → String → S → Reply PityDto × S
  handle_pity player_id pool_id s =
      if (player_id == "") || (pool_id == "")
      then (refused (write_json (validation "playerId and poolId are required" [])), s)
      else answer (internal "gacha pity")
          (λ pity.
            replied status_ok (record { player_id = player_id; pool_id = pool_id; counter = pity }))
          (service.get_pity player_id pool_id) s
