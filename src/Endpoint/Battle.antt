-- ===== src/Endpoint/Battle.antt =====
-- internal/endpoint/battle.go: the damage handler, over any applier.
use stage_sync.Base.{String, [], ◌∷◌, if◌then◌else◌}
use stage_sync.Base.Int.{ℤ}
use stage_sync.Runtime.{GoError, Action, is_error}
use stage_sync.AppError.{validation, internal}
use stage_sync.Endpoint.{Reply, replied, Body, with_body, answer, status_ok}

-- `BattleApplier`
abbrev pub BattleApplier : Type 0 → Type 0
BattleApplier S = String → ℤ → Action S ℤ

pub record DamageReq : Type 0 where
  pub target_player : String
  pub damage : ℤ

pub record DamageResp : Type 0 where
  pub player_id : String
  pub hp : ℤ
  pub impl : String

abbrev pub invalid_body : String → GoError
invalid_body text =
    validation "invalid body" (record { field = "body"; tag = "json"; message = text } ∷ [])

abbrev pub damage_error : GoError → GoError
damage_error e =
    if is_error e "battle.ErrInvalidDamage"
    then validation "damage out of range"
        (record { field = "damage"; tag = "range"; message = "1..100000" } ∷ [])
    else internal "apply damage" e

-- `ApplyDamage`
unfoldable pub handle_damage :
    {S : Type 0} → BattleApplier S → String → Body DamageReq → S → Reply DamageResp × S
handle_damage apply impl_label body = with_body invalid_body body (λ req.
    answer damage_error
      (λ hp.
        replied status_ok (record { player_id = req.target_player; hp = hp; impl = impl_label }))
      (apply req.target_player req.damage))
