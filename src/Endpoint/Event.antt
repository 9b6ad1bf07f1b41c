-- ===== src/Endpoint/Event.antt =====
-- internal/endpoint/event.go: the six handlers, over any service.
use stage_sync.Base.{String, Bool, List, [], ◌==◌, string_eq, if◌then◌else◌, ◌||◌, map}
use stage_sync.Base.Int.{ℤ}
use stage_sync.Runtime.{GoError, Action, Time, is_error, error_text}
use stage_sync.AppError.{validation, not_found, conflict, internal, write_json}
use stage_sync.Event.{Event, EventScore, RewardTier, Status, status_at}
use stage_sync.Event.Service.{CreateInput, RewardsView}
use stage_sync.Endpoint.{
  Reply, replied, refused, Body, with_body, answer, invalid_json, status_ok, status_created,
}

pub record EventService (S : Type 0) : Type 0 where
  pub create : CreateInput → Action S Event
  pub get : String → Action S (Event × Status)
  pub list_current : Action S (List Event)
  pub add_score : String → String → ℤ → Action S EventScore
  pub get_score : String → String → Action S EventScore
  pub get_rewards : String → String → Action S RewardsView

pub record RewardTierReq : Type 0 where
  pub tier : ℤ
  pub min_points : ℤ
  pub reward_name : String

pub record CreateEventReq : Type 0 where
  pub id : String
  pub name : String
  pub start_at : Time
  pub end_at : Time
  pub rewards : List RewardTierReq

pub record AddScoreReq : Type 0 where
  pub player_id : String
  pub delta : ℤ

pub record EventDto : Type 0 where
  pub id : String
  pub name : String
  pub start_at : Time
  pub end_at : Time
  pub created_at : Time
  pub status : String

pub record RewardTierDto : Type 0 where
  pub tier : ℤ
  pub min_points : ℤ
  pub reward_name : String

pub record RewardsDto : Type 0 where
  pub event_id : String
  pub player_id : String
  pub status : String
  pub points : ℤ
  pub tiers : List RewardTierDto
  pub eligible : List RewardTierDto
  pub claimable : Bool

abbrev pub event_to_dto : Event → Status → EventDto
event_to_dto e status = record {
  id = e.id;
  name = e.name;
  start_at = e.start_at;
  end_at = e.end_at;
  created_at = e.created_at;
  status = status;
}

abbrev pub tiers_to_dto : List RewardTier → List RewardTierDto
tiers_to_dto ts =
    map (λ t. record { tier = t.tier; min_points = t.min_points; reward_name = t.reward_name }) ts

-- The input of the service; a tier's event ID is left empty.
abbrev pub create_input : CreateEventReq → CreateInput
create_input req = record {
  id = req.id;
  name = req.name;
  start_at = req.start_at;
  end_at = req.end_at;
  rewards =
      map
        (λ t. record {
          event_id = "";
          tier = t.tier;
          min_points = t.min_points;
          reward_name = t.reward_name;
        })
        req.rewards;
}

abbrev pub create_error : GoError → GoError
create_error e =
    if is_error e "event.ErrAlreadyExists"
    then conflict "event already exists"
    else if is_error e "event.ErrInvalidWindow"
    then validation (error_text e) []
    else internal "create event" e

abbrev pub add_score_error : String → GoError → GoError
add_score_error event_id e =
    if is_error e "event.ErrNotFound"
    then not_found "event" event_id
    else if is_error e "event.ErrNotOngoing"
    then conflict (error_text e)
    else if is_error e "event.ErrInvalidDelta"
    then validation (error_text e) []
    else internal "add score" e

-- An unknown event, or an internal error with a text.
abbrev pub lookup_error : String → String → GoError → GoError
lookup_error text event_id e =
    if is_error e "event.ErrNotFound" then not_found "event" event_id else internal text e

module _ {S : Type 0} (service : EventService S) where
  -- `Create`; `now` is what `time.Now` returns in the handler.
  unfoldable pub handle_create : Time → Body CreateEventReq → S → Reply EventDto × S
  handle_create now body = with_body invalid_json body (λ req.
      answer create_error (λ e. replied status_created (event_to_dto e (status_at e now)))
        (service.create (create_input req)))

  -- `Get`
  unfoldable pub handle_get : String → S → Reply EventDto × S
  handle_get id s =
      if id == ""
      then (refused (write_json (validation "id is required" [])), s)
      else answer (lookup_error "get event" id)
          (λ (e : Event × Status). replied status_ok (event_to_dto e.0 e.1)) (service.get id) s

  -- `ListCurrent`
  unfoldable pub handle_list_current : Time → S → Reply (List EventDto) × S
  handle_list_current now =
      answer (internal "list current events")
        (λ es. replied status_ok (map (λ e. event_to_dto e (status_at e now)) es))
        service.list_current

  -- `AddScore`
  unfoldable pub handle_add_score : String → Body AddScoreReq → S → Reply EventScore × S
  handle_add_score event_id body s =
      if event_id == ""
      then (refused (write_json (validation "id is required" [])), s)
      else with_body invalid_json body
          (λ req.
            answer (add_score_error event_id) (replied status_ok)
              (service.add_score event_id req.player_id req.delta))
          s

  -- `GetScore`
  unfoldable pub handle_get_score : String → String → S → Reply EventScore × S
  handle_get_score event_id player_id s =
      if (event_id == "") || (player_id == "")
      then (refused (write_json (validation "id and playerId are required" [])), s)
      else answer (lookup_error "get score" event_id) (replied status_ok)
          (service.get_score event_id player_id) s

  -- `GetRewards`
  unfoldable pub handle_get_rewards : String → String → S → Reply RewardsDto × S
  handle_get_rewards event_id player_id s =
      if (event_id == "") || (player_id == "")
      then (refused (write_json (validation "id and playerId are required" [])), s)
      else answer (lookup_error "get rewards" event_id)
          (λ (view : RewardsView). replied status_ok (record {
            event_id = event_id;
            player_id = player_id;
            status = view.status;
            points = view.points;
            tiers = tiers_to_dto view.tiers;
            eligible = tiers_to_dto view.eligible;
            claimable = view.claimable;
          }))
          (service.get_rewards event_id player_id) s
