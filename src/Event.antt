-- ===== src/Event.antt =====
-- internal/domain/event: events, scores, reward tiers and what follows from them; and the two
-- interfaces of internal/service/event.
use stage_sync.Base.{ℕ, String, Bool, List, [], ◌∷◌, if◌then◌else◌, ltb, keep}
use stage_sync.Base.Int.{ℤ, leb_ℤ}
use stage_sync.Runtime.{GoError, sentinel, Action, Time}
pub mod Repo
pub mod Service
pub mod Stored
pub mod Agreement
pub mod Rewards
pub mod Mysql
mod Tests

-- `Status`
abbrev pub Status : Type 0
Status = String

abbrev pub status_upcoming : Status
status_upcoming = "UPCOMING"

abbrev pub status_ongoing : Status
status_ongoing = "ONGOING"

abbrev pub status_ended : Status
status_ended = "ENDED"

pub record Event : Type 0 where
  pub id : String
  pub name : String
  pub start_at : Time
  pub end_at : Time
  pub created_at : Time

unfoldable pub status_at : Event → Time → Status
status_at e now =
    if ltb now e.start_at
    then status_upcoming
    else if ltb e.end_at now
    then status_ended
    else status_ongoing

pub record EventScore : Type 0 where
  pub event_id : String
  pub player_id : String
  pub points : ℤ
  pub updated_at : Time

pub record RewardTier : Type 0 where
  pub event_id : String
  pub tier : ℤ
  pub min_points : ℤ
  pub reward_name : String

-- `EligibleRewards`
unfoldable pub eligible_rewards : List RewardTier → ℤ → List RewardTier
eligible_rewards tiers points = keep (λ t. leb_ℤ t.min_points points) tiers

abbrev pub err_not_found : GoError
err_not_found = sentinel "event.ErrNotFound" "event not found"

abbrev pub err_not_ongoing : GoError
err_not_ongoing = sentinel "event.ErrNotOngoing" "event is not ongoing — cannot accumulate points"

abbrev pub err_already_exists : GoError
err_already_exists = sentinel "event.ErrAlreadyExists" "event already exists"

abbrev pub err_invalid_window : GoError
err_invalid_window =
    sentinel "event.ErrInvalidWindow" "event time window is invalid (start must be before end)"

abbrev pub err_invalid_delta : GoError
err_invalid_delta = sentinel "event.ErrInvalidDelta" "invalid score delta"

-- `Repository`; a pointer that is returned is to a copy.
pub record Repository (S : Type 0) : Type 0 where
  pub create_event : Event → Action S (Unit {0})
  pub get_event : String → Action S Event
  pub list_current_events : Time → Action S (List Event)
  pub add_score : String → String → ℤ → Action S (Unit {0})
  pub get_score : String → String → Action S EventScore
  pub list_reward_tiers : String → Action S (List RewardTier)
  pub insert_reward_tier : RewardTier → Action S (Unit {0})

-- `LeaderboardWriter`
pub record LeaderboardWriter (L : Type 0) : Type 0 where
  pub incr_by : String → String → ℤ → Action L ℤ
