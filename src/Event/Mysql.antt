-- ===== src/Event/Mysql.antt =====
-- internal/persistence/mysql/event_repo.go: the repository in MySQL, over the generated queries. The
-- driver's type of an error, and its number, are a test that is a parameter.
use stage_sync.Base.{String, Bool, List, map, if◌then◌else◌}
use stage_sync.Base.Int.{ℤ, pos, wrap32}
use stage_sync.Runtime.{
  GoError, wrap, is_error, Result, ok, err, Action, Time, context, pure, ◌>>=◌,
}
use stage_sync.Event.{Event, EventScore, RewardTier, Repository, err_not_found, err_already_exists}

-- `gen.EventReward`; its tier is an `int32`.
pub record EventReward : Type 0 where
  pub event_id : String
  pub tier : ℤ
  pub min_points : ℤ
  pub reward_name : String

-- The generated queries. A row of an event or a score has the fields of the domain's type; the column
-- created_at of a new event is the database's.
pub record Queries (D : Type 0) : Type 0 where
  pub create_event : String → String → Time → Time → Action D (Unit {0})
  pub get_event : String → Action D Event
  pub list_current_events : Time → Time → Action D (List Event)
  pub add_event_score : String → String → ℤ → Action D (Unit {0})
  pub get_event_score : String → String → Action D EventScore
  pub list_reward_tiers : String → Action D (List EventReward)
  pub insert_reward_tier : EventReward → Action D (Unit {0})

-- The zero `time.Time` stands at 0.
abbrev pub no_score : String → String → EventScore
no_score event_id player_id = record {
  event_id = event_id;
  player_id = player_id;
  points = pos 0;
  updated_at = 0;
}

-- `int(row.Tier)` is exact.
abbrev pub tier_of : EventReward → RewardTier
tier_of row = record {
  event_id = row.event_id;
  tier = row.tier;
  min_points = row.min_points;
  reward_name = row.reward_name;
}

-- `int32(t.Tier)` keeps the low 32 bits.
abbrev pub row_of : RewardTier → EventReward
row_of t = record {
  event_id = t.event_id;
  tier = wrap32 t.tier;
  min_points = t.min_points;
  reward_name = t.reward_name;
}

unfoldable pub create_outcome : (GoError → Bool) → Result (Unit {0}) → Result (Unit {0})
create_outcome is_duplicate (ok u) = ok u
create_outcome is_duplicate (err e) =
    if is_duplicate e then err err_already_exists else err (wrap "queries.CreateEvent" e)

unfoldable pub get_outcome : Result Event → Result Event
get_outcome (ok row) = ok row
get_outcome (err e) =
    if is_error e "sql.ErrNoRows" then err err_not_found else err (wrap "queries.GetEvent" e)

unfoldable pub score_outcome : String → String → Result EventScore → Result EventScore
score_outcome event_id player_id (ok row) = ok row
score_outcome event_id player_id (err e) =
    if is_error e "sql.ErrNoRows"
    then ok (no_score event_id player_id)
    else err (wrap "queries.GetEventScore" e)

module _ {D : Type 0} (queries : Queries D) (is_duplicate : GoError → Bool) where
  unfoldable pub mysql_create_event : Event → Action D (Unit {0})
  unfolding create_outcome
  mysql_create_event e d =
      let (u, d') = queries.create_event e.id e.name e.start_at e.end_at d in
      (create_outcome is_duplicate u, d')

  unfoldable pub mysql_get_event : String → Action D Event
  unfolding get_outcome
  mysql_get_event id d = let (row, d') = queries.get_event id d in (get_outcome row, d')

  -- The same time is both bounds of the query.
  abbrev pub mysql_list_current_events : Time → Action D (List Event)
  mysql_list_current_events now =
      context "queries.ListCurrentEvents" (queries.list_current_events now now)

  abbrev pub mysql_add_score : String → String → ℤ → Action D (Unit {0})
  mysql_add_score event_id player_id delta =
      context "queries.AddEventScore" (queries.add_event_score event_id player_id delta)

  unfoldable pub mysql_get_score : String → String → Action D EventScore
  unfolding score_outcome
  mysql_get_score event_id player_id d =
      let (row, d') = queries.get_event_score event_id player_id d in
      (score_outcome event_id player_id row, d')

  abbrev pub mysql_list_reward_tiers : String → Action D (List RewardTier)
  mysql_list_reward_tiers event_id =
      context "queries.ListRewardTiers" (queries.list_reward_tiers event_id) >>= λ rows.
      pure (map tier_of rows)

  abbrev pub mysql_insert_reward_tier : RewardTier → Action D (Unit {0})
  mysql_insert_reward_tier t =
      context "queries.InsertRewardTier" (queries.insert_reward_tier (row_of t))

  abbrev pub mysql_repo : Repository D
  mysql_repo = record {
    create_event = mysql_create_event;
    get_event = mysql_get_event;
    list_current_events = mysql_list_current_events;
    add_score = mysql_add_score;
    get_score = mysql_get_score;
    list_reward_tiers = mysql_list_reward_tiers;
    insert_reward_tier = mysql_insert_reward_tier;
  }
