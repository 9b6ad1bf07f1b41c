-- ===== src/Event/Repo.antt =====
-- internal/persistence/inmem/event_repo.go: one mutex guards the three maps.
use stage_sync.Base.{
  String, ◌<>◌, Bool, List, [], ◌∷◌, ◌++◌, Option, none, some, ◌&&◌, ◌||◌, ◌==◌, string_eq, ltb,
  keep, map, nat_eq,
}
use stage_sync.Base.Dict.{Dict, lookup, insert}
use stage_sync.Base.Int.{ℤ, pos, add64, ltb_ℤ}
use stage_sync.Base.Sort.{sort_slice}
use stage_sync.Runtime.{ok, err, Action, Time}
use stage_sync.Event.{Event, EventScore, RewardTier, Repository, err_not_found, err_already_exists}

pub record EventRepo : Type 0 where
  pub events : Dict String Event
  pub scores : Dict String EventScore
  pub rewards : Dict String (List RewardTier)

abbrev pub new_event_repo : EventRepo
new_event_repo = record { events = []; scores = []; rewards = [] }

abbrev pub score_key : String → String → String
score_key event_id player_id = event_id <> ("/" <> player_id)

unfoldable pub create_event : Event → Action EventRepo (Unit {0})
create_event e r = elim (lookup e.id r.events) [
  | some old ↦ (err err_already_exists, r)
  | none ↦
      (ok tt, record { events = insert e.id e r.events; scores = r.scores; rewards = r.rewards })
]

unfoldable pub get_event : String → Action EventRepo Event
get_event id r = (elim (lookup id r.events) [ none ↦ err err_not_found | some e ↦ ok e ], r)

-- The test of `ListCurrentEvents`; `Equal` is equality of the instants.
abbrev pub is_current : Time → Event → Bool
is_current now e =
    (ltb e.start_at now || (e.start_at == now)) && (ltb now e.end_at || (e.end_at == now))

abbrev pub ends_before : Event → Event → Bool
ends_before a b = ltb a.end_at b.end_at

unfoldable pub list_current_events : Time → Action EventRepo (List Event)
list_current_events now r =
    (ok (sort_slice ends_before (keep (is_current now) (map (λ e. e.1) r.events))), r)

-- The score that `AddScore` stores; `now` is what `time.Now` returns.
abbrev pub added_score : Time → String → String → ℤ → Option EventScore → EventScore
added_score now event_id player_id delta none = record {
  event_id = event_id;
  player_id = player_id;
  points = delta;
  updated_at = now;
}
added_score now event_id player_id delta (some sc) = record {
  event_id = sc.event_id;
  player_id = sc.player_id;
  points = add64 sc.points delta;
  updated_at = now;
}

unfoldable pub add_score : Time → String → String → ℤ → Action EventRepo (Unit {0})
add_score now event_id player_id delta r =
    let k = score_key event_id player_id in
    (
      ok tt,
      record {
        events = r.events;
        scores = insert k (added_score now event_id player_id delta (lookup k r.scores)) r.scores;
        rewards = r.rewards;
      },
    )

-- A player with no entry has no points, and the zero time.
abbrev pub score_or_zero : String → String → Option EventScore → EventScore
score_or_zero event_id player_id none = record {
  event_id = event_id;
  player_id = player_id;
  points = pos 0;
  updated_at = 0;
}
score_or_zero event_id player_id (some sc) = sc

unfoldable pub get_score : String → String → Action EventRepo EventScore
get_score event_id player_id r =
    (ok (score_or_zero event_id player_id (lookup (score_key event_id player_id) r.scores)), r)

abbrev pub tiers_of : Option (List RewardTier) → List RewardTier
tiers_of none = []
tiers_of (some tiers) = tiers

abbrev pub tier_before : RewardTier → RewardTier → Bool
tier_before a b = ltb_ℤ a.tier b.tier

unfoldable pub list_reward_tiers : String → Action EventRepo (List RewardTier)
list_reward_tiers event_id r =
    (ok (sort_slice tier_before (tiers_of (lookup event_id r.rewards))), r)

unfoldable pub insert_reward_tier : RewardTier → Action EventRepo (Unit {0})
insert_reward_tier t r = (
  ok tt,
  record {
    events = r.events;
    scores = r.scores;
    rewards = insert t.event_id (tiers_of (lookup t.event_id r.rewards) ++ t ∷ []) r.rewards;
  },
)

-- `now` is what `time.Now` returns in `AddScore`.
abbrev pub inmem_repo : Time → Repository EventRepo
inmem_repo now = record {
  create_event = create_event;
  get_event = get_event;
  list_current_events = list_current_events;
  add_score = add_score now;
  get_score = get_score;
  list_reward_tiers = list_reward_tiers;
  insert_reward_tier = insert_reward_tier;
}
