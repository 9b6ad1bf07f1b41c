-- ===== src/Event/Service.antt =====
-- internal/service/event/service.go. The state is the repository's, the leaderboard's and the
-- clock's; `now` reads the clock, and two readings may differ.
use stage_sync.Base.{
  String, Bool, not, List, [], ◌∷◌, Option, none, some, ◌||◌, ◌==◌, string_eq, if◌then◌else◌, ltb,
  ◌≡◌, ap,
}
use stage_sync.Base.Int.{ℤ, pos, ltb_ℤ, leb_ℤ}
use stage_sync.Runtime.{
  ok, err, wrap, GoError, Result, Action, pure, fail, context, Time, ◌>>=◌, ◌>>◌,
}
use stage_sync.Event.{
  Event, EventScore, RewardTier, Repository, LeaderboardWriter, Status, status_at, status_ongoing,
  status_ended, eligible_rewards, err_invalid_window, err_invalid_delta, err_not_ongoing,
}

abbrev pub max_score_delta : ℤ
max_score_delta = pos 1000000

pub record CreateInput : Type 0 where
  pub id : String
  pub name : String
  pub start_at : Time
  pub end_at : Time
  pub rewards : List RewardTier

pub record RewardsView : Type 0 where
  pub status : Status
  pub points : ℤ
  pub tiers : List RewardTier
  pub eligible : List RewardTier
  pub claimable : Bool

-- The tier with the event's ID written into it.
abbrev pub tier_for : String → RewardTier → RewardTier
tier_for id t = record {
  event_id = id;
  tier = t.tier;
  min_points = t.min_points;
  reward_name = t.reward_name;
}

abbrev pub new_event : CreateInput → Time → Event
new_event i created_at = record {
  id = i.id;
  name = i.name;
  start_at = i.start_at;
  end_at = i.end_at;
  created_at = created_at;
}

module _ {S L W : Type 0} where
  abbrev pub on_repo : {A : Type 0} → Action S A → Action (S × L × W) A
  on_repo m (s, l, w) = let (r, s') = m s in (r, (s', l, w))

  -- A repository call that succeeds, or fails, inside the service.
  pub on_repo_ok :
      {A : Type 0} (text : String) (m : Action S A) (s s' : S) (l : L) (w : W) (a : A)
      → m s ≡ (ok a, s')
      → context text (on_repo m) (s, l, w) ≡ (ok a, (s', l, w))
  on_repo_ok text m s s' l w a h =
      ap
        (λ (r : Result _ × S).
          (elim r.0 as (λ _. Result _) [ ok a ↦ ok a | err e ↦ err (wrap text e) ], (r.1, l, w)))
        h

  pub on_repo_err :
      {A : Type 0} (text : String) (m : Action S A) (s s' : S) (l : L) (w : W) (e : GoError)
      → m s ≡ (err e, s')
      → context text (on_repo m) (s, l, w) ≡ (err (wrap text e), (s', l, w))
  on_repo_err text m s s' l w e h =
      ap
        (λ (r : Result _ × S).
          (elim r.0 as (λ _. Result _) [ ok a ↦ ok a | err e ↦ err (wrap text e) ], (r.1, l, w)))
        h

  -- The leaderboard is told of the points; without one, or where it fails, the call goes on.
  abbrev pub tell_leaderboard :
      Option (LeaderboardWriter L) → String → String → ℤ → Action (S × L × W) (Unit {0})
  tell_leaderboard none event_id player_id delta x = (ok tt, x)
  tell_leaderboard (some lb) event_id player_id delta (s, l, w) =
      (ok tt, (s, (lb.incr_by event_id player_id delta l).1, w))

  abbrev pub read_now : (W → Time × W) → Action (S × L × W) Time
  read_now now (s, l, w) = let (t, w') = now w in (ok t, (s, l, w'))

module _ {S L W : Type 0} (repo : Repository S) (leaderboard : Option (LeaderboardWriter L))
    (now : W → Time × W) where
  -- The loop over the rewards in `Create`.
  unfoldable pub insert_tiers : String → List RewardTier → Action (S × L × W) (Unit {0})
  insert_tiers id [] = pure tt
  insert_tiers id (t ∷ ts) =
      context "repo.InsertRewardTier" (on_repo (repo.insert_reward_tier (tier_for id t)))
      >> insert_tiers id ts

  -- `Create`
  unfoldable pub create : CreateInput → Action (S × L × W) Event
  unfolding insert_tiers
  create i = if not (ltb i.start_at i.end_at) then fail err_invalid_window else (do
    created_at ← read_now now
    context "repo.CreateEvent" (on_repo (repo.create_event (new_event i created_at)))
    insert_tiers i.id i.rewards
    pure (new_event i created_at))

  -- `Get`
  unfoldable pub get : String → Action (S × L × W) (Event × Status)
  get id = do
    e ← context "repo.GetEvent" (on_repo (repo.get_event id))
    t ← read_now now
    pure (e, status_at e t)

  -- `ListCurrent`
  unfoldable pub list_current : Action (S × L × W) (List Event)
  list_current = do
    t ← read_now now
    context "repo.ListCurrentEvents" (on_repo (repo.list_current_events t))

  -- What `AddScore` does once the event is known to be ongoing.
  unfoldable pub accumulate : String → String → ℤ → Action (S × L × W) EventScore
  accumulate event_id player_id delta = do
    context "repo.AddScore" (on_repo (repo.add_score event_id player_id delta))
    sc ← context "repo.GetScore" (on_repo (repo.get_score event_id player_id))
    tell_leaderboard leaderboard event_id player_id delta
    pure sc

  -- What `AddScore` does with the event.
  unfoldable pub add_if_ongoing : String → String → ℤ → Event → Action (S × L × W) EventScore
  unfolding accumulate
  add_if_ongoing event_id player_id delta e = do
    t ← read_now now
    if not (status_at e t == status_ongoing)
        then fail err_not_ongoing
        else accumulate event_id player_id delta

  -- `AddScore`
  unfoldable pub service_add_score : String → String → ℤ → Action (S × L × W) EventScore
  unfolding add_if_ongoing
  service_add_score event_id player_id delta =
      if leb_ℤ delta (pos 0) || ltb_ℤ max_score_delta delta then fail err_invalid_delta else (do
        e ← context "repo.GetEvent" (on_repo (repo.get_event event_id))
        add_if_ongoing event_id player_id delta e)

  -- `GetScore`
  unfoldable pub service_get_score : String → String → Action (S × L × W) EventScore
  service_get_score event_id player_id = do
    context "repo.GetEvent" (on_repo (repo.get_event event_id))
    context "repo.GetScore" (on_repo (repo.get_score event_id player_id))

  -- What `GetRewards` does with the event. The clock is read once for the status and once more for
  -- `Claimable`.
  unfoldable pub show_rewards : String → String → Event → Action (S × L × W) RewardsView
  show_rewards event_id player_id e = do
    tiers ← context "repo.ListRewardTiers" (on_repo (repo.list_reward_tiers event_id))
    sc ← context "repo.GetScore" (on_repo (repo.get_score event_id player_id))
    t ← read_now now
    t' ← read_now now
    pure (record {
      status = status_at e t;
      points = sc.points;
      tiers = tiers;
      eligible = eligible_rewards tiers sc.points;
      claimable = status_at e t' == status_ended;
    })

  -- `GetRewards`
  unfoldable pub get_rewards : String → String → Action (S × L × W) RewardsView
  unfolding show_rewards
  get_rewards event_id player_id =
      context "repo.GetEvent" (on_repo (repo.get_event event_id))
      >>= show_rewards event_id player_id
