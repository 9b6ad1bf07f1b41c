-- ===== src/Event/Rewards.antt =====
-- internal/service/event: what `GetRewards` shows of an event.
use stage_sync.Base.{
  String, Option, some, Bool, true, not, ◌≡◌, refl, arith, ◌==◌, string_eq, ◌||◌, ◌≤◌, keep, length,
  ltb, ◌&&◌, if_intro,
}
use stage_sync.Base.Dict.{lookup}
use stage_sync.Base.Int.{leb_ℤ}
use stage_sync.Base.Sort.{sort_slice, keep-sort_slice}
use stage_sync.Runtime.{ok, Time, bind_ok, context}
use stage_sync.Event.{
  Event, RewardTier, LeaderboardWriter, status_at, status_ended, eligible_rewards,
}
use stage_sync.Event.Repo.{
  EventRepo, inmem_repo, get_event, get_score, list_reward_tiers, tiers_of, tier_before,
}
use stage_sync.Event.Service.{on_repo, on_repo_ok, RewardsView, get_rewards, show_rewards}
use stage_sync.Event.Agreement.{points_in}

-- A clock whose readings do not go back.
abbrev pub IsMonotone : {W : Type 0} → (W → Time × W) → Type 0
IsMonotone now = (w : _) → (now w).0 ≤ (now (now w).1).0

-- The event has begun and its end has passed.
abbrev pub has_ended : Event → Time → Bool
has_ended e t = not (ltb t e.start_at) && ltb e.end_at t

pub status_at-ended :
    (e : Event) (t : Time)
    → (status_at e t == status_ended) ≡ (not (ltb t e.start_at) && ltb e.end_at t)
unfolding status_at string_eq
status_at-ended e t =
    if_intro (λ s. (s == status_ended) ≡ (not (ltb t e.start_at) && ltb e.end_at t))
      (ltb t e.start_at) (λ h. rw (h) refl)
      (λ h.
        if_intro (λ s. (s == status_ended) ≡ (not (ltb t e.start_at) && ltb e.end_at t))
          (ltb e.end_at t) (λ k. rw (h, k) refl) (λ k. rw (h, k) refl))

status_ended-kept :
    (e : Event) (t t' : Time)
    → t ≤ t'
    → (not (status_at e t == status_ended) || (status_at e t' == status_ended)) ≡ true
status_ended-kept e t t' h = rw (status_at-ended e t, status_at-ended e t') (ground arith)

abbrev view_of : Event → Time → Time → String → String → EventRepo → RewardsView
view_of e t t' event_id p r =
    let tiers = sort_slice tier_before (tiers_of (lookup event_id r.rewards)) in
    record {
      status = status_at e t;
      points = points_in event_id p r;
      tiers = tiers;
      eligible = eligible_rewards tiers (points_in event_id p r);
      claimable = status_at e t' == status_ended;
    }

get_event-eq :
    (id : String) (e : Event) (r : EventRepo)
    → lookup id r.events ≡ some e
    → get_event id r ≡ (ok e, r)
unfolding get_event
get_event-eq id e r h = rw (get_event, h) refl

get_rewards-eq :
    {L W : Type 0} (lb : Option (LeaderboardWriter L)) (now : W → Time × W) (t : Time)
    (event_id p : String) (e : Event) (r : EventRepo) (l : L) (w : W)
    → lookup event_id r.events ≡ some e
    → get_rewards (inmem_repo t) lb now event_id p (r, l, w)
      ≡ (ok (view_of e (now w).0 (now (now w).1).0 event_id p r), (r, l, (now (now w).1).1))
unfolding get_rewards show_rewards get_score list_reward_tiers
get_rewards-eq lb now t event_id p e r l w h =
    bind_ok (context "repo.GetEvent" (on_repo (get_event event_id)))
      (show_rewards (inmem_repo t) lb now event_id p) (r, l, w) (r, l, w) e
      (on_repo_ok "repo.GetEvent" (get_event event_id) r r l w e (get_event-eq event_id e r h))

-- For an event that is stored, `GetRewards` succeeds and changes no store. It shows the player's
-- points; as eligible the tiers shown whose minimum the points reach; as many tiers that pass a test
-- as are stored for the event, for any test. It shows the event as ended exactly if its start is not
-- ahead and its end has passed at the first reading of the clock, and as claimable exactly if that is
-- so at the second; with a clock that does not go back, an event shown as ended is claimable.
pub get_rewards_lem :
    {L W : Type 0} (lb : Option (LeaderboardWriter L)) (now : W → Time × W) (t : Time)
    (test : RewardTier → Bool) (event_id p : String) (e : Event) (r : EventRepo) (l : L) (w : W)
    → IsMonotone now
    → lookup event_id r.events ≡ some e
    → (view : RewardsView) × (w' : W) × (get_rewards (inmem_repo t) lb now event_id p (r, l, w)
        ≡ (ok view, (r, l, w')))
      × (view.points ≡ points_in event_id p r)
      × (view.eligible ≡ keep (λ tier. leb_ℤ tier.min_points view.points) view.tiers)
      × (length (keep test view.tiers) ≡ length (keep test (tiers_of (lookup event_id r.rewards))))
      × ((view.status == status_ended) ≡ has_ended e (now w).0)
      × (view.claimable ≡ has_ended e (now (now w).1).0)
      × ((not (view.status == status_ended) || view.claimable) ≡ true)
unfolding eligible_rewards
get_rewards_lem lb now t test event_id p e r l w mono h = (
  view_of e (now w).0 (now (now w).1).0 event_id p r,
  (now (now w).1).1,
  get_rewards-eq lb now t event_id p e r l w h,
  refl,
  refl,
  keep-sort_slice tier_before test (tiers_of (lookup event_id r.rewards)),
  status_at-ended e (now w).0,
  status_at-ended e (now (now w).1).0,
  status_ended-kept e (now w).0 (now (now w).1).0 (mono w),
)
