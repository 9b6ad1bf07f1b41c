-- ===== src/Event/Tests.antt =====
-- An event with two tiers, and the theorems about it.
use stage_sync.Base.{
  suc, List, [], ◌∷◌, some, true, not, false, ◌≡◌, refl, ◌==◌, string_eq, length, keep, ◌||◌, arith,
}
use stage_sync.Base.Dict.{lookup}
use stage_sync.Base.Int.{pos, leb_ℤ}
use stage_sync.Runtime.{ok, Time}
use stage_sync.Ranking.Increments.{score_in}
use stage_sync.Event.{Event, RewardTier, status_ended}
use stage_sync.Event.Repo.{EventRepo, inmem_repo, tiers_of}
use stage_sync.Event.Service.{CreateInput, RewardsView, get_rewards}
use stage_sync.Event.Agreement.{AddCall, board_writer, points_in, after_calls, after_calls-Agree}
use stage_sync.Event.Rewards.{IsMonotone, get_rewards_lem}

-- A clock that moves on by one at every reading.
abbrev clock : Time → Time × Time
clock w = (w, suc w)

clock-IsMonotone : IsMonotone clock
clock-IsMonotone w = omega arith

abbrev spring : Event
spring = record { id = "spring"; name = "Spring"; start_at = 10; end_at = 20; created_at = 1 }

abbrev bronze : RewardTier
bronze = record { event_id = "spring"; tier = pos 1; min_points = pos 5; reward_name = "bronze" }

abbrev repo : EventRepo
repo = record {
  events = ("spring", spring) ∷ [];
  scores = [];
  rewards = ("spring", bronze ∷ []) ∷ [];
}

abbrev input : CreateInput
input = record { id = "fall"; name = "Fall"; start_at = 30; end_at = 40; rewards = bronze ∷ [] }

abbrev taken_input : CreateInput
taken_input = record { id = "spring"; name = "Again"; start_at = 30; end_at = 40; rewards = [] }

abbrev calls : List AddCall
calls =
    (12, "spring", "ann", pos 7) ∷ (13, "spring", "bob", pos 9) ∷ (99, "spring", "ann", pos 0) ∷ []

after_calls-Agree_example :
    points_in "spring" "ann" (after_calls clock calls (repo, [], 12)).0
    ≡ score_in "spring" "ann" (after_calls clock calls (repo, [], 12)).1
unfolding lookup string_eq
after_calls-Agree_example =
    after_calls-Agree clock "spring" "ann" calls (repo, [], 12) (refl, (refl, (refl, tt))) refl

get_rewards_lem_example :
    (view : RewardsView) × (w' : Time) × (get_rewards
        (inmem_repo 0)
        (some board_writer)
        clock
        "spring"
        "ann"
        (repo, [], 20)
      ≡ (ok view, (repo, [], w')))
    × (view.points ≡ points_in "spring" "ann" repo)
    × (view.eligible ≡ keep (λ tier. leb_ℤ tier.min_points view.points) view.tiers)
    × (length (keep (λ tier. true) view.tiers)
        ≡ length (keep (λ tier. true) (tiers_of (lookup "spring" repo.rewards))))
    × ((view.status == status_ended) ≡ false)
    × (view.claimable ≡ true)
    × ((not (view.status == status_ended) || view.claimable) ≡ true)
unfolding lookup string_eq
get_rewards_lem_example =
    get_rewards_lem (some board_writer) clock 0 (λ tier. true) "spring" "ann" spring repo [] 20
      clock-IsMonotone refl
