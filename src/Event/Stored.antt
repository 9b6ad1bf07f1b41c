-- ===== src/Event/Stored.antt =====
-- internal/service/event: what `Create` stores, and what `ListCurrent` finds of it.
use stage_sync.Base.{
  String, List, [], ◌∷◌, ◌++◌, Option, none, some, Bool, true, ◌≡◌, refl, ap, ◌∙◌, arith, ◌==◌,
  string_eq, keep, length, if_intro, ltb, if◌then◌else◌, map, eq_of_==, ==_refl, nat_eq,
}
use mathlib.Core.List.{append-nil, append_assoc}
use stage_sync.Base.Dict.{lookup, insert, lookup-insert}
use stage_sync.Base.Sort.{sort_slice, keep-sort_slice}
use stage_sync.Runtime.{ok, err, wrap, pure, ◌>>◌, Time, context, bind_ok, bind_err}
use stage_sync.Event.{
  Event, err_already_exists, RewardTier, LeaderboardWriter, status_at, status_ongoing,
}
use stage_sync.Event.Repo.{
  EventRepo, inmem_repo, create_event, insert_reward_tier, list_current_events, tiers_of,
  is_current, ends_before,
}
use stage_sync.Event.Service.{
  on_repo, on_repo_ok, on_repo_err, CreateInput, create, insert_tiers, tier_for, new_event,
  list_current,
}

-- The repository with tiers added after those of an event.
abbrev pub with_tiers : List RewardTier → EventRepo → EventRepo
with_tiers [] r = r
with_tiers (t ∷ ts) r = with_tiers ts (insert_reward_tier t r).1

module _ {L W : Type 0} (lb : Option (LeaderboardWriter L)) (now : W → Time × W) (t : Time) where
  insert_tiers-eq :
      (id : String) (ts : List RewardTier) (r : EventRepo) (l : L) (w : W)
      → insert_tiers (inmem_repo t) lb now id ts (r, l, w)
        ≡ (ok tt, (with_tiers (map (tier_for id) ts) r, l, w))
  unfolding insert_tiers insert_reward_tier
  insert_tiers-eq id [] r l w = refl
  insert_tiers-eq id (tier ∷ ts) r l w =
      insert_tiers-eq id ts (insert_reward_tier (tier_for id tier) r).1 l w

with_tiers-events : (ts : List RewardTier) (r : EventRepo) → (with_tiers ts r).events ≡ r.events
unfolding insert_reward_tier
with_tiers-events [] r = refl
with_tiers-events (t ∷ ts) r = with_tiers-events ts (insert_reward_tier t r).1

with_tiers-tiers :
    (id k : String) (ts : List RewardTier) (r : EventRepo)
    → tiers_of (lookup k (with_tiers (map (tier_for id) ts) r).rewards) ≡ (
        if k == id
        then tiers_of (lookup id r.rewards) ++ map (tier_for id) ts
        else tiers_of (lookup k r.rewards))
unfolding insert_reward_tier
with_tiers-tiers id k [] r =
    ground (arith, append-nil (tiers_of (lookup id r.rewards)), eq_of_== k id)
with_tiers-tiers id k (t ∷ ts) r =
    let old = tiers_of (lookup id r.rewards) in
    let added = old ++ tier_for id t ∷ [] in
    ground (
      arith,
      with_tiers-tiers id k ts (insert_reward_tier (tier_for id t) r).1,
      lookup-insert id id added r.rewards,
      lookup-insert k id added r.rewards,
      append_assoc old (tier_for id t ∷ []) (map (tier_for id) ts),
      ==_refl id,
    )

abbrev created : CreateInput → Time → EventRepo → EventRepo
created i created_at r = with_tiers (map (tier_for i.id) i.rewards) (record {
  events = insert i.id (new_event i created_at) r.events;
  scores = r.scores;
  rewards = r.rewards;
})

create-eq :
    {L W : Type 0} (lb : Option (LeaderboardWriter L)) (now : W → Time × W) (t : Time)
    (i : CreateInput) (r : EventRepo) (l : L) (w : W)
    → ltb i.start_at i.end_at ≡ true
    → lookup i.id r.events ≡ none
    → create (inmem_repo t) lb now i (r, l, w)
      ≡ (ok (new_event i (now w).0), (created i (now w).0 r, l, (now w).1))
unfolding create create_event
create-eq lb now t i r l w window fresh =
    let stored : EventRepo = record {
      events = insert i.id (new_event i (now w).0) r.events;
      scores = r.scores;
      rewards = r.rewards;
    } in
    let create_it = create_event (new_event i (now w).0) in
    rw (window) (
      bind_ok (context "repo.CreateEvent" (on_repo create_it))
        (λ _. insert_tiers (inmem_repo t) lb now i.id i.rewards >> pure (new_event i (now w).0))
        (r, l, (now w).1) (stored, l, (now w).1) tt
        (on_repo_ok "repo.CreateEvent" create_it r stored l (now w).1 tt
          (rw (create_event, fresh) refl))
      ∙ bind_ok (insert_tiers (inmem_repo t) lb now i.id i.rewards)
          (λ _. pure (new_event i (now w).0)) (stored, l, (now w).1)
          (created i (now w).0 r, l, (now w).1) tt
          (insert_tiers-eq lb now t i.id i.rewards stored l (now w).1))

-- A `Create` call with a start before its end and an ID that is not taken succeeds. It returns the
-- event with the time of the call, stores it and leaves every other event as it was; the event's tiers
-- are those stored under the ID before, then the call's, with the event's ID; and the tiers of the
-- other events stay.
pub create_lem :
    {L W : Type 0} (lb : Option (LeaderboardWriter L)) (now : W → Time × W) (t : Time) (k : String)
    (i : CreateInput) (r : EventRepo) (l : L) (w : W)
    → ltb i.start_at i.end_at ≡ true
    → lookup i.id r.events ≡ none
    → let e = new_event i (now w).0 in
      (r' : EventRepo) × (create (inmem_repo t) lb now i (r, l, w) ≡ (ok e, (r', l, (now w).1)))
      × (lookup k r'.events ≡ (if k == i.id then some e else lookup k r.events))
      × (tiers_of (lookup k r'.rewards) ≡ (
          if k == i.id
          then tiers_of (lookup i.id r.rewards) ++ map (tier_for i.id) i.rewards
          else tiers_of (lookup k r.rewards)))
create_lem lb now t k i r l w window fresh =
    let stored : EventRepo = record {
      events = insert i.id (new_event i (now w).0) r.events;
      scores = r.scores;
      rewards = r.rewards;
    } in
    (
      created i (now w).0 r,
      create-eq lb now t i r l w window fresh,
      ap (lookup k) (with_tiers-events (map (tier_for i.id) i.rewards) stored)
          ∙ lookup-insert k i.id (new_event i (now w).0) r.events,
      with_tiers-tiers i.id k i.rewards stored,
    )

-- A `Create` call whose ID is taken, with a start before its end, is refused as such and changes
-- neither store.
pub create_taken_lem :
    {L W : Type 0} (lb : Option (LeaderboardWriter L)) (now : W → Time × W) (t : Time)
    (i : CreateInput) (e : Event) (r : EventRepo) (l : L) (w : W)
    → ltb i.start_at i.end_at ≡ true
    → lookup i.id r.events ≡ some e
    → create (inmem_repo t) lb now i (r, l, w)
      ≡ (err (wrap "repo.CreateEvent" err_already_exists), (r, l, (now w).1))
unfolding create create_event
create_taken_lem lb now t i e r l w window taken =
    let create_it = create_event (new_event i (now w).0) in
    rw (window) (
      bind_err (context "repo.CreateEvent" (on_repo create_it))
        (λ _. insert_tiers (inmem_repo t) lb now i.id i.rewards >> pure (new_event i (now w).0))
        (r, l, (now w).1) (r, l, (now w).1) (wrap "repo.CreateEvent" err_already_exists)
        (on_repo_err "repo.CreateEvent" create_it r r l (now w).1 err_already_exists
          (rw (create_event, taken) refl)))

status_at-ongoing : (e : Event) (t : Time) → (status_at e t == status_ongoing) ≡ is_current t e
unfolding status_at string_eq
status_at-ongoing e t =
    if_intro (λ s. (s == status_ongoing) ≡ is_current t e) (ltb t e.start_at)
      (λ h. ground (arith, h))
      (λ h.
        if_intro (λ s. (s == status_ongoing) ≡ is_current t e) (ltb e.end_at t)
          (λ k. ground (arith, h, k)) (λ k. ground (arith, h, k)))

keep_ongoing :
    (t : Time) (es : List Event)
    → keep (is_current t) es ≡ keep (λ e. status_at e t == status_ongoing) es
keep_ongoing t [] = refl
keep_ongoing t (e ∷ es) = ground (arith, status_at-ongoing e t, keep_ongoing t es)

-- `ListCurrent` lists the stored events that are ongoing at the time of the call and no other: of
-- those that pass any test, as many as are stored.
pub list_current_lem :
    {L W : Type 0} (lb : Option (LeaderboardWriter L)) (now : W → Time × W) (t : Time)
    (test : Event → Bool) (r : EventRepo) (l : L) (w : W)
    → (es : List Event) × (list_current (inmem_repo t) lb now (r, l, w)
        ≡ (ok es, (r, l, (now w).1)))
      × (length (keep test es)
          ≡ length (
              keep test
                (keep (λ e. status_at e (now w).0 == status_ongoing) (map (λ x. x.1) r.events))))
unfolding list_current list_current_events
list_current_lem lb now t test r l w =
    let events = map (λ x. x.1) r.events in
    let now' = (now w).0 in
    (
      sort_slice ends_before (keep (is_current now') events),
      refl,
      keep-sort_slice ends_before test (keep (is_current now') events)
          ∙ ap (λ es. length (keep test es)) (keep_ongoing now' events),
    )
