-- ===== src/Event/Agreement.antt =====
-- internal/service/event and the two in-memory stores: the points of the event repository and the
-- scores of the leaderboard move together.
use stage_sync.Base.{
  String, List, [], ◌∷◌, Option, none, some, false, ◌≡◌, ap, ◌∙◌, arith, ◌==◌, string_eq,
  if◌then◌else◌, ◌&&◌, All, eq_of_==, if_intro, not, ◌||◌,
}
use stage_sync.Base.Dict.{lookup, lookup-insert}
use stage_sync.Base.Int.{
  ℤ, pos, add64, wrap64, +ℤ_parts, wrap64-eq_self, ◌+ℤ◌, ltb_ℤ, leb_ℤ, parts_disjoint, eq_of_parts,
}
use stage_sync.Runtime.{ok, err, Time, Action, context, ◌>>=◌}
use stage_sync.Ranking.Board.{Leaderboard, incr_by}
use stage_sync.Ranking.Increments.{score_in, score_in-incr_by}
use stage_sync.Event.{
  Event, err_not_found, EventScore, LeaderboardWriter, status_at, status_ongoing,
}
use stage_sync.Event.Repo.{
  EventRepo, inmem_repo, score_key, score_or_zero, added_score, add_score, get_score, get_event,
}
use stage_sync.Event.Service.{add_if_ongoing, service_add_score, accumulate}

-- The in-memory leaderboard as the service uses it.
abbrev pub board_writer : LeaderboardWriter Leaderboard
board_writer = record { incr_by = incr_by }

abbrev pub points_in : String → String → EventRepo → ℤ
points_in event_id p r = (score_or_zero event_id p (lookup (score_key event_id p) r.scores)).points

-- A call of `AddScore` at a time.
abbrev pub AddCall : Type 0
AddCall = Time × String × String × ℤ

-- A call's key in the score table is that of the player only if it is for the player in the event.
abbrev pub IsSeparate : String → String → AddCall → Type 0
IsSeparate event_id p (_, event_id', p', _) =
    (score_key event_id p == score_key event_id' p') ≡ ((event_id == event_id') && (p == p'))

module _ {W : Type 0} (now : W → Time × W) where
  abbrev pub after_calls : List AddCall → EventRepo × Leaderboard × W → EventRepo × Leaderboard × W
  after_calls [] x = x
  after_calls ((t, event_id, p, delta) ∷ calls) x =
      after_calls calls
        (service_add_score (inmem_repo t) (some board_writer) now event_id p delta x).1

  add64_zero :
      (delta : ℤ)
      → leb_ℤ delta (pos 0) ≡ false
      → ltb_ℤ (pos 1000000) delta ≡ false
      → add64 (pos 0) delta ≡ delta
  unfolding add64
  add64_zero delta h k =
      let same : pos 0 +ℤ delta ≡ delta = ground (
        arith,
        +ℤ_parts (pos 0) delta,
        eq_of_parts (pos 0 +ℤ delta) delta,
        parts_disjoint delta,
        parts_disjoint (pos 0 +ℤ delta),
      ) in
      ap wrap64 same ∙ wrap64-eq_self delta (ground arith)

  points_in-add_score :
      (t : Time) (event_id p event_id' p' : String) (delta : ℤ) (r : EventRepo)
      → leb_ℤ delta (pos 0) ≡ false
      → ltb_ℤ (pos 1000000) delta ≡ false
      → points_in event_id p (add_score t event_id' p' delta r).1 ≡ (
          if score_key event_id p == score_key event_id' p'
          then add64 (points_in event_id p r) delta
          else points_in event_id p r)
  unfolding add_score
  points_in-add_score t event_id p event_id' p' delta r h k =
      let key = score_key event_id' p' in
      ground (
        arith,
        lookup-insert (score_key event_id p) key
            (added_score t event_id' p' delta (lookup key r.scores)) r.scores,
        eq_of_== (score_key event_id p) key,
        add64_zero delta h k,
      )

  -- The two stores hold the same for a player in an event.
  abbrev pub Agree : String → String → EventRepo × Leaderboard × W → Type 0
  Agree event_id p x = points_in event_id p x.0 ≡ score_in event_id p x.1

  accumulate-Agree :
      (t : Time) (event_id p event_id' p' : String) (delta : ℤ) (x : EventRepo × Leaderboard × W)
      → leb_ℤ delta (pos 0) ≡ false
      → ltb_ℤ (pos 1000000) delta ≡ false
      → IsSeparate event_id p (t, event_id', p', delta)
      → Agree event_id p x
      → Agree event_id p (accumulate (inmem_repo t) (some board_writer) now event_id' p' delta x).1
  unfolding accumulate get_score add_score
  accumulate-Agree t event_id p event_id' p' delta (r, l, w) low high sep h = ground (
    arith,
    points_in-add_score t event_id p event_id' p' delta r low high,
    score_in-incr_by event_id p event_id' p' delta l,
  )

  add_if_ongoing-Agree :
      (t : Time) (event_id p event_id' p' : String) (delta : ℤ) (x : EventRepo × Leaderboard × W)
      (found : Option Event)
      → leb_ℤ delta (pos 0) ≡ false
      → ltb_ℤ (pos 1000000) delta ≡ false
      → IsSeparate event_id p (t, event_id', p', delta)
      → Agree event_id p x
      → let add = add_if_ongoing (inmem_repo t) (some board_writer) now event_id' p' delta in
        Agree event_id p
          ((context "repo.GetEvent"
                (λ y. (elim found [ none ↦ err err_not_found | some e ↦ ok e ], y))
              >>= add)
            x).1
  unfolding add_if_ongoing
  add_if_ongoing-Agree t event_id p event_id' p' delta x none low high sep h = h
  add_if_ongoing-Agree t event_id p event_id' p' delta (r, l, w) (some e) low high sep h =
      if_intro {A = Action (EventRepo × Leaderboard × W) EventScore}
        (λ m. Agree event_id p (m (r, l, (now w).1)).1)
        (not (status_at e (now w).0 == status_ongoing)) (λ _. h)
        (λ _. accumulate-Agree t event_id p event_id' p' delta (r, l, (now w).1) low high sep h)

  add_score-Agree :
      (t : Time) (event_id p event_id' p' : String) (delta : ℤ) (x : EventRepo × Leaderboard × W)
      → IsSeparate event_id p (t, event_id', p', delta)
      → Agree event_id p x
      → Agree event_id p
          (service_add_score (inmem_repo t) (some board_writer) now event_id' p' delta x).1
  unfolding service_add_score get_event
  add_score-Agree t event_id p event_id' p' delta (r, l, w) sep h =
      if_intro {A = Action (EventRepo × Leaderboard × W) EventScore}
        (λ m. Agree event_id p (m (r, l, w)).1) (leb_ℤ delta (pos 0) || ltb_ℤ (pos 1000000) delta)
        (λ _. h)
        (λ range.
          add_if_ongoing-Agree t event_id p event_id' p' delta (r, l, w) (lookup event_id' r.events)
            (ground (arith, range)) (ground (arith, range)) sep h)

  -- Where a player's points in an event and their score on the leaderboard are equal, they are equal
  -- after any series of `AddScore` calls at any times, refused calls included, if no call for someone
  -- else or for another event has the same key in the table of points.
  pub after_calls-Agree :
      (event_id p : String) (calls : List AddCall) (x : EventRepo × Leaderboard × W)
      → All (IsSeparate event_id p) calls
      → points_in event_id p x.0 ≡ score_in event_id p x.1
      → points_in event_id p (after_calls calls x).0 ≡ score_in event_id p (after_calls calls x).1
  after_calls-Agree event_id p [] x sep h = h
  after_calls-Agree event_id p ((t, event_id', p', delta) ∷ calls) x sep h =
      after_calls-Agree event_id p calls
        (service_add_score (inmem_repo t) (some board_writer) now event_id' p' delta x).1 sep.1
        (add_score-Agree t event_id p event_id' p' delta x sep.0 h)
