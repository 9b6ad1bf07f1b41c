-- ===== src/Ranking/Redis/Reads.antt =====
-- The reads of internal/persistence/redis/leaderboard.go answer as those of
-- internal/persistence/inmem/leaderboard.go.
use stage_sync.Base.{
  ℕ, suc, ◌+◌, ◌-◌, String, List, [], ◌∷◌, Option, none, some, ◌≡◌, refl, ap, ap₂, sym, ◌∙◌,
  string_eq, take, drop, map, take_clamped, take_clamped-drop, arith, Option-cases, inl, inr,
}
use stage_sync.Base.Dict.{lookup}
use stage_sync.Base.Int.{ℤ, pos, ◌+ℤ◌, ◌-ℤ◌, pos_part}
use stage_sync.Base.Sort.{sort_slice}
use stage_sync.Runtime.{
  Result, ok, err, Action, pure, context, ◌>>=◌, bind_ok, bind_err, context_ok, is_error,
}
use stage_sync.Ranking.{Entry, err_player_not_ranked}
use stage_sync.Ranking.Board
use stage_sync.Ranking.Board.{
  Leaderboard, Scores, ahead, ranked, sorted_locked, find_player, find_index, window, inner_of,
  score_of,
}
use stage_sync.Ranking.Order.{lookup-sort_slice}
use stage_sync.Ranking.Redis.Places.{
  take-ranked, drop-ranked_start, score_of_place, find_index-place, find_player-place, entry_at,
  sorted_locked-eq, is_positive, pred_pos, start_pos, stop_pos,
}
use stage_sync.Ranking.Redis.{
  SortedSets, SortedSetLaws, key, numbered, or_not_ranked, top, rank, around, place, start_of,
}

module _ {F R : Type 0} (client : SortedSets F R) (laws : SortedSetLaws client) where
  abbrev to_scores : List (String × F) → List (String × ℤ)
  to_scores res = map (λ z. (z.0, client.to_int64 z.1)) res

  numbered-ranked :
      (i : ℕ) (res : List (String × F)) → numbered client i res ≡ ranked i (to_scores res)
  unfolding numbered ranked
  numbered-ranked i [] = refl
  numbered-ranked i ((p, z) ∷ res) =
      ap (λ r. record { player_id = p; score = client.to_int64 z; rank = suc i } ∷ r)
        (numbered-ranked (suc i) res)

  -- A server has, for every event, the scores that a leaderboard in memory has.
  abbrev pub Agrees : R → Leaderboard → Type 0
  Agrees r l = (e : String) → laws.scores r (key e) ≡ inner_of (lookup e l)

  module _ (r : R) (l : Leaderboard) (agrees : Agrees r l) (e : String) where
    abbrev standings : List (String × ℤ)
    standings = sort_slice ahead (laws.scores r (key e))

    board_standings : sorted_locked e l ≡ ranked 0 standings
    board_standings =
        sorted_locked-eq e l ∙ ap (λ d. ranked 0 (sort_slice ahead d)) (sym (agrees e))

    -- A range that the server returns, numbered.
    range_numbered :
        (start stop : ℕ)
        → (res : List (String × F)) × (client.z_rev_range_with_scores
              (key e)
              (pos start)
              (pos stop)
              r
            ≡ (ok res, r))
          × (numbered client start res ≡ take (stop + 1 - start) (drop start (ranked 0 standings)))
    range_numbered start stop =
        let (res, answered, same) = laws.range_law r (key e) start stop in
        (
          res,
          answered,
          numbered-ranked start res
              ∙ ap (ranked start) same
              ∙ sym (take-ranked (stop + 1 - start) start (drop start standings))
              ∙ ap (take (stop + 1 - start)) (sym (drop-ranked_start start standings)),
        )

    board_top : (n : ℕ) → (Board.top e (pos n) l).0 ≡ ok (take n (ranked 0 standings))
    unfolding Board.top
    board_top n =
        ap ok (take_clamped n (sorted_locked e l)) ∙ ap (λ s. ok (take n s)) board_standings

    pub top-eq : (m : ℕ) → (top client e (pos (suc m)) r).0 ≡ (Board.top e (pos (suc m)) l).0
    unfolding top
    top-eq m =
        let (res, answered, same) = range_numbered 0 m in
        let asked = client.z_rev_range_with_scores (key e) (pos 0) in
        rw (top, is_positive m)
          (ap (λ x. x.0)
              (bind_ok (context "ZREVRANGE" (asked (pos (suc m) -ℤ pos 1)))
                (λ res. pure (numbered client 0 res)) r r res
                (context_ok "ZREVRANGE" (asked (pos (suc m) -ℤ pos 1)) r r res
                  (ap (λ n. asked n r) (pred_pos m) ∙ answered)))
            ∙ ap ok (same ∙ ap (λ n. take n (ranked 0 standings)) {y = suc m} (omega arith))
            ∙ sym (board_top (suc m)))

    -- A rank that the server gives, or its error for no rank.
    board_place : (p : String) → find_index p 0 (sorted_locked e l) ≡ place p 0 standings
    board_place p = ap (find_index p 0) board_standings ∙ find_index-place p 0 0 standings

    board_entry :
        (p : String)
        → find_player p (sorted_locked e l)
          ≡ entry_at p (lookup p (laws.scores r (key e))) (place p 0 standings)
    board_entry p =
        ap (find_player p) board_standings
        ∙ find_player-place p 0 standings
        ∙ ap (λ s. entry_at p s (place p 0 standings))
            (lookup-sort_slice p (laws.scores r (key e)) (laws.one_score r (key e)))

    rank_found :
        (p : String) (i : ℕ)
        → place p 0 standings ≡ some i
        → or_not_ranked "ZREVRANK" (client.z_rev_rank (key e) p) r ≡ (ok (pos i), r)
    unfolding or_not_ranked
    rank_found p i found = rw (or_not_ranked, laws.rank_law r (key e) p i found) refl

    rank_missing :
        (p : String)
        → place p 0 standings ≡ none
        → or_not_ranked "ZREVRANK" (client.z_rev_rank (key e) p) r ≡ (err err_player_not_ranked, r)
    unfolding or_not_ranked is_error string_eq
    rank_missing p missing = rw (or_not_ranked, laws.no_rank_law r (key e) p missing) refl

    score_found :
        (p : String) (s : ℤ)
        → lookup p (laws.scores r (key e)) ≡ some s
        → (z : F) × (or_not_ranked "ZSCORE" (client.z_score (key e) p) r ≡ (ok z, r))
          × (client.to_int64 z ≡ s)
    unfolding or_not_ranked
    score_found p s found =
        let (z, answered, same) = laws.score_law r (key e) p s found in
        (z, rw (or_not_ranked, answered) refl, same)

    board_rank :
        (p : String) (o : Option Entry)
        → find_player p (sorted_locked e l) ≡ o
        → (Board.rank e p l).0
          ≡ (elim o as (λ _. Result Entry) [ none ↦ err err_player_not_ranked | some x ↦ ok x ])
    unfolding Board.rank
    board_rank p o h =
        ap
          (λ (q : Option Entry). elim q as (λ _. Result Entry) [
            | none ↦ err err_player_not_ranked
            | some x ↦ ok x
          ])
          h

    -- `Rank` after the rank.
    abbrev score_after : String → ℤ → Action R Entry
    score_after p i = or_not_ranked "ZSCORE" (client.z_score (key e) p) >>= λ z.
        pure (record { player_id = p; score = client.to_int64 z; rank = pos_part i + 1 })

    pub rank-eq : (p : String) → (rank client e p r).0 ≡ (Board.rank e p l).0
    unfolding rank
    rank-eq p = elim (Option-cases (place p 0 standings)) [
      | inl missing ↦
          ap (λ x. x.0)
            (bind_err (or_not_ranked "ZREVRANK" (client.z_rev_rank (key e) p)) (score_after p) r r
              err_player_not_ranked (rank_missing p missing))
          ∙ sym (
              board_rank p none
                (board_entry p ∙ ap (entry_at p (lookup p (laws.scores r (key e)))) missing))
      | inr (i, found) ↦
          let (s, placed) = score_of_place p i 0 standings found in
          let scored =
            sym (lookup-sort_slice p (laws.scores r (key e)) (laws.one_score r (key e))) ∙ placed in
          let (z, answered, same) = score_found p s scored in
          let next : i + 1 ≡ suc i = omega arith in
          ap (λ x. x.0)
            (bind_ok (or_not_ranked "ZREVRANK" (client.z_rev_rank (key e) p)) (score_after p) r r
                (pos i) (rank_found p i found)
              ∙ bind_ok (or_not_ranked "ZSCORE" (client.z_score (key e) p))
                  (λ z. pure (record { player_id = p; score = client.to_int64 z; rank = i + 1 })) r
                  r z answered)
          ∙ ap₂ (λ t n. ok (record { player_id = p; score = t; rank = n })) same next
          ∙ sym (
              board_rank p (some (record { player_id = p; score = s; rank = suc i }))
                (board_entry p ∙ ap₂ (entry_at p) scored found))
    ]

    board_around :
        (p : String) (radius : ℕ) (o : Option ℕ)
        → place p 0 standings ≡ o
        → (Board.around e p (pos radius) l).0 ≡ (elim o as (λ _. Result (List Entry)) [
          | none ↦ err err_player_not_ranked
          | some i ↦ ok (window radius i (ranked 0 standings))
        ])
    unfolding Board.around
    board_around p radius o h =
        ap₂
          (λ (q : Option ℕ) (sorted : List Entry). elim q as (λ _. Result (List Entry)) [
            | none ↦ err err_player_not_ranked
            | some i ↦ ok (window radius i sorted)
          ])
          (board_place p ∙ h) board_standings

    window-eq :
        (radius i : ℕ) (sorted : List Entry)
        → window radius i sorted ≡ take (i + radius + 1 - (i - radius)) (drop (i - radius) sorted)
    unfolding window
    window-eq radius i sorted = take_clamped-drop (i + radius + 1) (i - radius) sorted

    -- `Around` after the rank.
    abbrev range_from : ℕ → ℤ → Action R (List Entry)
    range_from start stop =
        context "ZREVRANGE" (client.z_rev_range_with_scores (key e) (pos start) stop) >>= λ res.
        pure (numbered client start res)

    abbrev range_after : ℤ → ℤ → Action R (List Entry)
    range_after radius i = range_from (start_of i radius) (i +ℤ radius)

    range_found :
        (radius i : ℕ)
        → (range_after (pos radius) (pos i) r).0 ≡ ok (window radius i (ranked 0 standings))
    range_found radius i =
        let (res, answered, same) = range_numbered (i - radius) (i + radius) in
        let asked = client.z_rev_range_with_scores (key e) (pos (i - radius)) (pos (i + radius)) in
        ap₂ (λ start stop. (range_from start stop r).0) (start_pos i radius) (stop_pos i radius)
        ∙ ap (λ x. x.0)
            (bind_ok (context "ZREVRANGE" asked) (λ res. pure (numbered client (i - radius) res)) r
              r res (context_ok "ZREVRANGE" asked r r res answered))
        ∙ ap ok (same ∙ sym (window-eq radius i (ranked 0 standings)))

    pub around-eq :
        (p : String) (radius : ℕ)
        → (around client e p (pos radius) r).0 ≡ (Board.around e p (pos radius) l).0
    unfolding around
    around-eq p radius = elim (Option-cases (place p 0 standings)) [
      | inl missing ↦
          ap (λ x. x.0)
            (bind_err (or_not_ranked "ZREVRANK" (client.z_rev_rank (key e) p))
              (range_after (pos radius)) r r err_player_not_ranked (rank_missing p missing))
          ∙ sym (board_around p radius none missing)
      | inr (i, found) ↦
          ap (λ x. x.0)
            (bind_ok (or_not_ranked "ZREVRANK" (client.z_rev_rank (key e) p))
              (range_after (pos radius)) r r (pos i) (rank_found p i found))
          ∙ range_found radius i
          ∙ sym (board_around p radius (some i) found)
    ]
