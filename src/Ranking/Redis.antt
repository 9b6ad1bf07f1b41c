-- ===== src/Ranking/Redis.antt =====
-- internal/persistence/redis/leaderboard.go: the leaderboard in Redis. The client and the server's
-- sorted sets are parameters; `F` is `float64`.
use stage_sync.Base.{
  ℕ, suc, ◌+◌, ◌-◌, ◌≤◌, String, ◌<>◌, Bool, false, List, [], ◌∷◌, Option, none, some, ◌≡◌, ◌==◌,
  string_eq, if◌then◌else◌, take, drop, map,
}
use stage_sync.Base.Dict.{lookup, insert, NodupKeys}
use stage_sync.Base.Int.{ℤ, pos, negsuc, pos_part, neg_part, ◌+ℤ◌, ◌-ℤ◌, ltb_ℤ, leb_ℤ}
use stage_sync.Base.Sort.{sort_slice}
use stage_sync.Runtime.{
  GoError, sentinel, wrap, is_error, Result, ok, err, Action, pure, context, ◌>>=◌,
}
use stage_sync.Ranking.{Entry, Store, err_player_not_ranked}
use stage_sync.Ranking.Board.{Scores, ahead, score_of}
pub mod Places
pub mod Reads
pub mod Refines
mod Tests

-- The calls of go-redis that the code makes, and Go's conversions between `int64` and `float64`.
pub record SortedSets (F R : Type 0) : Type 0 where
  pub of_int64 : ℤ → F
  pub to_int64 : F → ℤ
  pub z_incr_by : String → F → String → Action R F
  pub z_rev_range_with_scores : String → ℤ → ℤ → Action R (List (String × F))
  pub z_rev_rank : String → String → Action R ℤ
  pub z_score : String → String → Action R F

-- `goredis.Nil`
abbrev pub redis_nil : GoError
redis_nil = sentinel "redis.Nil" "redis: nil"

-- `key`
abbrev pub key : String → String
key event_id = "ranking:event:" <> event_id

-- What becomes of an error of the client.
unfoldable pub or_not_ranked : {R A : Type 0} → String → Action R A → Action R A
or_not_ranked text m r =
    let (a, r') = m r in
    (
      elim a [
        | ok v ↦ ok v
        | err e ↦ if is_error e "redis.Nil" then err err_player_not_ranked else err (wrap text e)
      ],
      r',
    )

-- `rank - radius`, or 0 where that is below 0.
abbrev pub start_of : ℤ → ℤ → ℕ
start_of i radius = pos_part (i -ℤ radius)

module _ {F R : Type 0} (client : SortedSets F R) where
  -- The loop that numbers what a range returned, the first with `i + 1`.
  unfoldable pub numbered : ℕ → List (String × F) → List Entry
  numbered i [] = []
  numbered i ((p, score) ∷ res) =
      record { player_id = p; score = client.to_int64 score; rank = suc i } ∷ numbered (suc i) res

  -- `IncrBy`
  unfoldable pub incr_by : String → String → ℤ → Action R ℤ
  incr_by event_id player_id delta =
      context "ZINCRBY" (client.z_incr_by (key event_id) (client.of_int64 delta) player_id) >>= λ z.
      pure (client.to_int64 z)

  -- `Top`
  unfoldable pub top : String → ℤ → Action R (List Entry)
  unfolding numbered
  top event_id n =
      if leb_ℤ n (pos 0)
      then pure []
      else context "ZREVRANGE" (client.z_rev_range_with_scores (key event_id) (pos 0) (n -ℤ pos 1))
        >>= λ res. pure (numbered 0 res)

  -- `Rank`
  unfoldable pub rank : String → String → Action R Entry
  unfolding or_not_ranked
  rank event_id player_id =
      or_not_ranked "ZREVRANK" (client.z_rev_rank (key event_id) player_id) >>= λ i.
      or_not_ranked "ZSCORE" (client.z_score (key event_id) player_id) >>= λ score.
      pure (record { player_id = player_id; score = client.to_int64 score; rank = pos_part i + 1 })

  -- `Around`
  unfoldable pub around : String → String → ℤ → Action R (List Entry)
  unfolding or_not_ranked numbered
  around event_id player_id radius =
      or_not_ranked "ZREVRANK" (client.z_rev_rank (key event_id) player_id) >>= λ i.
      context "ZREVRANGE"
        (client.z_rev_range_with_scores (key event_id) (pos (start_of i radius)) (i +ℤ radius))
      >>= λ res. pure (numbered (start_of i radius) res)

  abbrev pub redis_store : Store R
  redis_store = record { incr_by = incr_by; top = top; rank = rank; around = around }

-- The place of a member in a list, from `i` on.
abbrev pub place : String → ℕ → List (String × ℤ) → Option ℕ
place p i [] = none
place p i ((q, s) ∷ l) = let rest = place p (suc i) l in if q == p then some i else rest

-- A whole number that a double holds, with all between it and 0.
abbrev pub IsExact : ℤ → Type 0
IsExact a = (pos_part a ≤ 9007199254740992) × (neg_part a ≤ 9007199254740992)

-- What the documentation of Redis promises of sorted sets whose scores are such numbers: `scores` are
-- the members of a set with their scores; the reverse order has the highest score first and the last
-- name in byte order first among equal scores; a range has both its ends, and may reach past the end.
pub record SortedSetLaws {F R : Type 0} (client : SortedSets F R) : Type 0 where
  pub scores : R → String → Scores
  pub one_score : (r : R) (k : String) → NodupKeys (scores r k)
  pub incr_law :
      (r : R) (k p : String) (delta : ℤ)
      → IsExact delta
      → IsExact (score_of (lookup p (scores r k)) +ℤ delta)
      → (z : F) × (r' : R) × (client.z_incr_by k (client.of_int64 delta) p r ≡ (ok z, r'))
        × (client.to_int64 z ≡ score_of (lookup p (scores r k)) +ℤ delta)
        × (scores r' k ≡ insert p (score_of (lookup p (scores r k)) +ℤ delta) (scores r k))
        × ((j : String) → (j == k) ≡ false → scores r' j ≡ scores r j)
  pub range_law :
      (r : R) (k : String) (start stop : ℕ)
      → (res : List (String × F)) × (client.z_rev_range_with_scores k (pos start) (pos stop) r
          ≡ (ok res, r))
        × (map (λ z. (z.0, client.to_int64 z.1)) res
            ≡ take (stop + 1 - start) (drop start (sort_slice ahead (scores r k))))
  pub rank_law :
      (r : R) (k p : String) (i : ℕ)
      → place p 0 (sort_slice ahead (scores r k)) ≡ some i
      → client.z_rev_rank k p r ≡ (ok (pos i), r)
  pub no_rank_law :
      (r : R) (k p : String)
      → place p 0 (sort_slice ahead (scores r k)) ≡ none
      → client.z_rev_rank k p r ≡ (err redis_nil, r)
  pub score_law :
      (r : R) (k p : String) (s : ℤ)
      → lookup p (scores r k) ≡ some s
      → (z : F) × (client.z_score k p r ≡ (ok z, r)) × (client.to_int64 z ≡ s)
