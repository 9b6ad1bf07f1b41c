-- ===== src/Ranking/Redis/Tests.antt =====
-- A server that is the list of its increments, and the theorem on it.
use stage_sync.Base.{
  ℕ, ◌+◌, ◌-◌, String, List, [], ◌∷◌, Option, none, some, ◌≡◌, refl, ap, ◌==◌, string_eq,
  if◌then◌else◌, ==_refl, take, drop, arith, if_intro,
}
use mathlib.Core.List.{map-id}
use stage_sync.Base.Dict.{lookup, insert, NodupKeys, insert-NodupKeys}
use stage_sync.Base.Int.{ℤ, pos, negsuc, ◌+ℤ◌, add64, wrap64}
use stage_sync.Base.Sort.{sort_slice}
use stage_sync.Runtime.{other, ok, err, Result}
use stage_sync.Ranking.Board
use stage_sync.Ranking.Board.{Scores, ahead, score_of, Leaderboard}
use stage_sync.Ranking.Redis.{
  SortedSets, SortedSetLaws, redis_nil, place, incr_by, top, rank, around,
}
use stage_sync.Ranking.Redis.Reads.{Agrees}
use stage_sync.Ranking.Redis.Refines.{redis_refines_lem}

-- The last increment first: a key, a member and what is added.
abbrev Log : Type 0
Log = List (String × String × ℤ)

abbrev added : String → ℤ → Scores → Scores
added p delta scores = insert p (score_of (lookup p scores) +ℤ delta) scores

abbrev scores_in : Log → String → Scores
scores_in [] j = []
scores_in ((k, p, delta) ∷ log) j =
    let scores = scores_in log j in if j == k then added p delta scores else scores

abbrev range_in : ℤ → ℤ → List (String × ℤ) → Result (List (String × ℤ))
range_in (pos start) (pos stop) l = ok (take (stop + 1 - start) (drop start l))
range_in (pos start) (negsuc stop) l = err (other "from the end")
range_in (negsuc start) stop l = err (other "from the end")

abbrev or_nil : {A : Type 0} → Option A → Result A
or_nil none = err redis_nil
or_nil (some a) = ok a

abbrev as_rank : Option ℕ → Result ℤ
as_rank none = err redis_nil
as_rank (some i) = ok (pos i)

abbrev server : SortedSets ℤ Log
server = record {
  of_int64 = λ a. a;
  to_int64 = λ a. a;
  z_incr_by =
      λ k delta p log. (ok (score_of (lookup p (scores_in log k)) +ℤ delta), (k, p, delta) ∷ log);
  z_rev_range_with_scores =
      λ k start stop log. (range_in start stop (sort_slice ahead (scores_in log k)), log);
  z_rev_rank = λ k p log. (as_rank (place p 0 (sort_slice ahead (scores_in log k))), log);
  z_score = λ k p log. (or_nil (lookup p (scores_in log k)), log);
}

scores_in-NodupKeys : (log : Log) (j : String) → NodupKeys (scores_in log j)
scores_in-NodupKeys [] j = tt
scores_in-NodupKeys ((k, p, delta) ∷ log) j =
    if_intro NodupKeys (j == k)
      (λ _.
        insert-NodupKeys p (score_of (lookup p (scores_in log j)) +ℤ delta) (scores_in log j)
          (scores_in-NodupKeys log j))
      (λ _. scores_in-NodupKeys log j)

laws : SortedSetLaws server
laws = record {
  scores = scores_in;
  one_score = scores_in-NodupKeys;
  incr_law = λ r k p delta exact_delta exact. (
    _,
    (k, p, delta) ∷ r,
    refl,
    refl,
    ap (λ b. if b then added p delta (scores_in r k) else scores_in r k) (==_refl k),
    λ j differ. ap (λ b. if b then added p delta (scores_in r j) else scores_in r j) differ,
  );
  range_law = λ r k start stop. (_, refl, map-id _);
  rank_law = λ r k p i h. ap (λ o. (as_rank o, r)) h;
  no_rank_law = λ r k p h. ap (λ o. (as_rank o, r)) h;
  score_law = λ r k p s h. (s, ap (λ o. (or_nil o, r)) h, refl);
}

abbrev log : Log
log = ("ranking:event:spring", "ann", pos 5) ∷ []

abbrev board : Leaderboard
board = ("spring", ("ann", pos 5) ∷ []) ∷ []

empty-Agrees : Agrees server laws [] []
unfolding lookup laws
empty-Agrees e = refl

log-Agrees : Agrees server laws log board
unfolding incr_by Board.incr_by insert lookup string_eq ◌+ℤ◌ add64 wrap64 laws
log-Agrees =
    (redis_refines_lem server laws [] [] empty-Agrees "spring" "ann" (pos 5) 0 0
      (omega arith, omega arith) (omega arith, omega arith)).1

redis_refines_lem_example :
    ((incr_by server "spring" "bob" (pos 7) log).0 ≡ (Board.incr_by "spring" "bob" (pos 7) board).0)
    × Agrees server laws
        (incr_by server "spring" "bob" (pos 7) log).1
        (Board.incr_by "spring" "bob" (pos 7) board).1
    × ((top server "spring" (pos 2) log).0 ≡ (Board.top "spring" (pos 2) board).0)
    × ((rank server "spring" "bob" log).0 ≡ (Board.rank "spring" "bob" board).0)
    × ((around server "spring" "bob" (pos 3) log).0 ≡ (Board.around "spring" "bob" (pos 3) board).0)
unfolding lookup string_eq ◌+ℤ◌ laws insert
redis_refines_lem_example =
    redis_refines_lem server laws log board log-Agrees "spring" "bob" (pos 7) 1 3
      (omega arith, omega arith) (omega arith, omega arith)
