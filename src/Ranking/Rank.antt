-- ===== src/Ranking/Rank.antt =====
-- internal/persistence/inmem/leaderboard.go: `Rank` against its meaning, the number of players ahead;
-- and `Top` through internal/service/ranking.
use stage_sync.Base.Text.{text_lt}
use stage_sync.Base.{
  Bool, ◌||◌, ◌&&◌, ℕ, zero, suc, ◌+◌, ◌≤◌, String, List, [], ◌∷◌, none, some, true, ◌≡◌, refl, ap,
  ap₂, ◌∙◌, arith, ◌==◌, string_eq, if◌then◌else◌, All, length, keep, take, eq_of_==, ==_refl,
  take_clamped, length-take_le, ltb,
}
use stage_sync.Base.Dict.{lookup, NodupKeys}
use stage_sync.Base.Int.{ℤ, pos, negsuc, pos_part, ltb_ℤ, leb_ℤ}
use stage_sync.Base.Sort.{sort_slice, IsAscending, keep-sort_slice}
use stage_sync.Runtime.{ok}
use stage_sync.Ranking.{Entry}
use stage_sync.Ranking.Board.{
  ahead, Scores, Leaderboard, ranked, find_player, sorted_locked, rank, top, inmem_store,
}
use stage_sync.Ranking.Service.{service_rank, service_top}
use stage_sync.Ranking.Order.{
  ahead_irrefl, ahead_trans, sorted-IsAscending, lookup-sort_slice, sorted_locked-eq,
}

-- An entry has a higher score than a player's, or the same score and an ID that comes later.
abbrev pub outranks : String → ℤ → String × ℤ → Bool
outranks p s e = ltb_ℤ s e.1 || ((leb_ℤ s e.1 && leb_ℤ e.1 s) && text_lt p e.0)

pub ahead-outranks : (p : String) (s : ℤ) (e : String × ℤ) → ahead e (p, s) ≡ outranks p s e
unfolding ahead
ahead-outranks p s e = ground arith

-- How many entries outrank a player's.
abbrev pub count_ahead : String → ℤ → Scores → ℕ
count_ahead p s d = length (keep (outranks p s) d)

pub none_ahead :
    (p : String) (s : ℤ) (d : Scores) → All (λ e. ahead (p, s) e ≡ true) d → count_ahead p s d ≡ 0
none_ahead p s [] h = refl
none_ahead p s (e ∷ d) h = ground (
  arith,
  none_ahead p s d,
  ahead_irrefl (p, s),
  ahead-outranks p s e,
  ahead_trans (p, s) e (p, s),
  h,
)

pub All-ahead :
    (x : String × ℤ) (p : String) (s : ℤ) (d : Scores)
    → All (λ e. ahead x e ≡ true) d
    → lookup p d ≡ some s
    → ahead x (p, s) ≡ true
unfolding lookup
All-ahead x p s [] h k = ground arith
All-ahead x p s ((q, t) ∷ d) h k = ground (arith, All-ahead x p s d h.1, h.0, eq_of_== p q)

pub ==_sym : (p q : String) → (p == q) ≡ (q == p)
==_sym p q = ground (arith, eq_of_== p q, eq_of_== q p, ==_refl p)

-- In a sorted list a player's entry is numbered after those that stand ahead.
find_player-ranked :
    (p : String) (s : ℤ) (i : ℕ) (d : Scores)
    → IsAscending ahead d
    → lookup p d ≡ some s
    → find_player p (ranked i d)
      ≡ some (record { player_id = p; score = s; rank = i + suc (count_ahead p s d) })
unfolding lookup find_player ranked
find_player-ranked p s i [] h k = ground arith
find_player-ranked p s i ((q, t) ∷ d) h k = ground (
  arith,
  find_player-ranked p s (suc i) d h.1,
  none_ahead q t d h.0,
  All-ahead (q, t) p s d h.0,
  ahead_irrefl (q, t),
  ahead-outranks p s (q, t),
  eq_of_== p q,
  ==_sym p q,
)

-- A player who has a score in an event is ranked: `Rank` answers the score with, as the rank, one more
-- than the number of the event's players who have a higher score or, at an equal score, an ID that
-- comes later. The leaderboard stays as it is.
pub service_rank_lem :
    (event_id p : String) (s : ℤ) (l : Leaderboard) (inner : Scores)
    → lookup event_id l ≡ some inner
    → NodupKeys inner
    → lookup p inner ≡ some s
    → service_rank inmem_store event_id p l
      ≡ (ok (record { player_id = p; score = s; rank = suc (count_ahead p s inner) }), l)
unfolding service_rank rank sorted_locked
service_rank_lem event_id p s l inner h u k =
    let sorted = sort_slice ahead inner in
    let found =
      find_player-ranked p s 0 sorted (sorted-IsAscending inner u)
        (lookup-sort_slice p inner u ∙ k) in
    rw (h, found, keep-sort_slice ahead (outranks p s) inner)
      (ap (λ n. (ok (record { player_id = p; score = s; rank = n }), l)) (omega arith))

find_player-take :
    (p : String) (s : ℤ) (n i : ℕ) (d : Scores)
    → IsAscending ahead d
    → lookup p d ≡ some s
    → find_player p (take n (ranked i d)) ≡ (
        if ltb (count_ahead p s d) n
        then some (record { player_id = p; score = s; rank = i + suc (count_ahead p s d) })
        else none)
unfolding lookup find_player ranked
find_player-take p s zero i d h k = ground arith
find_player-take p s (suc n) i [] h k = ground arith
find_player-take p s (suc n) i ((q, t) ∷ d) h k = ground (
  arith,
  find_player-take p s n (suc i) d h.1,
  none_ahead q t d h.0,
  All-ahead (q, t) p s d h.0,
  ahead_irrefl (q, t),
  ahead-outranks p s (q, t),
  eq_of_== p q,
  ==_sym p q,
)

-- The limit of a query for `n` entries.
abbrev pub top_limit : ℤ → ℕ
top_limit n = if leb_ℤ n (pos 0) then 10 else pos_part n

top-eq :
    (event_id : String) (n : ℕ) (l : Leaderboard)
    → top event_id (pos n) l ≡ (ok (take n (sorted_locked event_id l)), l)
unfolding top
top-eq event_id n l = ap (λ es. (ok es, l)) (take_clamped n (sorted_locked event_id l))

service_top-eq :
    (event_id : String) (n : ℤ) (l : Leaderboard)
    → leb_ℤ n (pos 100) ≡ true
    → service_top inmem_store event_id n l ≡ (ok (take (top_limit n) (sorted_locked event_id l)), l)
unfolding service_top
service_top-eq event_id (pos n) l b = ground (arith, top-eq event_id n l, top-eq event_id 10 l)
service_top-eq event_id (negsuc n) l b = ground (arith, top-eq event_id 10 l)

-- A query for the top `n` of an event, for `n` up to 100, succeeds and lists at most `n` entries, 10
-- where `n` is not positive. A player of the event is listed exactly where fewer than that many are
-- ahead, and then with their score and one more than the number of those ahead as the rank.
pub service_top_lem :
    (event_id p : String) (s n : ℤ) (l : Leaderboard) (inner : Scores)
    → leb_ℤ n (pos 100) ≡ true
    → lookup event_id l ≡ some inner
    → NodupKeys inner
    → lookup p inner ≡ some s
    → (es : List Entry) × (service_top inmem_store event_id n l ≡ (ok es, l))
      × (length es ≤ top_limit n)
      × (find_player p es ≡ (
          if ltb (count_ahead p s inner) (top_limit n)
          then some (record { player_id = p; score = s; rank = suc (count_ahead p s inner) })
          else none))
service_top_lem event_id p s n l inner b h u k =
    let sorted = sort_slice ahead inner in
    let same = keep-sort_slice ahead (outranks p s) inner in
    let es = take (top_limit n) (ranked 0 (sort_slice ahead inner)) in
    (
      es,
      service_top-eq event_id n l b
          ∙ ap (λ sorted. (ok (take (top_limit n) sorted), l))
              (sorted_locked-eq event_id l inner h),
      length-take_le (top_limit n) (ranked 0 (sort_slice ahead inner)),
      find_player-take p s (top_limit n) 0 sorted (sorted-IsAscending inner u)
            (lookup-sort_slice p inner u ∙ k)
          ∙ ap₂
              (λ c r.
                if ltb c (top_limit n)
                then some (record { player_id = p; score = s; rank = r })
                else none)
              same (omega (arith, same)),
    )
