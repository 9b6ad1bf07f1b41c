-- ===== src/Ranking/Window.antt =====
-- internal/persistence/inmem/leaderboard.go and internal/service/ranking: `Around`.
use stage_sync.Base.{
  ℕ, zero, suc, ◌+◌, ◌-◌, ◌≤◌, String, [], ◌∷◌, some, Bool, true, ◌≡◌, refl, ap, ◌∙◌, arith,
  string_eq, keep, take, drop, leb, ◌&&◌, subst, sym, ap₂, take_clamped-drop, take-nil, eq_of_==,
}
use stage_sync.Base.Dict.{lookup, NodupKeys}
use stage_sync.Base.Int.{ℤ, pos, negsuc, leb_ℤ}
use stage_sync.Base.Sort.{sort_slice, IsAscending, keep-sort_slice}
use stage_sync.Runtime.{ok}
use stage_sync.Ranking.{Entry}
use stage_sync.Ranking.Board.{
  ahead, Scores, Leaderboard, ranked, find_index, sorted_locked, around, window, inmem_store,
}
use stage_sync.Ranking.Service.{service_around}
use stage_sync.Ranking.Order.{ahead_irrefl, sorted-IsAscending, lookup-sort_slice, sorted_locked-eq}
use stage_sync.Ranking.Rank.{ahead-outranks, outranks, count_ahead, none_ahead, All-ahead, ==_sym}

find_index-ranked :
    (p : String) (s : ℤ) (j i : ℕ) (d : Scores)
    → IsAscending ahead d
    → lookup p d ≡ some s
    → find_index p i (ranked j d) ≡ some (i + count_ahead p s d)
unfolding lookup find_index ranked
find_index-ranked p s j i [] h k = ground arith
find_index-ranked p s j i ((q, t) ∷ d) h k = ground (
  arith,
  find_index-ranked p s (suc j) (suc i) d h.1,
  none_ahead q t d h.0,
  All-ahead (q, t) p s d h.0,
  ahead_irrefl (q, t),
  ahead-outranks p s (q, t),
  eq_of_== p q,
  ==_sym p q,
)

-- A rank from `start + 1` to `end`.
abbrev is_between : ℕ → ℕ → Entry → Bool
is_between start end e = leb (suc start) e.rank && leb e.rank end

keep-after :
    (start end i : ℕ) (d : Scores) → end ≤ i → keep (is_between start end) (ranked i d) ≡ []
unfolding ranked
keep-after start end i [] h = refl
keep-after start end i (e ∷ d) h = ground (arith, keep-after start end (suc i) d (omega (arith, h)))

keep-from :
    (start m i : ℕ) (d : Scores)
    → start ≤ i
    → keep (is_between start (i + m)) (ranked i d) ≡ take m (ranked i d)
unfolding ranked
keep-from start zero i d h = keep-after start (i + 0) i d (omega arith)
keep-from start (suc m) i [] h = refl
keep-from start (suc m) i (e ∷ d) h =
    let rest = keep-from start m (suc i) d (omega (arith, h)) in
    let same : suc i + m ≡ i + suc m = omega arith in
    ground (
      arith,
      subst (λ n. keep (is_between start n) (ranked (suc i) d) ≡ take m (ranked (suc i) d)) same
          rest,
    )

-- The entries in a range of ranks are a stretch of the numbered list.
keep-ranked :
    (k m i : ℕ) (d : Scores)
    → keep (is_between (i + k) (i + k + m)) (ranked i d) ≡ take m (drop k (ranked i d))
unfolding ranked
keep-ranked zero m i d =
    let same : i ≡ i + 0 = omega arith in
    subst (λ n. keep (is_between n (n + m)) (ranked i d) ≡ take m (ranked i d)) same
      (keep-from i m i d (omega arith))
keep-ranked (suc k) m i [] = sym (take-nil m)
keep-ranked (suc k) m i (e ∷ d) =
    let same : suc i + k ≡ i + suc k = omega arith in
    let rest =
      subst
        (λ n. keep (is_between n (n + m)) (ranked (suc i) d) ≡ take m (drop k (ranked (suc i) d)))
        same (keep-ranked k m (suc i) d) in
    ground (arith, rest)

-- The ranks at most `radius` from a rank.
abbrev pub is_near : ℕ → ℕ → Entry → Bool
is_near radius own e = leb own (e.rank + radius) && leb e.rank (own + radius)

abbrev around_radius : ℤ → ℕ
around_radius (pos n) = n
around_radius (negsuc n) = 5

keep_congr :
    (p q : Entry → Bool) (i : ℕ) (d : Scores)
    → ((e : Entry) → 1 ≤ e.rank → p e ≡ q e)
    → keep p (ranked i d) ≡ keep q (ranked i d)
unfolding ranked
keep_congr p q i [] h = refl
keep_congr p q i ((player, s) ∷ d) h = ground (
  arith,
  keep_congr p q (suc i) d h,
  h (record { player_id = player; score = s; rank = suc i }) (omega arith),
)

window-eq :
    (radius idx : ℕ) (d : Scores)
    → window radius idx (ranked 0 d) ≡ keep (is_near radius (suc idx)) (ranked 0 d)
unfolding window
window-eq radius idx d =
    let start = idx - radius in
    let past = idx + radius + 1 in
    let low : 0 + start ≡ start = omega arith in
    let high : 0 + start + (past - start) ≡ past = omega arith in
    take_clamped-drop past start (ranked 0 d)
    ∙ sym (keep-ranked start (past - start) 0 d)
    ∙ ap₂ (λ a b. keep (is_between a b) (ranked 0 d)) low high
    ∙ keep_congr (is_between start past) (is_near radius (suc idx)) 0 d (λ e h. ground arith)

around-eq :
    (event_id p : String) (s : ℤ) (radius : ℕ) (l : Leaderboard) (inner : Scores)
    → lookup event_id l ≡ some inner
    → NodupKeys inner
    → lookup p inner ≡ some s
    → around event_id p (pos radius) l
      ≡ (ok (keep (is_near radius (suc (count_ahead p s inner))) (sorted_locked event_id l)), l)
unfolding around
around-eq event_id p s radius l inner h u k =
    let sorted = sort_slice ahead inner in
    let own = count_ahead p s inner in
    let eq = sorted_locked-eq event_id l inner h in
    let same : 0 + count_ahead p s sorted ≡ own =
      omega (arith, keep-sort_slice ahead (outranks p s) inner) in
    let found =
      ap (find_index p 0) eq
      ∙ find_index-ranked p s 0 0 sorted (sorted-IsAscending inner u)
          (lookup-sort_slice p inner u ∙ k)
      ∙ ap some same in
    let listed =
      subst (λ es. window radius own es ≡ keep (is_near radius (suc own)) es) (sym eq)
        (window-eq radius own sorted) in
    rw (found) (ap (λ es. (ok es, l)) listed)

-- `Around` with a radius from 0 to 25 (5 where it is negative) on a player of an event succeeds, and
-- lists exactly the entries of the standings whose rank is at most that far from the player's own, in
-- order.
pub service_around_lem :
    (event_id p : String) (s radius : ℤ) (l : Leaderboard) (inner : Scores)
    → leb_ℤ radius (pos 25) ≡ true
    → lookup event_id l ≡ some inner
    → NodupKeys inner
    → lookup p inner ≡ some s
    → service_around inmem_store event_id p radius l ≡ (
      ok (
          keep
            (is_near (around_radius radius) (suc (count_ahead p s inner)))
            (sorted_locked event_id l)),
      l,
    )
unfolding service_around
service_around_lem event_id p s (pos n) l inner b h u k =
    ground (arith, around-eq event_id p s n l inner h u k)
service_around_lem event_id p s (negsuc n) l inner b h u k =
    ground (arith, around-eq event_id p s 5 l inner h u k)
