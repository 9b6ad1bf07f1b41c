-- ===== src/Ranking/Redis/Places.antt =====
-- The places and stretches of a list of standings, as Redis counts them.
use stage_sync.Base.{
  ℕ, zero, suc, ◌+◌, ◌-◌, String, false, List, [], ◌∷◌, Option, none, some, ◌≡◌, refl, ap, sym, ◌∙◌,
  ◌==◌, string_eq, if◌then◌else◌, take, drop, eq_of_==, arith, Option-cases, inl, inr, Bool-cases,
}
use stage_sync.Base.Dict.{lookup}
use stage_sync.Base.Int.{ℤ, pos, ◌+ℤ◌, ◌-ℤ◌, leb_ℤ}
use stage_sync.Base.Sort.{sort_slice}
use stage_sync.Ranking.{Entry}
use stage_sync.Ranking.Board.{
  Leaderboard, ahead, ranked, sorted_locked, find_player, find_index, inner_of, score_of,
}
use stage_sync.Ranking.Rank.{==_sym}
use stage_sync.Ranking.Redis.{place, start_of}

pub take-ranked : (n i : ℕ) (l : List (String × ℤ)) → take n (ranked i l) ≡ ranked i (take n l)
unfolding ranked
take-ranked zero i l = refl
take-ranked (suc n) i [] = refl
take-ranked (suc n) i ((p, s) ∷ l) =
    ap (λ r. record { player_id = p; score = s; rank = suc i } ∷ r) (take-ranked n (suc i) l)

pub drop-ranked :
    (n i : ℕ) (l : List (String × ℤ)) → drop n (ranked i l) ≡ ranked (i + n) (drop n l)
unfolding ranked
drop-ranked zero i l = ap (λ j. ranked j l) (omega arith)
drop-ranked (suc n) i [] = refl
drop-ranked (suc n) i ((p, s) ∷ l) =
    drop-ranked n (suc i) l ∙ ap (λ j. ranked j (drop n l)) (omega arith)

-- A player with a place has a score.
pub score_of_place :
    (p : String) (i j : ℕ) (l : List (String × ℤ))
    → place p j l ≡ some i
    → (s : ℤ) × (lookup p l ≡ some s)
unfolding lookup
score_of_place p i j [] h = ground arith
score_of_place p i j ((q, s) ∷ l) h = elim (Bool-cases (q == p)) [
  | inl same ↦ (s, rw (==_sym p q, same) refl)
  | inr other ↦
      let (t, found) =
        score_of_place p i (suc j) l
          (sym (ap (λ b. if b then some j else place p (suc j) l) other) ∙ h) in
      (t, rw (==_sym p q, other) found)
]

pub drop-ranked_start : (n : ℕ) (l : List (String × ℤ)) → drop n (ranked 0 l) ≡ ranked n (drop n l)
drop-ranked_start n l = drop-ranked n 0 l ∙ ap (λ j. ranked j (drop n l)) (omega arith)

pub find_index-place :
    (p : String) (i j : ℕ) (l : List (String × ℤ)) → find_index p i (ranked j l) ≡ place p i l
unfolding find_index ranked
find_index-place p i j [] = refl
find_index-place p i j ((q, s) ∷ l) =
    ap (λ r. if q == p then some i else r) (find_index-place p (suc i) (suc j) l)

-- The entry of a player at a place.
abbrev pub entry_at : String → Option ℤ → Option ℕ → Option Entry
entry_at p s none = none
entry_at p s (some i) = some (record { player_id = p; score = score_of s; rank = suc i })

pub find_player-place :
    (p : String) (j : ℕ) (l : List (String × ℤ))
    → find_player p (ranked j l) ≡ entry_at p (lookup p l) (place p j l)
unfolding find_player ranked lookup
find_player-place p j [] = refl
find_player-place p j ((q, s) ∷ l) = elim (Bool-cases (q == p)) [
  | inl same ↦
      rw (same, ==_sym p q, same)
        (ap (λ i. some (record { player_id = i; score = s; rank = suc j })) (eq_of_== q p same))
  | inr other ↦ rw (other, ==_sym p q, other) (find_player-place p (suc j) l)
]

pub sorted_locked-eq :
    (e : String) (l : Leaderboard)
    → sorted_locked e l ≡ ranked 0 (sort_slice ahead (inner_of (lookup e l)))
unfolding sorted_locked sort_slice ranked
sorted_locked-eq e l = elim (Option-cases (lookup e l)) [
  | inl none_yet ↦ rw (sorted_locked, none_yet) refl
  | inr (inner, found) ↦ rw (sorted_locked, found) refl
]

pub is_positive : (m : ℕ) → leb_ℤ (pos (suc m)) (pos 0) ≡ false
is_positive m = ground arith

pub pred_pos : (m : ℕ) → pos (suc m) -ℤ pos 1 ≡ pos m
unfolding ◌-ℤ◌
pred_pos m = ground arith

pub start_pos : (i r : ℕ) → start_of (pos i) (pos r) ≡ i - r
unfolding ◌-ℤ◌
start_pos i r = ground arith

pub stop_pos : (i r : ℕ) → pos i +ℤ pos r ≡ pos (i + r)
unfolding ◌+ℤ◌
stop_pos i r = ground arith
