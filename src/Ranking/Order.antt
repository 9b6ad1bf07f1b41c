-- ===== src/Ranking/Order.antt =====
-- The order of internal/persistence/inmem/leaderboard.go is a strict total order on players with
-- their scores, so the standings do not depend on the order in which a map is visited.
use stage_sync.Base.{
  String, [], ◌∷◌, none, some, true, false, ◌≡◌, refl, ap, ap₂, arith, ◌==◌, string_eq, All, ◌||◌,
  eq_of_==, ==_refl, subst, subst,
}
use mathlib.Core.List.{Perm}
use text.Mathlib.TextEquality.{IsScalar-prop}
use stage_sync.Base.Dict.{lookup, NodupKeys}
use stage_sync.Base.Int.{ℤ, eq_of_parts}
use stage_sync.Base.Sort.{
  IsIrreflexive, IsTransitive, IsTrichotomous, AreApart, sort_slice, sort_slice-Perm, IsAscending,
  sort_slice-IsAscending, insert_sorted,
}
use stage_sync.Base.Text.{text_lt_irrefl, text_lt_trans, text_lt_tri}
use stage_sync.Ranking.Board.{ahead, Scores, sorted_locked, Leaderboard, ranked}

pub ahead_irrefl : IsIrreflexive ahead
unfolding ahead
ahead_irrefl a = ground (arith, text_lt_irrefl a.0)

pub ahead_trans : IsTransitive ahead
unfolding ahead
ahead_trans a b c h k = ground (arith, text_lt_trans c.0 b.0 a.0)

pub ahead_tri : IsTrichotomous ahead
unfolding ahead
ahead_tri a b h k =
    ap₂ (λ p s. (p, s)) (text_lt_tri a.0 b.0 (ground arith) (ground arith))
      (eq_of_parts a.1 b.1 (ground arith))

Score_set : IsSet (String × ℤ)
Score_set = hlevel IsScalar-prop

-- Two leaderboards whose maps of an event hold the same scores, visited in any two orders, have the
-- same standings of that event.
pub sorted_locked-Perm :
    (event_id : String) (l l' : Leaderboard) (inner inner' : Scores)
    → lookup event_id l ≡ some inner
    → lookup event_id l' ≡ some inner'
    → Perm inner inner'
    → sorted_locked event_id l ≡ sorted_locked event_id l'
unfolding sorted_locked
sorted_locked-Perm event_id l l' inner inner' h h' p =
    rw (sorted_locked, h, h')
      (ap (ranked 0) (sort_slice-Perm ahead ahead_trans ahead_tri ahead_irrefl Score_set p))

same_player : (a b : String × ℤ) → ahead a b ≡ false → ahead b a ≡ false → (a.0 == b.0) ≡ true
same_player a b h k =
    subst (λ p. (a.0 == p) ≡ true) (ap (λ e. e.0) (ahead_tri a b h k)) (==_refl a.0)

-- A player without an entry is apart from all entries.
AreApart-none :
    (p : String) (s : ℤ) (d : Scores)
    → lookup p d ≡ none
    → All (λ e. (ahead (p, s) e || ahead e (p, s)) ≡ true) d
unfolding lookup
AreApart-none p s [] h = tt
AreApart-none p s ((q, t) ∷ d) h =
    ground (arith, AreApart-none p s d, same_player (p, s) (q, t), ==_refl p)

NodupKeys-AreApart :
    (d : Scores) → NodupKeys d → AreApart ahead ahead_trans ahead_tri ahead_irrefl d
NodupKeys-AreApart [] u = tt
NodupKeys-AreApart ((p, s) ∷ d) (fresh, u) = (AreApart-none p s d fresh, NodupKeys-AreApart d u)

pub sorted-IsAscending : (d : Scores) → NodupKeys d → IsAscending ahead (sort_slice ahead d)
sorted-IsAscending d u =
    sort_slice-IsAscending ahead ahead_trans ahead_tri ahead_irrefl d (NodupKeys-AreApart d u)

lookup-insert_sorted :
    (k p : String) (s : ℤ) (d : Scores)
    → lookup p d ≡ none
    → lookup k (insert_sorted ahead (p, s) d) ≡ lookup k ((p, s) ∷ d)
unfolding lookup insert_sorted
lookup-insert_sorted k p s [] h = refl
lookup-insert_sorted k p s ((q, t) ∷ d) h =
    ground (arith, lookup-insert_sorted k p s d, eq_of_== k p, eq_of_== k q, ==_refl p)

-- Sorting keeps every player's score.
pub lookup-sort_slice :
    (k : String) (d : Scores) → NodupKeys d → lookup k (sort_slice ahead d) ≡ lookup k d
unfolding lookup sort_slice
lookup-sort_slice k [] u = refl
lookup-sort_slice k ((p, s) ∷ d) (fresh, u) = ground (
  arith,
  lookup-insert_sorted k p s (sort_slice ahead d),
  lookup-sort_slice p d u,
  lookup-sort_slice k d u,
)

pub sorted_locked-eq :
    (event_id : String) (l : Leaderboard) (inner : Scores)
    → lookup event_id l ≡ some inner
    → sorted_locked event_id l ≡ ranked 0 (sort_slice ahead inner)
unfolding sorted_locked
sorted_locked-eq event_id l inner h = rw (sorted_locked, h) refl
