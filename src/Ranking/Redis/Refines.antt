-- ===== src/Ranking/Redis/Refines.antt =====
-- internal/persistence/redis/leaderboard.go implements the leaderboard that
-- internal/persistence/inmem/leaderboard.go is.
use stage_sync.Base.{
  ℕ, suc, String, true, false, ◌≡◌, ap, sym, ◌∙◌, ◌==◌, string_eq, eq_of_==, ==_refl, subst, arith,
  inl, inr, Bool-cases,
}
use text.Mathlib.TextLemmas.{append_cancel_left}
use stage_sync.Base.Dict.{lookup, insert, lookup-insert_other, lookup-insert_self}
use stage_sync.Base.Int.{ℤ, pos, ◌+ℤ◌, add64, add64-eq, IsInt64}
use stage_sync.Runtime.{ok, pure, context, bind_ok, context_ok}
use stage_sync.Ranking.Board
use stage_sync.Ranking.Board.{Leaderboard, Scores, inner_of, score_of}
use stage_sync.Ranking.Redis.{SortedSets, SortedSetLaws, key, incr_by, top, rank, around, IsExact}
use stage_sync.Ranking.Redis.Reads.{Agrees, top-eq, rank-eq, around-eq}

exact-IsInt64 : (a : ℤ) → IsExact a → IsInt64 a
exact-IsInt64 a h = ground arith

-- Two events have two keys.
keys_apart : (e e' : String) → (e' == e) ≡ false → (key e' == key e) ≡ false
keys_apart e e' other = elim (Bool-cases (key e' == key e)) [
  | inl same ↦
      let events = append_cancel_left "ranking:event:" e' e (eq_of_== (key e') (key e) same) in
      ground (arith, other, subst (λ i. (e' == i) ≡ true) events (==_refl e'))
  | inr differ ↦ differ
]

module _ {F R : Type 0} (client : SortedSets F R) (laws : SortedSetLaws client) (r : R)
    (l : Leaderboard) (agrees : Agrees client laws r l) (e : String) where
  -- The score of a player after an increment.
  abbrev pub total : String → ℤ → ℤ
  total p delta = score_of (lookup p (laws.scores r (key e))) +ℤ delta

  -- The increment of the leaderboard in memory.
  board_incr :
      (p : String) (delta : ℤ)
      → IsExact (total p delta)
      → Board.incr_by e p delta l
        ≡ (ok (total p delta), insert e (insert p (total p delta) (laws.scores r (key e))) l)
  unfolding Board.incr_by
  board_incr p delta exact =
      let scores = laws.scores r (key e) in
      ap
        (λ (d : Scores). (
          ok (add64 (score_of (lookup p d)) delta),
          insert e (insert p (add64 (score_of (lookup p d)) delta) d) l,
        ))
        (sym (agrees e))
      ∙ ap (λ t. (ok t, insert e (insert p t scores) l))
          (add64-eq (score_of (lookup p scores)) delta (exact-IsInt64 (total p delta) exact))

  agrees_after :
      (r' : R) (d : Scores) (e' : String)
      → laws.scores r' (key e) ≡ d
      → ((j : String) → (j == key e) ≡ false → laws.scores r' j ≡ laws.scores r j)
      → laws.scores r' (key e') ≡ inner_of (lookup e' (insert e d l))
  agrees_after r' d e' stored others = elim (Bool-cases (e' == e)) [
    | inl same ↦
        ap (λ i. laws.scores r' (key i)) (eq_of_== e' e same)
        ∙ stored
        ∙ ap inner_of (
            sym (ap (λ i. lookup i (insert e d l)) (eq_of_== e' e same) ∙ lookup-insert_self e d l))
    | inr other ↦
        others (key e') (keys_apart e e' other)
        ∙ agrees e'
        ∙ ap inner_of (sym (lookup-insert_other e' e d l other))
  ]

  -- Over a server whose sorted sets keep the documented behaviour, with the scores that a leaderboard
  -- in memory has, and where the increment and the new total both have at most
  -- the absolute value 2^53: `IncrBy` answers the same
  -- and leaves the server and the leaderboard with the same scores of every event; and `Top` for at
  -- least one entry, `Rank`, and `Around` with a radius of at least 0 answer the same, errors included.
  pub redis_refines_lem :
      (p : String) (delta : ℤ) (m radius : ℕ)
      → IsExact delta
      → IsExact (total p delta)
      → ((incr_by client e p delta r).0 ≡ (Board.incr_by e p delta l).0)
        × Agrees client laws (incr_by client e p delta r).1 (Board.incr_by e p delta l).1
        × ((top client e (pos (suc m)) r).0 ≡ (Board.top e (pos (suc m)) l).0)
        × ((rank client e p r).0 ≡ (Board.rank e p l).0)
        × ((around client e p (pos radius) r).0 ≡ (Board.around e p (pos radius) l).0)
  unfolding incr_by
  redis_refines_lem p delta m radius exact_delta exact =
      let (z, r', answered, same, stored, others) =
        laws.incr_law r (key e) p delta exact_delta exact in
      let call = client.z_incr_by (key e) (client.of_int64 delta) p in
      let incremented =
        bind_ok (context "ZINCRBY" call) (λ z. pure (client.to_int64 z)) r r' z
          (context_ok "ZINCRBY" call r r' z answered) in
      let stepped = board_incr p delta exact in
      let scores = insert p (total p delta) (laws.scores r (key e)) in
      (
        ap (λ x. x.0) incremented ∙ ap ok same ∙ sym (ap (λ x. x.0) stepped),
        λ e'.
            ap (λ x. laws.scores x.1 (key e')) incremented
            ∙ agrees_after r' scores e' stored others
            ∙ ap (λ x. inner_of (lookup e' x.1)) (sym stepped),
        top-eq client laws r l agrees e m,
        rank-eq client laws r l agrees e p,
        around-eq client laws r l agrees e p radius,
      )
