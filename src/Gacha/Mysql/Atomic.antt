-- ===== src/Gacha/Mysql/Atomic.antt =====
-- internal/persistence/mysql/gacha_repo.go: the rolls of a request and the counter are stored together,
-- or not at all.
use stage_sync.Base.{
  String, ◌<>◌, map, List, [], ◌∷◌, ◌++◌, Option, some, ◌≡◌, refl, sym, ap, ◌∙◌, subst, ◌==◌,
  string_eq, if◌then◌else◌, ◌&&◌, ◌⊎◌, inl, inr,
}
use mathlib.Core.List.{Perm, append_assoc, append-nil}
use mathlib.Core.List.Perm
use stage_sync.Base.Int.{ℤ, wrap32}
use stage_sync.Runtime.{GoError, Result, ok, err, context, Time}
use stage_sync.Runtime.Post.{Post, on_ok, on_err, Post-map, Post-context, Post-bind}
use stage_sync.Gacha.{Roll}
use stage_sync.Gacha.Mysql.{
  Queries, insert_rolls, save_in_tx, end_save, mysql_insert_rolls_and_update_pity,
}

-- The rows of the two tables: the rolls in some order, and the counter of a player in a pool.
pub record Tables : Type 0 where
  pub rolls : List Roll
  pub pity : String → String → Option ℤ

-- The tables do not say in which order their rows stand.
abbrev pub Same : Tables → Tables → Type 0
Same a b = Perm a.rolls b.rolls × ((p q : String) → a.pity p q ≡ b.pity p q)

abbrev pub with_rolls : List Roll → Tables → Tables
with_rolls rolls t = record { rolls = t.rolls ++ rolls; pity = t.pity }

abbrev pub with_pity : String → String → ℤ → Tables → Tables
with_pity player_id pool_id c t = record {
  rolls = t.rolls;
  pity = λ p q. if (p == player_id) && (q == pool_id) then some c else t.pity p q;
}

-- A roll as its row keeps it: a CHAR column drops the spaces at the end of the ID, and a TIMESTAMP
-- column keeps a time to the second.
abbrev pub roll_row : (String → String) → (Time → Time) → Roll → Roll
roll_row trimmed to_second roll = record roll {
  id = trimmed roll.id;
  pulled_at = to_second roll.pulled_at;
}

-- What MySQL documents, in its strict mode, where a value that does not fit is an error, of the tables
-- that a database has committed and that a transaction sees. The key of the counters has a collation
-- that takes texts for equal that differ in case: `fold` is what it compares, and a counter is that of
-- two such keys. A transaction sees what was committed when it began and what it has written since; others see that when it is
-- committed. `Commit` may fail before or after that, and a rollback after it does nothing.
pub record SaveLaws {D T : Type 0} (queries : Queries D T) : Type 0 where
  pub fold : String → String
  pub trimmed : String → String
  pub to_second : Time → Time
  pub committed : D → Tables
  pub seen : T → Tables
  pub begin_tx :
      (d : D)
      → Post
          (λ t d'. Same (seen t) (committed d) × Same (committed d') (committed d))
          (λ d'. Same (committed d') (committed d))
          (queries.begin_tx d)
  pub get_pity : (p q : String) (d : D) → Same (committed (queries.get_pity p q d).1) (committed d)
  pub insert_roll :
      (roll : Roll) (t : T)
      → Post
          (λ u t'. Same (seen t') (with_rolls (roll_row trimmed to_second roll ∷ []) (seen t)))
          (λ t'. Unit)
          (queries.insert_roll roll t)
  pub upsert_pity :
      (p q : String) (c : ℤ) (t : T)
      → Post
          (λ u t'. Same (seen t') (with_pity (fold p) (fold q) c (seen t)))
          (λ t'. Unit)
          (queries.upsert_pity p q c t)
  pub commit :
      (t : T) (d : D)
      → Post
          (λ u d'. Same (committed d') (seen t))
          (λ d'. Same (committed d') (committed d) ⊎ Same (committed d') (seen t))
          (queries.commit t d)
  pub rollback : (t : T) (d : D) → Same (committed (queries.rollback t d)) (committed d)

pub Same-refl : (t : Tables) → Same t t
Same-refl t = (Perm.refl t.rolls, λ p q. refl)

pub Same-trans : {a b c : Tables} → Same a b → Same b c → Same a c
Same-trans (h, k) (h', k') = (Perm.trans h h', λ p q. k p q ∙ k' p q)

with_rolls-Same :
    (rolls : List Roll) {a b : Tables} → Same a b → Same (with_rolls rolls a) (with_rolls rolls b)
with_rolls-Same rolls (h, k) = (Perm.append_right rolls h, k)

with_pity-Same :
    (p q : String) (c : ℤ) {a b : Tables} → Same a b → Same (with_pity p q c a) (with_pity p q c b)
with_pity-Same p q c (h, k) =
    (h, λ p' q'. ap (λ o. if (p' == p) && (q' == q) then some c else o) (k p' q'))

with_rolls-cons :
    (roll : Roll) (rolls : List Roll) (t : Tables)
    → Same (with_rolls rolls (with_rolls (roll ∷ []) t)) (with_rolls (roll ∷ rolls) t)
with_rolls-cons roll rolls t = (
  subst (λ l. Perm (t.rolls ++ roll ∷ [] ++ rolls) l) (append_assoc t.rolls (roll ∷ []) rolls)
      (Perm.refl (t.rolls ++ roll ∷ [] ++ rolls)),
  λ p q. refl,
)

-- The tables with the rolls of a request and the new counter, of which MySQL keeps 32 bits.
abbrev pub saved : List Roll → String → String → ℤ → Tables → Tables
saved rolls p q c t = with_pity p q (wrap32 c) (with_rolls rolls t)

pub saved-Same :
    (rolls : List Roll) (p q : String) (c : ℤ) {a b : Tables}
    → Same a b
    → Same (saved rolls p q c a) (saved rolls p q c b)
saved-Same rolls p q c h = with_pity-Same p q (wrap32 c) (with_rolls-Same rolls h)

module _ {D T : Type 0} (queries : Queries D T) (laws : SaveLaws queries) where
  -- The rows of some rolls.
  abbrev pub rows : List Roll → List Roll
  rows = map (roll_row laws.trimmed laws.to_second)

  -- The tables after a request has been saved.
  abbrev pub saved_rows : List Roll → String → String → ℤ → Tables → Tables
  saved_rows rolls p q c t = saved (rows rolls) (laws.fold p) (laws.fold q) c t

  insert_rolls_lem :
      (rolls : List Roll) (t : T)
      → Post
          (λ u t'. Same (laws.seen t') (with_rolls (rows rolls) (laws.seen t)))
          (λ t. Unit)
          (insert_rolls queries rolls t)
  unfolding insert_rolls
  insert_rolls_lem [] t = on_ok (
    subst (λ l. Perm (laws.seen t).rolls l) (sym (append-nil (laws.seen t).rolls))
        (Perm.refl (laws.seen t).rolls),
    λ p q. refl,
  )
  insert_rolls_lem (roll ∷ rolls) t =
      Post-bind (context ("insert roll " <> roll.id) (queries.insert_roll roll))
        (λ _. insert_rolls queries rolls) t
        (Post-context ("insert roll " <> roll.id) (queries.insert_roll roll) t
          (laws.insert_roll roll t))
        (λ u t' h.
          Post-map (insert_rolls_lem rolls t')
            (λ u t'' k. Same-trans k (
              Same-trans (with_rolls-Same (rows rolls) h) (
                with_rolls-cons (roll_row laws.trimmed laws.to_second roll) (rows rolls)
                  (laws.seen t))))
            (λ t'' k. k))

  save_in_tx_lem :
      (rolls : List Roll) (p q : String) (c : ℤ) (t : T)
      → Post
          (λ u t'. Same (laws.seen t') (saved_rows rolls p q c (laws.seen t)))
          (λ t. Unit)
          (save_in_tx queries rolls p q c t)
  unfolding save_in_tx
  save_in_tx_lem rolls p q c t =
      let upsert = queries.upsert_pity p q (wrap32 c) in
      Post-bind (insert_rolls queries rolls) (λ _. context "upsert pity" upsert) t
        (insert_rolls_lem rolls t)
        (λ u t' h.
          Post-map (Post-context "upsert pity" upsert t' (laws.upsert_pity p q (wrap32 c) t'))
            (λ u t'' k. Same-trans k (with_pity-Same (laws.fold p) (laws.fold q) (wrap32 c) h))
            (λ t'' k. k))

  -- The end of a transaction whose `Commit` has answered an error.
  abbrev pub IsCommitError : D → Type 0
  IsCommitError d' =
      (t : T) × (d : D) × (e : GoError) × ((queries.commit t d).0 ≡ err e)
      × (queries.rollback t (queries.commit t d).1 ≡ d')

  -- After an error the tables are as before, or the error came from `Commit` after it had taken effect.
  abbrev Untouched : Tables → Tables → D → Type 0
  Untouched before after d =
      Same (laws.committed d) before ⊎ (IsCommitError d × Same (laws.committed d) after)

  end_save_lem :
      (r : Result (Unit {0}) × T) (d : D) (before after : Tables)
      → Same (laws.committed d) before
      → Post (λ u t. Same (laws.seen t) after) (λ t. Unit) r
      → Post
          (λ u d'. Same (laws.committed d') after)
          (Untouched before after)
          (end_save queries r d)
  unfolding end_save
  end_save_lem (err e, t) d before after h k = on_err (inl (Same-trans (laws.rollback t d) h))
  end_save_lem (ok u, t) d before after h (on_ok k) = go (queries.commit t d) refl (laws.commit t d)
    where
      go :
          (q : Result (Unit {0}) × D)
          → queries.commit t d ≡ q
          → Post
              (λ u d'. Same (laws.committed d') (laws.seen t))
              (λ d'.
                Same (laws.committed d') (laws.committed d)
                ⊎ Same (laws.committed d') (laws.seen t))
              q
          → Post
              (λ u d'. Same (laws.committed d') after)
              (Untouched before after)
              (let (c, d') = context "commit" (λ d. q) d in (c, queries.rollback t d'))
      go (ok u, d') same (on_ok stored) =
          on_ok (Same-trans (laws.rollback t d') (Same-trans stored k))
      go (err e, d') same (on_err failed) = on_err (elim failed [
        | inl old ↦ inl (Same-trans (laws.rollback t d') (Same-trans old h))
        | inr new ↦ inr (
          (t, d, e, ap (λ x. x.0) same, ap (λ x. queries.rollback t x.1) same),
          Same-trans (laws.rollback t d') (Same-trans new k),
        )
      ])

  -- `InsertRollsAndUpdatePity` stores all rolls and the counter, and nothing else; or answers an error,
  -- and the tables are as they were or, where `Commit` failed late, have all of it: never a part.
  pub save_atomic_lem :
      (rolls : List Roll) (p q : String) (c : ℤ) (d : D)
      → Post
          (λ u d'. Same (laws.committed d') (saved_rows rolls p q c (laws.committed d)))
          (λ d'.
            Same (laws.committed d') (laws.committed d)
            ⊎ (IsCommitError d'
                × Same (laws.committed d') (saved_rows rolls p q c (laws.committed d))))
          (mysql_insert_rolls_and_update_pity queries rolls p q c d)
  unfolding mysql_insert_rolls_and_update_pity
  save_atomic_lem rolls p q c d =
      Post-bind (context "begin tx" queries.begin_tx)
        (λ t. end_save queries (save_in_tx queries rolls p q c t)) d
        (Post-context "begin tx" queries.begin_tx d
          (Post-map (laws.begin_tx d) (λ t d' h. h) (λ d' h. inl h)))
        (λ t d' (seen, kept).
          end_save_lem (save_in_tx queries rolls p q c t) d' (laws.committed d)
            (saved_rows rolls p q c (laws.committed d)) kept
            (Post-map (save_in_tx_lem rolls p q c t)
              (λ u t' h. Same-trans h (saved-Same (rows rolls) (laws.fold p) (laws.fold q) c seen))
              (λ t' h. h)))
