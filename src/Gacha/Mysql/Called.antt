-- ===== src/Gacha/Mysql/Called.antt =====
-- internal/service/gacha/service.go over internal/persistence/mysql/gacha_repo.go: a call of Roll stores
-- the rolls that it returns, or nothing.
use stage_sync.Base.{
  String, Bool, true, false, List, [], ◌||◌, ◌⊎◌, inl, inr, if◌then◌else◌, ◌≡◌, refl, ap, ap₂, sym,
  ◌∙◌, subst,
}
use stage_sync.Base.Int.{ℤ, pos, pos_part, ltb_ℤ}
use stage_sync.Runtime.{Result, ok, err, Action, Time, context, pure, fail, ◌>>=◌, ◌>>◌}
use stage_sync.Runtime.Post.{Post, on_ok, on_err, Post-map, Post-context, Post-bind}
use stage_sync.Gacha.{Roll, CardPool, err_empty_pool, err_invalid_count}
use stage_sync.Gacha.Pool.{PoolRegistry}
use stage_sync.Gacha.Service.{
  Source, roll, roll_from, roll_loop, has_no_cards, on_repo, on_source, from_result, read_now,
}
use stage_sync.Gacha.Mysql.{
  Queries, mysql_repo, pity_outcome, mysql_get_pity, mysql_insert_rolls_and_update_pity,
}
use stage_sync.Gacha.Mysql.Atomic.{
  Same, Same-trans, Same-refl, saved-Same, saved_rows, rows, IsCommitError, SaveLaws,
  save_atomic_lem,
}

-- A call on one of the two states.
module _ {S W A : Type 0} {P : A → S → Type 0} {Q : S → Type 0} where
  on_repo-Post :
      (m : Action S A) (x : S × W)
      → Post P Q (m x.0)
      → Post (λ a (y : S × W). P a y.0 × (y.1 ≡ x.1)) (λ (y : S × W). Q y.0) (on_repo m x)
  on_repo-Post m x = go (m x.0)
    where
      go :
          (q : Result A × S)
          → Post P Q q
          → Post
              (λ a (y : S × W). P a y.0 × (y.1 ≡ x.1))
              (λ (y : S × W). Q y.0)
              (on_repo (λ _. q) x)
      go (ok a, s) (on_ok h) = on_ok (h, refl)
      go (err e, s) (on_err h) = on_err h

on_source-Post :
    {S W A : Type 0} (P : S → Type 0) (m : Action W A) (x : S × W)
    → P x.0
    → Post
        (λ (a : A) (y : S × W). P y.0 × (m x.1 ≡ (ok a, y.1)))
        (λ (y : S × W). P y.0)
        (on_source m x)
on_source-Post {S} {W} {A} P m x h = go (m x.1) refl
  where
    go :
        (q : Result A × W)
        → m x.1 ≡ q
        → Post
            (λ (a : A) (y : S × W). P y.0 × (m x.1 ≡ (ok a, y.1)))
            (λ (y : S × W). P y.0)
            (on_source (λ _. q) x)
    go (ok a, w) same = on_ok (h, same)
    go (err e, w) same = on_err h

module _ {D T W : Type 0} (queries : Queries D T) (laws : SaveLaws queries) (src : Source W)
    (pools : PoolRegistry) (p q : String) (count : ℤ) where
  abbrev Kept : D → D → Type 0
  Kept d d' = Same (laws.committed d') (laws.committed d)

  -- The rolls and the counter that the loop of this request ends with, from the counter that the
  -- database answers.
  abbrev pub Drawn : D → W → List Roll → ℤ → Type 0
  Drawn d w rolls c =
      (pool : CardPool) × (pity : ℤ) × (pools q ≡ ok pool)
      × ((mysql_get_pity queries p q d).0 ≡ ok pity)
      × ((roll_loop src p q pool (src.now w).0 (pos_part count) [] pity (src.now w).1).0
          ≡ ok (rolls, c))

  -- The committed tables are those of before with the rolls and the counter of this request.
  abbrev pub Stored : D → W → List Roll → D → Type 0
  Stored d w rolls d' =
      (c : ℤ) × Drawn d w rolls c
      × Same (laws.committed d') (saved_rows queries laws rolls p q c (laws.committed d))

  abbrev pub Refused : D → W → D → Type 0
  Refused d w d' =
      Kept d d' ⊎ (IsCommitError queries laws d' × ((rolls : List Roll) × Stored d w rolls d'))

  abbrev save_rolls : List Roll × ℤ → Action (D × W) (List Roll)
  save_rolls done =
      context "repo.InsertRollsAndUpdatePity"
        (on_repo (mysql_insert_rolls_and_update_pity queries done.0 p q done.1))
      >> pure done.0

  abbrev draw_rolls : CardPool → ℤ → Time → Action (D × W) (List Roll)
  draw_rolls pool pity now =
      on_source (roll_loop src p q pool now (pos_part count) [] pity) >>= save_rolls

  abbrev read_clock : CardPool → ℤ → Action (D × W) (List Roll)
  read_clock pool pity =
      on_source (read_now (mysql_repo queries) pools src) >>= draw_rolls pool pity

  abbrev IsCall : D → W → Result (List Roll) × (D × W) → Type 0
  IsCall d w = Post (λ rolls x. Stored d w rolls x.0) (λ x. Refused d w x.0)

  save_rolls-IsCall :
      (d : D) (w : W) (done : List Roll × ℤ) (x : D × W)
      → Drawn d w done.0 done.1
      → Kept d x.0
      → IsCall d w (save_rolls done x)
  save_rolls-IsCall d w (rolls, c) x drawn kept =
      let insert_all = mysql_insert_rolls_and_update_pity queries rolls p q c in
      let call = context "repo.InsertRollsAndUpdatePity" (on_repo insert_all) in
      let moved = saved-Same (rows queries laws rolls) (laws.fold p) (laws.fold q) c kept in
      Post-bind call (λ _. pure rolls) x
        (Post-context "repo.InsertRollsAndUpdatePity" (on_repo insert_all) x (
          on_repo-Post insert_all x (
            Post-map (save_atomic_lem queries laws rolls p q c x.0) (λ u d' h. Same-trans h moved)
              (λ d' h. elim h [
                | inl same ↦ inl (Same-trans same kept)
                | inr (late, new) ↦ inr (late, (rolls, (c, drawn, Same-trans new moved)))
              ]))))
        (λ u x' h. on_ok (c, drawn, h.0))

  -- A call that keeps the tables, whatever it answers.
  call-Kept :
      {A : Type 0} (d : D) (w : W) (r : Result A) (d' : D)
      → Kept d d'
      → Post (λ a s. Kept d s × (r ≡ ok a)) (Refused d w) (r, d')
  call-Kept d w (ok a) d' h = on_ok (h, refl)
  call-Kept d w (err e) d' h = on_err (inl h)

  get_pity-Kept :
      (d : D) (w : W)
      → Post
          (λ c s. Kept d s × ((mysql_get_pity queries p q d).0 ≡ ok c))
          (Refused d w)
          (mysql_get_pity queries p q d)
  unfolding mysql_get_pity
  get_pity-Kept d w =
      let (c, d') = queries.get_pity p q d in
      call-Kept d w (pity_outcome c) d' (laws.get_pity p q d)

  -- What the clock gives.
  read_now-eq :
      (w w1 w2 : W) (now : Time)
      → w1 ≡ w
      → read_now (mysql_repo queries) pools src w1 ≡ (ok now, w2)
      → ((src.now w).0 ≡ now) × ((src.now w).1 ≡ w2)
  read_now-eq w w1 w2 now same e =
      let read = ap (read_now (mysql_repo queries) pools src) (sym same) ∙ e in
      (
        ap (λ (r : Result Time × W). elim r.0 as (λ _. Time) [ ok t ↦ t | err e ↦ now ]) read,
        ap (λ r. r.1) read,
      )

  -- The loop, after the clock has been read.
  drawn_lem :
      (d : D) (w w2 w3 : W) (pool : CardPool) (pity : ℤ) (now : Time) (done : List Roll × ℤ)
      → pools q ≡ ok pool
      → (mysql_get_pity queries p q d).0 ≡ ok pity
      → ((src.now w).0 ≡ now) × ((src.now w).1 ≡ w2)
      → roll_loop src p q pool now (pos_part count) [] pity w2 ≡ (ok done, w3)
      → Drawn d w done.0 done.1
  drawn_lem d w w2 w3 pool pity now done found answered (time, world) e = (
    pool,
    pity,
    found,
    answered,
    ap₂ (λ t v. (roll_loop src p q pool t (pos_part count) [] pity v).0) time world
        ∙ ap (λ r. r.0) e,
  )

  roll_from-IsCall :
      (d : D) (w : W) (pool : CardPool)
      → pools q ≡ ok pool
      → IsCall d w (roll_from (mysql_repo queries) pools src p q count pool (d, w))
  unfolding roll_from
  roll_from-IsCall d w pool found =
      let get = mysql_get_pity queries p q in
      let loop = λ (now : Time) (pity : ℤ). roll_loop src p q pool now (pos_part count) [] pity in
      Post-bind (context "repo.GetPity" (on_repo get)) (read_clock pool) (d, w)
        (Post-context "repo.GetPity" (on_repo get) (d, w)
          (on_repo-Post get (d, w) (get_pity-Kept d w)))
        (λ pity x1 ((k1, answered), same).
          Post-bind (on_source (read_now (mysql_repo queries) pools src)) (draw_rolls pool pity) x1
            (Post-map (on_source-Post (Kept d) (read_now (mysql_repo queries) pools src) x1 k1)
              (λ a s h. h) (λ s h. inl h))
            (λ now x2 (k2, e2).
              Post-bind (on_source (loop now pity)) save_rolls x2
                (Post-map (on_source-Post (Kept d) (loop now pity) x2 k2) (λ a s h. h)
                  (λ s h. inl h))
                (λ done x3 (k3, e3).
                  save_rolls-IsCall d w done x3
                    (drawn_lem d w x2.1 x3.1 pool pity now done found answered
                      (read_now-eq w x1.1 x2.1 now same e2) e3)
                    k3)))

  found_pool :
      (d : D) (r : Result CardPool) (w : W)
      → Post (λ pool x. (x ≡ (d, w)) × (r ≡ ok pool)) (λ x. Refused d w x.0) (from_result r (d, w))
  found_pool d (ok pool) w = on_ok (refl, refl)
  found_pool d (err e) w = on_err (inl (Same-refl (laws.committed d)))

  abbrev after_pool : CardPool → Action (D × W) (List Roll)
  after_pool pool =
      if has_no_cards pool.cards
      then fail err_empty_pool
      else roll_from (mysql_repo queries) pools src p q count pool

  cards-IsCall :
      (d : D) (w : W) (b : Bool) (pool : CardPool)
      → pools q ≡ ok pool
      → IsCall d w (
          (if b
              then fail err_empty_pool
              else roll_from (mysql_repo queries) pools src p q count pool)
            (d, w))
  cards-IsCall d w true pool found = on_err (inl (Same-refl (laws.committed d)))
  cards-IsCall d w false pool found = roll_from-IsCall d w pool found

  limits-IsCall :
      (b : Bool) (d : D) (w : W)
      → IsCall d w (
          (if b
              then fail err_invalid_count
              else context "pools.GetPool" (from_result (pools q)) >>= after_pool)
            (d, w))
  limits-IsCall true d w = on_err (inl (Same-refl (laws.committed d)))
  limits-IsCall false d w =
      Post-bind (context "pools.GetPool" (from_result (pools q))) after_pool (d, w)
        (Post-context "pools.GetPool" (from_result (pools q)) (d, w) (found_pool d (pools q) w))
        (λ pool x (same, found).
          subst (λ x. IsCall d w (after_pool pool x)) (sym same)
            (cards-IsCall d w (has_no_cards pool.cards) pool found))

  -- A call of Roll over MySQL that returns rolls has stored the rows of exactly these and the counter,
  -- which are what the loop gives for the pool, the clock and the counter that the database answers,
  -- and changed nothing else. One that answers an error, at whatever point, has stored nothing, or
  -- `Commit` has answered the error and the rows of these rolls and the counter are stored together.
  -- A row has the time of its roll to the second and the ID without spaces at its end; the counter is
  -- that of the keys of the player and the pool under the collation.
  pub roll_stored_lem :
      (d : D) (w : W)
      → Post
          (λ rolls x. Stored d w rolls x.0)
          (λ x. Refused d w x.0)
          (roll (mysql_repo queries) pools src p q count (d, w))
  unfolding roll
  roll_stored_lem d w = limits-IsCall (ltb_ℤ count (pos 1) || ltb_ℤ (pos 10) count) d w
