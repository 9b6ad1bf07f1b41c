-- ===== src/Gacha/Stored.antt =====
-- `Roll` over the in-memory repository: the stored counter against the stored history.
use stage_sync.Base.{
  ℕ, zero, suc, String, false, List, [], ◌∷◌, ◌++◌, All, All-append, ◌≡◌, refl, arith, ap, sym,
  subst, ◌∙◌, keep, keep-append, ◌==◌, string_eq, eq_of_==, Bool-cases, inl, inr, ◌&&◌, ◌||◌, ◌≢◌,
}
use mathlib.Core.List.{append-nil}
use stage_sync.Base.Dict.{lookup, lookup-insert, lookup-insert_self}
use stage_sync.Base.Int.{ℤ, pos, pos_part, ltb_ℤ}
use stage_sync.Runtime.{Result, ok, err, Result-cases, Time, context, pure, ◌>>=◌, ◌>>◌}
use stage_sync.Gacha.{CardPool, Roll}
use stage_sync.Gacha.Pool.{PoolRegistry}
use stage_sync.Gacha.Repo.{
  GachaRepo, pity_key, or_zero, get_pity, insert_rolls_and_update_pity, inmem_repo,
}
use stage_sync.Gacha.Since.{since, since-append, IsBounded, IsBounded-append, since-lt}
use stage_sync.Gacha.Pity.{IsFairPool, IsOwned, IsRolled, roll_loop-IsRolled}
use stage_sync.Gacha.Service.{
  Source, roll, roll_from, roll_loop, has_no_cards, draw, new_roll, on_repo, on_source,
}

-- The stored rolls of one player in one pool, oldest first.
abbrev pub history : String → String → List Roll → List Roll
history player_id pool_id = keep (λ r. r.player_id == player_id && r.pool_id == pool_id)

-- The stored counter is the number of rolls since the last SSR, and that number has always been
-- below the threshold.
pub record IsCounted (threshold : ℕ) (player_id pool_id : String) (r : GachaRepo) : Type 0 where
  pub counter :
      or_zero (lookup (pity_key player_id pool_id) r.pity)
      ≡ pos (since 0 (history player_id pool_id r.rolls))
  pub bounded : IsBounded threshold 0 (history player_id pool_id r.rolls)

-- The table after the loop has ended.
abbrev stored : Result (List Roll × ℤ) → String → String → GachaRepo → GachaRepo
stored (err e) player_id pool_id r = r
stored (ok (rolls, pity)) player_id pool_id r =
    (insert_rolls_and_update_pity rolls player_id pool_id pity r).1

history_owned :
    (player_id pool_id : String) (rolls : List Roll)
    → All (IsOwned player_id pool_id) rolls
    → history player_id pool_id rolls ≡ rolls
history_owned player_id pool_id [] h = refl
history_owned player_id pool_id (r ∷ rolls) h =
    ground (arith, h.0.0, h.0.1, history_owned player_id pool_id rolls h.1)

history_others :
    (player_id pool_id p q : String) (rolls : List Roll)
    → (p == player_id && q == pool_id) ≡ false
    → All (IsOwned p q) rolls
    → history player_id pool_id rolls ≡ []
history_others player_id pool_id p q [] n h = refl
history_others player_id pool_id p q (r ∷ rolls) n h =
    ground (arith, h.0.0, h.0.1, history_others player_id pool_id p q rolls n h.1)

module _ {W : Type 0} (pools : PoolRegistry) (src : Source W) (threshold : ℕ)
    (player_id pool_id : String) where
  stored-IsCounted :
      (pool : CardPool) (now : Time) (n : ℕ) (result : Result (List Roll × ℤ)) (r : GachaRepo)
      → IsCounted threshold player_id pool_id r
      → IsRolled src player_id pool_id pool now threshold
          (since 0 (history player_id pool_id r.rolls))
          n
          []
          result
      → IsCounted threshold player_id pool_id (stored result player_id pool_id r)
  unfolding insert_rolls_and_update_pity
  stored-IsCounted pool now n (err e) r c h = c
  stored-IsCounted pool now n (ok (rolls, pity)) r c (new, out, len, q, bounded, g, owned) =
      let key = pity_key player_id pool_id in
      let grown : history player_id pool_id (r.rolls ++ rolls)
          ≡ history player_id pool_id r.rolls ++ new =
        keep-append (λ r. r.player_id == player_id && r.pool_id == pool_id) r.rolls rolls
        ∙ ap (◌++◌ (history player_id pool_id r.rolls))
            (ap (history player_id pool_id) out ∙ history_owned player_id pool_id new owned) in
      record {
        counter =
            rw (lookup-insert_self key pity r.pity, grown)
              (q ∙ ap pos (sym (since-append 0 (history player_id pool_id r.rolls) new)));
        bounded = rw grown (
            IsBounded-append threshold 0 (history player_id pool_id r.rolls) new c.bounded bounded);
      }

  after_loop :
      (p q : String) (done : Result (List Roll × ℤ) × W) (r : GachaRepo)
      → ((on_source (λ _. done) >>= λ d.
            (context "repo.InsertRollsAndUpdatePity"
                (on_repo (inmem_repo.insert_rolls_and_update_pity d.0 p q d.1))
              >> pure d.0))
          (r, done.1)).1.0
        ≡ stored done.0 p q r
  unfolding insert_rolls_and_update_pity
  after_loop p q (err e, w) r = refl
  after_loop p q (ok (rolls, pity), w) r = refl

  roll_from-stored :
      (p q : String) (count : ℤ) (pool : CardPool) (r : GachaRepo) (w : W)
      → let (now, w') = src.now w in
        (roll_from inmem_repo pools src p q count pool (r, w)).1.0
        ≡ stored
            (roll_loop src p q pool now
              (pos_part count)
              []
              (or_zero (lookup (pity_key p q) r.pity))
              w').0
            p
            q
            r
  unfolding roll_from get_pity insert_rolls_and_update_pity
  roll_from-stored p q count pool r w =
      let (now, w') = src.now w in
      after_loop p q
        (roll_loop src p q pool now (pos_part count) [] (or_zero (lookup (pity_key p q) r.pity)) w')
        r

  abbrev OwnedRolls : String → String → Result (List Roll × ℤ) → Type 0
  OwnedRolls p q (err e) = Unit
  OwnedRolls p q (ok (rolls, _)) = All (IsOwned p q) rolls

  roll_loop-OwnedRolls :
      (p q : String) (pool : CardPool) (now : Time) (n : ℕ) (rolls : List Roll) (pity : ℤ) (w : W)
      → All (IsOwned p q) rolls
      → OwnedRolls p q (roll_loop src p q pool now n rolls pity w).0
  unfolding roll_loop
  roll_loop-OwnedRolls p q pool now zero rolls pity w h = h
  roll_loop-OwnedRolls p q pool now (suc n) rolls pity w h =
      let (d, w') = draw src.int_n pool pity w in
      elim (Result-cases (src.new_v7 w').0) [
        | inr (x, failed) ↦ rw failed tt
        | inl (id, made) ↦
            rw (made, roll_loop)
              (roll_loop-OwnedRolls p q pool now n (rolls ++ new_roll src p q pool now id d ∷ [])
                d.2 (src.new_v7 w').1
                (All-append (IsOwned p q) rolls (new_roll src p q pool now id d ∷ []) h
                  ((refl, refl), tt)))
      ]

  stored-IsCounted_other :
      (p q : String) (result : Result (List Roll × ℤ)) (r : GachaRepo)
      → pity_key p q ≢ pity_key player_id pool_id
      → OwnedRolls p q result
      → IsCounted threshold player_id pool_id r
      → IsCounted threshold player_id pool_id (stored result p q r)
  unfolding insert_rolls_and_update_pity
  stored-IsCounted_other p q (err e) r ne o c = c
  stored-IsCounted_other p q (ok (rolls, pity)) r ne o c =
      let same : history player_id pool_id (r.rolls ++ rolls) ≡ history player_id pool_id r.rolls =
        keep-append (λ r. r.player_id == player_id && r.pool_id == pool_id) r.rolls rolls
        ∙ ap (◌++◌ (history player_id pool_id r.rolls))
            (history_others player_id pool_id p q rolls (differ p q ne) o)
        ∙ append-nil (history player_id pool_id r.rolls) in
      record {
        counter = rw (same) (
            ground (
              arith,
              c.counter,
              lookup-insert (pity_key player_id pool_id) (pity_key p q) pity r.pity,
              ne,
            ));
        bounded = rw same c.bounded;
      }
    where
      differ :
          (p q : String)
          → pity_key p q ≢ pity_key player_id pool_id
          → (p == player_id && q == pool_id) ≡ false
      differ p q ne = elim (Bool-cases (p == player_id && q == pool_id)) [
        | inr e ↦ e
        | inl e ↦ absurd (ne (ground (arith, e)))
      ]

  -- `Roll` leaves the table alone, or it finds the pool and goes on.
  roll-cases :
      (P : GachaRepo → Type 0) (p q : String) (count : ℤ) (r : GachaRepo) (w : W)
      → P r
      → ((pool : CardPool)
          → pools q ≡ ok pool
          → P (roll_from inmem_repo pools src p q count pool (r, w)).1.0)
      → P (roll inmem_repo pools src p q count (r, w)).1.0
  unfolding roll
  roll-cases P p q count r w same more =
      elim (Bool-cases (ltb_ℤ count (pos 1) || ltb_ℤ (pos 10) count)) [
        | inl bad ↦ rw bad same
        | inr good ↦ elim (Result-cases (pools q)) [
          | inr (e, missing) ↦ rw (good, missing) same
          | inl (pool, found) ↦ elim (Bool-cases (has_no_cards pool.cards)) [
            | inl empty ↦ rw (good, found, empty) same
            | inr cards ↦ rw (good, found, cards) (more pool found)
          ]
        ]
      ]

  own :
      (other pool : CardPool)
      → pools pool_id ≡ ok other
      → pools pool_id ≡ ok pool
      → IsFairPool pool threshold
      → (r : GachaRepo) (now : Time) (w : W) (n : ℕ) → IsCounted threshold player_id pool_id r
      → IsCounted threshold player_id pool_id (
          stored
            (roll_loop src player_id pool_id other now n []
              (or_zero (lookup (pity_key player_id pool_id) r.pity))
              w).0
            player_id
            pool_id
            r)
  own other pool there found fair r now w n c =
      let same : other ≡ pool = cc in
      rw same (
        stored-IsCounted pool now n _ r c (
          roll_loop-IsRolled src player_id pool_id pool now threshold n []
            (since 0 (history player_id pool_id r.rolls)) _ w fair c.counter
            (since-lt threshold 0 (history player_id pool_id r.rolls) c.bounded)))

  -- Each call of `Roll`, by whom, for which pool and for how many cards it may be, and whether it
  -- succeeds or fails, keeps the stored counter of a player in a fair pool equal to the number of
  -- that player's rolls there since the last SSR, and keeps that number below the threshold. The
  -- call must not be one whose counter is stored under the same key for another player or pool.
  pub roll-IsCounted :
      (pool : CardPool) (p q : String) (count : ℤ) (r : GachaRepo) (w : W)
      → pools pool_id ≡ ok pool
      → IsFairPool pool threshold
      → (pity_key p q ≡ pity_key player_id pool_id → (p ≡ player_id) × (q ≡ pool_id))
      → IsCounted threshold player_id pool_id r
      → IsCounted threshold player_id pool_id (roll inmem_repo pools src p q count (r, w)).1.0
  unfolding roll
  roll-IsCounted pool p q count r w found fair one_key c =
      roll-cases (IsCounted threshold player_id pool_id) p q count r w c λ other there.
        rw (roll_from-stored p q count other r w)
          (elim (Bool-cases (pity_key p q == pity_key player_id pool_id)) [
            | inr ne ↦
                stored-IsCounted_other p q _ r (λ e. ground arith)
                  (roll_loop-OwnedRolls p q other (src.now w).0 (pos_part count) []
                    (or_zero (lookup (pity_key p q) r.pity)) (src.now w).1 tt)
                  c
            | inl e ↦
                let (ep, eq) = one_key (eq_of_== (pity_key p q) (pity_key player_id pool_id) e) in
                rw (ep, eq)
                  (own other pool (subst (λ q. pools q ≡ ok other) eq there) found fair r
                    (src.now w).0 (src.now w).1 (pos_part count) c)
          ])
