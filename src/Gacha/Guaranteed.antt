-- ===== src/Gacha/Guaranteed.antt =====
-- internal/service/gacha/service.go: the guarantee of an SSR over series of `Roll` calls.
use stage_sync.Base.{ℕ, String, true, List, [], ◌∷◌, ◌++◌, All, ◌≡◌, refl, subst, length, string_eq}
use stage_sync.Base.Dict.{lookup-nil}
use stage_sync.Base.Int.{ℤ}
use stage_sync.Runtime.{ok}
use stage_sync.Gacha.{CardPool, Roll}
use stage_sync.Gacha.Pool.{PoolRegistry}
use stage_sync.Gacha.Repo.{GachaRepo, new_gacha_repo, pity_key, inmem_repo}
use stage_sync.Gacha.Since.{IsBounded, has_ssr, has_ssr_of_IsBounded}
use stage_sync.Gacha.Pity.{IsFairPool}
use stage_sync.Gacha.Service.{Source, roll}
use stage_sync.Gacha.Stored.{IsCounted, history, roll-IsCounted}

-- A call of `Roll`: the player, the pool and the count.
pub record RollCall : Type 0 where
  pub player_id : String
  pub pool_id : String
  pub count : ℤ

module _ {W : Type 0} (pools : PoolRegistry) (src : Source W) where
  -- The calls one after the other, whether they succeed or fail.
  abbrev pub after_rolls : List RollCall → GachaRepo × W → GachaRepo × W
  after_rolls [] s = s
  after_rolls (c ∷ calls) s =
      after_rolls calls (roll inmem_repo pools src c.player_id c.pool_id c.count s).1

  module _ (threshold : ℕ) (player_id pool_id : String) where
    -- No counter of another player or pool is stored under the same key.
    abbrev pub HasOwnKey : RollCall → Type 0
    HasOwnKey c =
        pity_key c.player_id c.pool_id ≡ pity_key player_id pool_id
        → (c.player_id ≡ player_id) × (c.pool_id ≡ pool_id)

    after_rolls-IsCounted :
        (pool : CardPool) (calls : List RollCall) (s : GachaRepo × W)
        → pools pool_id ≡ ok pool
        → IsFairPool pool threshold
        → All HasOwnKey calls
        → IsCounted threshold player_id pool_id s.0
        → IsCounted threshold player_id pool_id (after_rolls calls s).0
    after_rolls-IsCounted pool [] s found fair own c = c
    after_rolls-IsCounted pool (call ∷ calls) s found fair own c =
        after_rolls-IsCounted pool calls
          (roll inmem_repo pools src call.player_id call.pool_id call.count s).1 found fair own.1
          (roll-IsCounted pools src threshold player_id pool_id pool call.player_id call.pool_id
            call.count s.0 s.1 found fair own.0 c)

    new_gacha_repo-IsCounted :
        (pool : CardPool)
        → IsFairPool pool threshold
        → IsCounted threshold player_id pool_id new_gacha_repo
    new_gacha_repo-IsCounted pool fair = record {
      counter = rw (lookup-nil {V = ℤ} (pity_key player_id pool_id)) refl;
      bounded = fair.threshold_pos;
    }

    -- After any series of `Roll` calls on a new repository, by any players for any pools and counts,
    -- whether they succeed or fail, any stretch of as many consecutive stored rolls of a player in a
    -- fair pool as the pool's threshold holds an SSR. No call may be one whose counter is stored under
    -- the same key for another player or pool.
    pub guaranteed_ssr :
        (pool : CardPool) (calls : List RollCall) (w : W) (before stretch after : List Roll)
        → pools pool_id ≡ ok pool
        → IsFairPool pool threshold
        → All HasOwnKey calls
        → history player_id pool_id (after_rolls calls (new_gacha_repo, w)).0.rolls
          ≡ before ++ (stretch ++ after)
        → length stretch ≡ threshold
        → has_ssr stretch ≡ true
    guaranteed_ssr pool calls w before stretch after found fair own e len =
        let c =
          after_rolls-IsCounted pool calls (new_gacha_repo, w) found fair own
            (new_gacha_repo-IsCounted pool fair) in
        has_ssr_of_IsBounded threshold 0 before stretch after
          (subst (λ l. IsBounded threshold 0 l) e c.bounded) len
