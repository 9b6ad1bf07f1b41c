-- ===== src/Battle.antt =====
-- internal/domain/battle, internal/persistence/inmem/battle_repo.go and the direct service of
-- internal/service/battle/service.go. HP and damage are Go's 64-bit `int`; the context only
-- carries a deadline, which a repository reports as an error.
pub mod Damage
pub mod Inmem
pub mod Mysql
pub mod Queue
mod Tests
use stage_sync.Base.{String, Bool, ◌||◌, Option, none, some, if◌then◌else◌}
use stage_sync.Base.Dict.{Dict}
use stage_sync.Base.Int.{ℤ, pos, sub64, ltb_ℤ}
use stage_sync.Runtime.{GoError, sentinel, Action, context, fail, Time}

pub record PlayerHp : Type 0 where
  pub player_id : String
  pub hp : ℤ
  pub updated_at : Time

abbrev pub max_damage_per_request : ℤ
max_damage_per_request = pos 100_000

abbrev pub default_initial_hp : ℤ
default_initial_hp = pos 10_000

abbrev pub err_invalid_damage : GoError
err_invalid_damage = sentinel "battle.ErrInvalidDamage" "damage must be 1..MaxDamagePerRequest"

abbrev pub err_not_found : GoError
err_not_found = sentinel "battle.ErrNotFound" "player hp not found"

-- The interface `Repo`.
pub record Repo (S : Type 0) : Type 0 where
  pub apply_damage_naive : String → ℤ → Action S ℤ
  pub reset : String → ℤ → Action S (Unit {0})
  pub get : String → Action S PlayerHp

-- `hpByPlayer`
abbrev pub HpTable : Type 0
HpTable = Dict String ℤ

-- The HP that a hit starts from: an unknown player starts with the default.
abbrev pub start_hp : Option ℤ → ℤ
start_hp none = default_initial_hp
start_hp (some hp) = hp

-- `hp -= damage; if hp < 0 { hp = 0 }`
unfoldable pub hit : ℤ → ℤ → ℤ
hit hp damage = let left = sub64 hp damage in if ltb_ℤ left (pos 0) then pos 0 else left

-- The guard at the top of both `Apply` methods.
abbrev pub is_invalid_damage : ℤ → Bool
is_invalid_damage damage = ltb_ℤ damage (pos 1) || ltb_ℤ max_damage_per_request damage

-- `V1Naive.Apply`
unfoldable pub v1_apply : {S : Type 0} → Repo S → String → ℤ → Action S ℤ
v1_apply repo player_id damage =
    if is_invalid_damage damage
    then fail err_invalid_damage
    else context "apply damage naive" (repo.apply_damage_naive player_id damage)
