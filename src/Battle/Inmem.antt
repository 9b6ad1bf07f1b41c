-- ===== src/Battle/Inmem.antt =====
-- internal/persistence/inmem/battle_repo.go: one mutex guards the whole map, so each method is one
-- step.
use stage_sync.Base.{String, none, some, string_eq}
use stage_sync.Base.Dict.{lookup, insert}
use stage_sync.Base.Int.{ℤ}
use stage_sync.Runtime.{ok, err, Action, Time}
use stage_sync.Battle.{PlayerHp, Repo, HpTable, start_hp, hit, err_not_found}

unfoldable pub apply_damage_naive : String → ℤ → Action HpTable ℤ
apply_damage_naive player_id damage m =
    let hp = hit (start_hp (lookup player_id m)) damage in (ok hp, insert player_id hp m)

unfoldable pub get : Time → String → Action HpTable PlayerHp
get now player_id m = (
  elim (lookup player_id m) [
    | none ↦ err err_not_found
    | some hp ↦ ok (record { player_id = player_id; hp = hp; updated_at = now })
  ],
  m,
)

unfoldable pub reset : String → ℤ → Action HpTable (Unit {0})
reset player_id hp m = (ok tt, insert player_id hp m)

-- `BattleRepo` as a `Repo`; `now` is what `time.Now` returns in `Get`.
abbrev pub inmem_repo : Time → Repo HpTable
inmem_repo now = record { apply_damage_naive = apply_damage_naive; reset = reset; get = get now }
