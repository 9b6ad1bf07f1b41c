-- ===== src/Gacha/Repo.antt =====
-- internal/persistence/inmem/gacha_repo.go, and the interface `Repository` that it implements.
use stage_sync.Base.{
  ℕ, zero, suc, String, ◌<>◌, List, [], ◌∷◌, ◌++◌, Option, none, some, ◌==◌, string_eq,
  if◌then◌else◌,
}
use mathlib.Core.List.{reverse}
use stage_sync.Base.Dict.{Dict, lookup, insert}
use stage_sync.Base.Int.{ℤ, pos, negsuc}
use stage_sync.Runtime.{other, ok, err, Action}
use stage_sync.Gacha.{Roll}

pub record Repository (S : Type 0) : Type 0 where
  pub get_pity : String → String → Action S ℤ
  pub insert_rolls_and_update_pity : List Roll → String → String → ℤ → Action S (Unit {0})
  pub list_rolls_by_player : String → ℤ → Action S (List Roll)

-- `GachaRepo`: all rolls, oldest first, and the counters by `pityKey`.
pub record GachaRepo : Type 0 where
  pub rolls : List Roll
  pub pity : Dict String ℤ

abbrev pub new_gacha_repo : GachaRepo
new_gacha_repo = record { rolls = []; pity = [] }

abbrev pub pity_key : String → String → String
pity_key player_id pool_id = player_id <> ("/" <> pool_id)

-- A missing key reads as 0.
abbrev pub or_zero : Option ℤ → ℤ
or_zero none = pos 0
or_zero (some n) = n

unfoldable pub get_pity : String → String → Action GachaRepo ℤ
get_pity player_id pool_id r = (ok (or_zero (lookup (pity_key player_id pool_id) r.pity)), r)

unfoldable pub insert_rolls_and_update_pity :
    List Roll → String → String → ℤ → Action GachaRepo (Unit {0})
insert_rolls_and_update_pity rolls player_id pool_id new_counter r = (
  ok tt,
  record {
    rolls = r.rolls ++ rolls;
    pity = insert (pity_key player_id pool_id) new_counter r.pity;
  },
)

-- The loop from the newest roll down, while the result has room.
unfoldable pub newest : String → ℕ → List Roll → List Roll
newest player_id room [] = []
newest player_id zero (r ∷ down) = []
newest player_id (suc room) (r ∷ down) =
    let taken = newest player_id room down in
    let passed = newest player_id (suc room) down in
    if r.player_id == player_id then r ∷ taken else passed

-- `make` with a negative capacity panics.
unfoldable pub list_rolls_by_player : String → ℤ → Action GachaRepo (List Roll)
unfolding newest
list_rolls_by_player player_id (pos limit) r = (ok (newest player_id limit (reverse r.rolls)), r)
list_rolls_by_player player_id (negsuc n) r = (err (other "panic: makeslice: cap out of range"), r)

abbrev pub inmem_repo : Repository GachaRepo
inmem_repo = record {
  get_pity = get_pity;
  insert_rolls_and_update_pity = insert_rolls_and_update_pity;
  list_rolls_by_player = list_rolls_by_player;
}
