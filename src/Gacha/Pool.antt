-- ===== src/Gacha/Pool.antt =====
-- internal/service/gacha/pool_data.go: the pools that are compiled in.
use stage_sync.Base.{String, [], ◌∷◌, none, some, string_eq}
use stage_sync.Base.Dict.{Dict, lookup}
use stage_sync.Base.Int.{pos}
use stage_sync.Runtime.{Result, ok, err}
use stage_sync.Gacha.{CardPool, err_pool_not_found}

-- `PoolRegistry`, whose only method reads.
abbrev pub PoolRegistry : Type 0
PoolRegistry = String → Result CardPool

abbrev pub demo_pool_id : String
demo_pool_id = "demo"

abbrev pub demo : CardPool
demo = record {
  id = demo_pool_id;
  name = "Demo Pool";
  pity_threshold = pos 80;
  cards =
      record { id = "c_miku_ssr"; name = "Miku SSR"; rarity = "SSR"; weight = pos 10 }
      ∷ record { id = "c_rin_ssr"; name = "Rin SSR"; rarity = "SSR"; weight = pos 10 }
      ∷ record { id = "c_len_ssr"; name = "Len SSR"; rarity = "SSR"; weight = pos 10 }
      ∷ record { id = "c_miku_sr"; name = "Miku SR"; rarity = "SR"; weight = pos 50 }
      ∷ record { id = "c_rin_sr"; name = "Rin SR"; rarity = "SR"; weight = pos 50 }
      ∷ record { id = "c_len_sr"; name = "Len SR"; rarity = "SR"; weight = pos 70 }
      ∷ record { id = "c_basic_a"; name = "Basic A"; rarity = "R"; weight = pos 300 }
      ∷ record { id = "c_basic_b"; name = "Basic B"; rarity = "R"; weight = pos 300 }
      ∷ record { id = "c_basic_c"; name = "Basic C"; rarity = "R"; weight = pos 200 }
      ∷ [];
}

-- `NewStaticPoolRegistry`
abbrev pub static_pools : Dict String CardPool
static_pools = (demo_pool_id, demo) ∷ []

-- `StaticPoolRegistry.GetPool`
unfoldable pub get_pool : Dict String CardPool → PoolRegistry
get_pool pools pool_id = elim (lookup pool_id pools) [
  | none ↦ err err_pool_not_found
  | some p ↦ ok p
]
