-- ===== src/Gacha.antt =====
-- internal/domain/gacha: cards, pools, rolls, and the weighted pick. Weights and counters are Go's
-- 64-bit `int`. The random number generator is a parameter: a function from its own state `W`.
pub mod Pick
pub mod Pool
pub mod Repo
pub mod Returned
pub mod Service
pub mod Since
pub mod Pity
pub mod Stored
pub mod Guaranteed
pub mod Mysql
mod Tests
use stage_sync.Base.{
  String, Bool, true, false, List, [], ◌∷◌, keep, ◌==◌, string_eq, if◌then◌else◌, ◌||◌,
}
use stage_sync.Base.Int.{ℤ, pos, add64, ltb_ℤ, leb_ℤ}
use stage_sync.Runtime.{GoError, sentinel, Time}

abbrev pub Rarity : Type 0
Rarity = String

abbrev pub rarity_r : Rarity
rarity_r = "R"

abbrev pub rarity_sr : Rarity
rarity_sr = "SR"

abbrev pub rarity_ssr : Rarity
rarity_ssr = "SSR"

-- `Rarity.IsValid`
pub is_valid_rarity : Rarity → Bool
is_valid_rarity r = r == rarity_r || r == rarity_sr || r == rarity_ssr

pub record Card : Type 0 where
  pub id : String
  pub name : String
  pub rarity : Rarity
  pub weight : ℤ

-- Go's zero value `Card{}`
abbrev pub zero_card : Card
zero_card = record { id = ""; name = ""; rarity = ""; weight = pos 0 }

pub record CardPool : Type 0 where
  pub id : String
  pub name : String
  pub pity_threshold : ℤ
  pub cards : List Card

pub record Roll : Type 0 where
  pub id : String
  pub player_id : String
  pub pool_id : String
  pub card_id : String
  pub rarity : Rarity
  pub is_pity : Bool
  pub pulled_at : Time

abbrev pub err_pool_not_found : GoError
err_pool_not_found = sentinel "gacha.ErrPoolNotFound" "gacha pool not found"

abbrev pub err_invalid_count : GoError
err_invalid_count = sentinel "gacha.ErrInvalidCount" "invalid roll count (must be 1..10)"

abbrev pub err_empty_pool : GoError
err_empty_pool = sentinel "gacha.ErrEmptyPool" "gacha pool has no cards"

-- `FilterByRarity`
abbrev pub filter_by_rarity : List Card → Rarity → List Card
filter_by_rarity cards rarity = keep (λ c. c.rarity == rarity) cards

-- The first loop of `WeightedPick`: the sum of the weights.
unfoldable pub total_from : ℤ → List Card → ℤ
total_from total [] = total
total_from total (c ∷ cards) = total_from (add64 total c.weight) cards

-- `cards[len(cards)-1]`, of a list that is not empty.
abbrev pub last_card : Card → List Card → Card
last_card c [] = c
last_card _ (c ∷ cards) = last_card c cards

-- The second loop: the first card whose running sum passes the pick; the last card if none does.
unfoldable pub scan : ℤ → ℤ → Card → List Card → Card
scan pick acc fallback [] = fallback
scan pick acc fallback (c ∷ cards) =
    let rest = scan pick (add64 acc c.weight) fallback cards in
    if ltb_ℤ pick (add64 acc c.weight) then c else rest

-- `RandIntN`: the caller's generator, with its state.
abbrev pub RandIntN : Type 0 → Type 0
RandIntN W = ℤ → W → ℤ × W

-- `WeightedPick`
unfoldable pub weighted_pick : {W : Type 0} → RandIntN W → List Card → W → Card × W
weighted_pick rng [] w = (zero_card, w)
weighted_pick rng (c ∷ cards) w =
    let total = total_from (pos 0) (c ∷ cards) in
    let (pick, w') = rng total w in
    if leb_ℤ total (pos 0)
    then (zero_card, w)
    else (scan pick (pos 0) (last_card c cards) (c ∷ cards), w')
