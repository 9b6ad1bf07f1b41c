-- ===== src/Battle/Damage.antt =====
-- What a hit does to the table, and what a series of hits adds up to.
use stage_sync.Base.{
  ℕ, ◌+◌, ◌-◌, ◌<◌, String, false, List, [], ◌∷◌, some, ◌≡◌, arith, ◌==◌, string_eq, if◌then◌else◌,
  Bool-cases, inl, inr,
}
use stage_sync.Base.Dict.{lookup, lookup-insert}
use stage_sync.Base.Int.{ℤ, pos, ◌≤ℤ◌, sub64, sub64-eq, two63, pos_part, -ℤ_parts}
use stage_sync.Runtime.{ok, Action}
use stage_sync.Battle.{HpTable, start_hp, hit, is_invalid_damage, v1_apply, Repo}
use stage_sync.Battle.Inmem.{apply_damage_naive, inmem_repo}

-- An HP between 0 and the largest `int`.
abbrev pub IsHp : ℤ → Type 0
IsHp hp = (pos 0 ≤ℤ hp) × (pos_part hp < two63)

-- The HP at which a player stands: what the next hit starts from.
abbrev pub hp_of : HpTable → String → ℕ
hp_of m player = pos_part (start_hp (lookup player m))

abbrev pub IsValid : HpTable → Type 0
IsValid m = (player : String) → IsHp (start_hp (lookup player m))

hit-eq :
    (hp damage : ℤ)
    → IsHp hp
    → is_invalid_damage damage ≡ false
    → hit hp damage ≡ pos (pos_part hp - pos_part damage)
unfolding hit sub64
hit-eq hp damage h d = grind (arith, sub64-eq hp damage, -ℤ_parts hp damage)

-- A hit within the limits answers with the HP that is left, never below 0, stores exactly that for
-- its player and nothing else, and keeps every HP between 0 and the largest `int`.
pub apply_damage_naive_lem :
    (player : String) (damage : ℤ) (m : HpTable)
    → IsValid m
    → is_invalid_damage damage ≡ false
    → let (r, m') = apply_damage_naive player damage m in
      let left = pos (hp_of m player - pos_part damage) in
      (r ≡ ok left)
      × ((q : String) → lookup q m' ≡ (if q == player then some left else lookup q m))
      × IsValid m'
unfolding apply_damage_naive
apply_damage_naive_lem player damage m v d =
    let e = hit-eq (start_hp (lookup player m)) damage (v player) d in
    (
      rw e,
      λ q. rw e (lookup-insert q player _ m),
      λ q. ground (
        arith,
        v q,
        v player,
        e,
        lookup-insert q player (hit (start_hp (lookup player m)) damage) m,
      ),
    )

-- A request to `Apply`: a target and a damage.
abbrev pub Hit : Type 0
Hit = String × ℤ

-- Requests served one after the other, whatever each of them returns.
abbrev pub serve : {S : Type 0} → (Hit → Action S ℤ) → List Hit → S → S
serve apply [] s = s
serve apply (h ∷ hits) s = serve apply hits (apply h s).1

abbrev pub v1_hit : {S : Type 0} → Repo S → Hit → Action S ℤ
v1_hit repo (player, damage) = v1_apply repo player damage

-- The damage of those requests that aim at one player and pass the guard.
abbrev pub total_damage : String → List Hit → ℕ
total_damage player [] = 0
total_damage player ((target, damage) ∷ hits) =
    (if player == target then (if is_invalid_damage damage then 0 else pos_part damage) else 0)
    + total_damage player hits

v1_apply-lem :
    (now : ℕ) (target : String) (damage : ℤ) (m : HpTable) (player : String)
    → IsValid m
    → let m' = (v1_apply (inmem_repo now) target damage m).1 in
      IsValid m' × (hp_of m' player ≡ hp_of m player - total_damage player ((target, damage) ∷ []))
unfolding v1_apply
v1_apply-lem now target damage m player v = elim (Bool-cases (is_invalid_damage damage)) [
  | inl refused ↦ rw refused (v, ground arith)
  | inr accepted ↦
      let (_, looked, valid) = apply_damage_naive_lem target damage m v accepted in
      rw accepted (valid, ground (arith, looked player))
]

-- Any series of requests to the direct service, refused ones among them, leaves each player with
-- the HP that they had less the damage of the accepted requests that aimed at them, and with 0
-- where that is more than they had; every HP stays in range.
pub serve-v1_hit :
    (now : ℕ) (hits : List Hit) (m : HpTable) (player : String)
    → IsValid m
    → let m' = serve (v1_hit (inmem_repo now)) hits m in
      (hp_of m' player ≡ hp_of m player - total_damage player hits) × IsValid m'
serve-v1_hit now [] m player v = (omega arith, v)
serve-v1_hit now ((target, damage) ∷ hits) m player v =
    let (valid, hp) = v1_apply-lem now target damage m player v in
    let (rest, last) =
      serve-v1_hit now hits (v1_hit (inmem_repo now) (target, damage) m).1 player valid in
    (omega arith, last)
