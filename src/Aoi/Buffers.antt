-- ===== src/Aoi/Buffers.antt =====
-- internal/service/aoi: the two searches find the same neighbours.
use stage_sync.Base.{
  ℕ, zero, suc, ◌≤◌, true, List, [], ◌∷◌, ◌++◌, Option, none, some, ◌≡◌, refl, ap, sym, ◌∙◌,
  if◌then◌else◌, ltb, length, length-append, take, take_all, arith, Bool-cases, inl, inr,
}
use mathlib.Core.List.{append_assoc, append-nil}
use stage_sync.Aoi.{
  Float, Point, Slice, contents, set_cell, append, reset, make, is_near, collect, naive, pooled,
}

-- The indices of the points that are near, in order, from `i` on.
abbrev pub near_from : {F : Type 0} → Float F → Point F → F → ℕ → List (Point F) → List ℕ
near_from float self radius i [] = []
near_from float self radius i (o ∷ os) =
    let rest = near_from float self radius (suc i) os in
    if is_near float self radius o then i ∷ rest else rest

take-set_cell :
    (i v : ℕ) (cs : List ℕ)
    → ltb i (length cs) ≡ true
    → take (suc i) (set_cell i v cs) ≡ take i cs ++ v ∷ []
take-set_cell zero v [] h = ground arith
take-set_cell (suc i) v [] h = ground arith
take-set_cell zero v (c ∷ cs) h = refl
take-set_cell (suc i) v (c ∷ cs) h = ap (λ r. c ∷ r) (take-set_cell i v cs (ground arith))

length-set_cell : (i v : ℕ) (cs : List ℕ) → length (set_cell i v cs) ≡ length cs
length-set_cell zero v [] = refl
length-set_cell (suc i) v [] = refl
length-set_cell zero v (c ∷ cs) = refl
length-set_cell (suc i) v (c ∷ cs) = ap suc (length-set_cell i v cs)

length-take : (n : ℕ) (cs : List ℕ) → n ≤ length cs → length (take n cs) ≡ n
length-take zero cs h = refl
length-take (suc n) [] h = omega (arith, h)
length-take (suc n) (c ∷ cs) h = ap suc (length-take n cs (omega (arith, h)))

-- A slice is no longer than its array.
abbrev pub IsSlice : Slice → Type 0
IsSlice s = s.len ≤ length s.cells

append-IsSlice : (s : Slice) (v : ℕ) → IsSlice s → IsSlice (append s v)
unfolding append
append-IsSlice s v h = elim (Bool-cases (ltb s.len (length s.cells))) [
  | inl room ↦ rw (append, room) (ground (arith, length-set_cell s.len v s.cells))
  | inr full ↦
      rw (append, full)
        (omega (arith, length-append (contents s) (v ∷ []), length-take s.len s.cells h))
]

contents-append : (s : Slice) (v : ℕ) → IsSlice s → contents (append s v) ≡ contents s ++ v ∷ []
unfolding append
contents-append s v h = elim (Bool-cases (ltb s.len (length s.cells))) [
  | inl room ↦ rw (append, room) (take-set_cell s.len v s.cells room)
  | inr full ↦
      rw (append, full)
        (take_all (suc s.len) (contents s ++ v ∷ [])
          (omega (arith, length-append (contents s) (v ∷ []), length-take s.len s.cells h)))
]

module _ {F : Type 0} (float : Float F) where
  contents-collect :
      (self : Point F) (radius : F) (i : ℕ) (others : List (Point F)) (s : Slice)
      → IsSlice s
      → contents (collect float self radius i others s)
        ≡ contents s ++ near_from float self radius i others
  unfolding collect
  contents-collect self radius i [] s h = sym (append-nil (contents s))
  contents-collect self radius i (o ∷ os) s h = elim (Bool-cases (is_near float self radius o)) [
    | inl near ↦
        rw (collect, near)
          (contents-collect self radius (suc i) os (append s i) (append-IsSlice s i h)
            ∙ ap (λ l. l ++ near_from float self radius (suc i) os) (contents-append s i h)
            ∙ append_assoc (contents s) (i ∷ []) (near_from float self radius (suc i) os))
    | inr far ↦ rw (collect, far) (contents-collect self radius (suc i) os s h)
  ]

  -- `Naive` finds the indices of the points at a distance of at most the radius, in order, whatever
  -- its new array held; and whatever slice the pool gives to `Pooled`, and whatever its array holds,
  -- its function gets what `Naive` finds, and an empty slice goes back to the pool.
  pub pooled_lem :
      {S : Type 0} (got : Option Slice) (fresh fresh' : List ℕ) (self : Point F)
      (others : List (Point F)) (radius : F) (fn : List ℕ → S → S) (s : S)
      → (naive float fresh self others radius ≡ near_from float self radius 0 others)
        × ((pooled float got fresh' self others radius fn s).0
            ≡ fn (naive float fresh self others radius) s)
        × (contents (pooled float got fresh' self others radius fn s).1 ≡ [])
  unfolding naive pooled
  pooled_lem got fresh fresh' self others radius fn s =
      let start : Slice = elim got [ none ↦ make fresh' | some b ↦ b ] in
      let found = contents-collect self radius 0 others (make fresh) (omega arith) in
      let found' = contents-collect self radius 0 others (reset start) (omega arith) in
      (found, ap (λ l. fn l s) (found' ∙ sym found), refl)
