-- ===== src/Aoi.antt =====
-- internal/service/aoi: the neighbours of a point, by a search that allocates and by one that takes
-- its buffer from a pool. `float64` is a parameter with the operations that the code uses.
use stage_sync.Base.{
  ℕ, zero, suc, ◌+◌, ◌≤◌, Bool, List, [], ◌∷◌, ◌++◌, Option, none, some, if◌then◌else◌, ltb, length,
  take,
}
pub mod Buffers
mod Tests

pub record Float (F : Type 0) : Type 0 where
  pub sub : F → F → F
  pub mul : F → F → F
  pub add : F → F → F
  pub at_most : F → F → Bool

pub record Point (F : Type 0) : Type 0 where
  pub x : F
  pub y : F

-- A slice of whole numbers: its backing array up to its capacity, and its length.
pub record Slice : Type 0 where
  pub cells : List ℕ
  pub len : ℕ

-- What the slice holds.
abbrev pub contents : Slice → List ℕ
contents s = take s.len s.cells

abbrev pub set_cell : ℕ → ℕ → List ℕ → List ℕ
set_cell i v [] = []
set_cell zero v (c ∷ cs) = v ∷ cs
set_cell (suc i) v (c ∷ cs) = c ∷ set_cell i v cs

-- `append(s, v)`: into the array where it has room, else into a copy.
unfoldable pub append : Slice → ℕ → Slice
append s v = record {
  cells = if ltb s.len (length s.cells) then set_cell s.len v s.cells else contents s ++ v ∷ [];
  len = suc s.len;
}

-- `s[:0]`
abbrev pub reset : Slice → Slice
reset s = record { cells = s.cells; len = 0 }

-- `make([]int, 0, 64)`; what the cells of a new array hold is never read.
abbrev pub make : List ℕ → Slice
make cells = record { cells = cells; len = 0 }

module _ {F : Type 0} (float : Float F) where
  -- `squaredDist`
  abbrev pub squared_dist : Point F → Point F → F
  squared_dist a b =
      let dx = float.sub a.x b.x in
      let dy = float.sub a.y b.y in float.add (float.mul dx dx) (float.mul dy dy)

  abbrev pub is_near : Point F → F → Point F → Bool
  is_near self radius o = float.at_most (squared_dist self o) (float.mul radius radius)

  -- The loop of both searches, from the index `i` on.
  unfoldable pub collect : Point F → F → ℕ → List (Point F) → Slice → Slice
  unfolding append
  collect self radius i [] s = s
  collect self radius i (o ∷ os) s =
      collect self radius (suc i) os (if is_near self radius o then append s i else s)

  -- `Naive`
  unfoldable pub naive : List ℕ → Point F → List (Point F) → F → List ℕ
  unfolding collect
  naive fresh self others radius = contents (collect self radius 0 others (make fresh))

  -- `Pooled`: what `fn` does to a state with the slice, and the slice that goes back to the pool. The
  -- pool gives a slice that was put there, or makes one.
  unfoldable pub pooled :
      {S : Type 0}
      → Option Slice
      → List ℕ
      → Point F
      → List (Point F)
      → F
      → (List ℕ → S → S)
      → S
      → S × Slice
  unfolding collect
  pooled got fresh self others radius fn s =
      let buf =
        collect self radius 0 others (reset (elim got [ none ↦ make fresh | some b ↦ b ])) in
      (fn (contents buf) s, reset buf)
