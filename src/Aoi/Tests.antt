-- ===== src/Aoi/Tests.antt =====
-- Points with whole coordinates, and a slice that was used before.
use stage_sync.Base.{ℕ, ◌+◌, ◌*◌, ◌-◌, [], ◌∷◌, some, ◌≡◌, leb}
use stage_sync.Aoi.{Float, Point, Slice, contents, naive, pooled}
use stage_sync.Aoi.Buffers.{pooled_lem}

-- The distance on a line, to the left of a point.
abbrev whole : Float ℕ
whole = record { sub = λ a b. a - b; mul = λ a b. a * b; add = λ a b. a + b; at_most = leb }

abbrev at : ℕ → Point ℕ
at x = record { x = x; y = 0 }

abbrev used : Slice
used = record { cells = 7 ∷ []; len = 1 }

pooled_lem_example :
    (naive whole [] (at 5) (at 4 ∷ at 1 ∷ at 5 ∷ []) 2 ≡ 0 ∷ 2 ∷ [])
    × ((pooled whole (some used) [] (at 5) (at 4 ∷ at 1 ∷ at 5 ∷ []) 2 (λ l s. l) []).0
        ≡ naive whole [] (at 5) (at 4 ∷ at 1 ∷ at 5 ∷ []) 2)
    × (contents (pooled whole (some used) [] (at 5) (at 4 ∷ at 1 ∷ at 5 ∷ []) 2 (λ l s. l) []).1
        ≡ [])
pooled_lem_example =
    pooled_lem whole (some used) [] [] (at 5) (at 4 ∷ at 1 ∷ at 5 ∷ []) 2 (λ l s. l) []
