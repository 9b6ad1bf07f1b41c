-- ===== src/Gacha/Since.antt =====
-- The specification of the pity counter: rolls counted since the last SSR.
use stage_sync.Base.{
  ℕ, suc, ◌+◌, ◌<◌, Bool, true, false, List, [], ◌∷◌, ◌++◌, ◌≡◌, refl, arith, length, ◌==◌,
  string_eq, if◌then◌else◌, Bool-cases, inl, inr,
}
use stage_sync.Gacha.{Roll, rarity_ssr}

abbrev pub next_since : ℕ → Roll → ℕ
next_since n r = if r.rarity == rarity_ssr then 0 else suc n

-- Rolls since the last SSR, counted on from `n`.
abbrev pub since : ℕ → List Roll → ℕ
since n [] = n
since n (r ∷ rolls) = since (next_since n r) rolls

abbrev pub has_ssr : List Roll → Bool
has_ssr [] = false
has_ssr (r ∷ rolls) = if r.rarity == rarity_ssr then true else has_ssr rolls

pub since-append : (n : ℕ) (xs ys : List Roll) → since n (xs ++ ys) ≡ since (since n xs) ys
since-append n [] ys = refl
since-append n (x ∷ xs) ys = since-append (next_since n x) xs ys

pub since_of_no_ssr :
    (n : ℕ) (rolls : List Roll) → has_ssr rolls ≡ false → since n rolls ≡ n + length rolls
since_of_no_ssr n [] h = omega arith
since_of_no_ssr n (r ∷ rolls) h = ground (arith, since_of_no_ssr (suc n) rolls)

-- At no moment have as many rolls as the threshold gone by since the last SSR.
abbrev pub IsBounded : ℕ → ℕ → List Roll → Type 0
IsBounded threshold n [] = n < threshold
IsBounded threshold n (r ∷ rolls) = (n < threshold) × IsBounded threshold (next_since n r) rolls

pub IsBounded-append :
    (threshold n : ℕ) (xs ys : List Roll)
    → IsBounded threshold n xs
    → IsBounded threshold (since n xs) ys
    → IsBounded threshold n (xs ++ ys)
IsBounded-append threshold n [] ys hx hy = hy
IsBounded-append threshold n (x ∷ xs) ys hx hy =
    (hx.0, IsBounded-append threshold (next_since n x) xs ys hx.1 hy)

pub since-lt :
    (threshold n : ℕ) (rolls : List Roll) → IsBounded threshold n rolls → since n rolls < threshold
since-lt threshold n [] h = h
since-lt threshold n (r ∷ rolls) h = since-lt threshold (next_since n r) rolls h.1

IsBounded-suffix :
    (threshold n : ℕ) (xs ys : List Roll)
    → IsBounded threshold n (xs ++ ys)
    → IsBounded threshold (since n xs) ys
IsBounded-suffix threshold n [] ys h = h
IsBounded-suffix threshold n (x ∷ xs) ys h = IsBounded-suffix threshold (next_since n x) xs ys h.1

IsBounded-prefix :
    (threshold n : ℕ) (xs ys : List Roll)
    → IsBounded threshold n (xs ++ ys)
    → IsBounded threshold n xs
IsBounded-prefix threshold n [] [] h = h
IsBounded-prefix threshold n [] (y ∷ ys) h = h.0
IsBounded-prefix threshold n (x ∷ xs) ys h =
    (h.0, IsBounded-prefix threshold (next_since n x) xs ys h.1)

-- Of as many consecutive rolls as the threshold, one is an SSR.
pub has_ssr_of_IsBounded :
    (threshold n : ℕ) (before stretch after : List Roll)
    → IsBounded threshold n (before ++ (stretch ++ after))
    → length stretch ≡ threshold
    → has_ssr stretch ≡ true
has_ssr_of_IsBounded threshold n before stretch after h len =
    let inner =
      IsBounded-prefix threshold (since n before) stretch after
        (IsBounded-suffix threshold n before (stretch ++ after) h) in
    elim (Bool-cases (has_ssr stretch)) [
      | inl found ↦ found
      | inr none_found ↦ absurd (
          omega (
            arith,
            since-lt threshold (since n before) stretch inner,
            since_of_no_ssr (since n before) stretch none_found,
          ))
    ]
