-- ===== src/Base/Sort.antt =====
-- `sort.Slice` by a `less` function. Where `less` is a strict total order the result does not depend
-- on the algorithm, nor on the order in which the elements come.
use mathlib.Core.Path.{◌≡◌, refl, ap, ap₂, ◌∙◌}
use mathlib.Core.Logic.{∥∥₁_elim}
use mathlib.Core.Bool.{Bool, true, false, ◌||◌}
use mathlib.Core.List.{List, [], ◌∷◌, Perm, Permᴰ, is_set}
use native.Mathlib.Omega.{arith}
use stage_sync.Base.Tests.{if◌then◌else◌, if_intro, Bool-cases}
use stage_sync.Base.Lists.{All, keep, length}
use mathlib.Core.Logic.{inl, inr}
use Prim.Native.Nat.{suc}

module _ {A : Type 0} (less : A → A → Bool) where
  unfoldable pub insert_sorted : A → List A → List A
  insert_sorted x [] = x ∷ []
  insert_sorted x (y ∷ ys) =
      let rest = insert_sorted x ys in if less y x then y ∷ rest else x ∷ y ∷ ys

  unfoldable pub sort_slice : List A → List A
  unfolding insert_sorted
  sort_slice [] = []
  sort_slice (x ∷ xs) = insert_sorted x (sort_slice xs)

  -- Each element stands before all that follow it.
  abbrev pub IsAscending : List A → Type 0
  IsAscending [] = Unit
  IsAscending (x ∷ xs) = All (λ y. less x y ≡ true) xs × IsAscending xs

  abbrev pub IsIrreflexive : Type 0
  IsIrreflexive = (x : A) → less x x ≡ false

  abbrev pub IsTransitive : Type 0
  IsTransitive = (x y z : A) → less x y ≡ true → less y z ≡ true → less x z ≡ true

  abbrev pub IsTrichotomous : Type 0
  IsTrichotomous = (x y : A) → less x y ≡ false → less y x ≡ false → x ≡ y

  pub insert_sorted-All {κ} :
      (P : A → Type κ) (x : A) (xs : List A) → P x → All P xs → All P (insert_sorted x xs)
  unfolding insert_sorted
  insert_sorted-All P x [] h hs = (h, tt)
  insert_sorted-All P x (y ∷ ys) h hs =
      if_intro (All P) (less y x) (λ _. (hs.0, insert_sorted-All P x ys h hs.1)) (λ _. (h, hs))

  pub sort_slice-All {κ} : (P : A → Type κ) (xs : List A) → All P xs → All P (sort_slice xs)
  unfolding sort_slice
  sort_slice-All P [] h = tt
  sort_slice-All P (x ∷ xs) h = insert_sorted-All P x (sort_slice xs) h.0 (sort_slice-All P xs h.1)

  keep-insert_sorted :
      (p : A → Bool) (x : A) (xs : List A)
      → length (keep p (insert_sorted x xs)) ≡ length (keep p (x ∷ xs))
  unfolding insert_sorted
  keep-insert_sorted p x [] = refl
  keep-insert_sorted p x (y ∷ ys) = ground (arith, keep-insert_sorted p x ys)

  -- Sorting keeps the number of elements that pass a test.
  pub keep-sort_slice :
      (p : A → Bool) (xs : List A) → length (keep p (sort_slice xs)) ≡ length (keep p xs)
  unfolding sort_slice
  keep-sort_slice p [] = refl
  keep-sort_slice p (x ∷ xs) =
      ground (arith, keep-insert_sorted p x (sort_slice xs), keep-sort_slice p xs)

  length-insert_sorted : (x : A) (xs : List A) → length (insert_sorted x xs) ≡ suc (length xs)
  unfolding insert_sorted
  length-insert_sorted x [] = refl
  length-insert_sorted x (y ∷ ys) = ground (arith, length-insert_sorted x ys)

  pub length-sort_slice : (xs : List A) → length (sort_slice xs) ≡ length xs
  unfolding sort_slice
  length-sort_slice [] = refl
  length-sort_slice (x ∷ xs) =
      length-insert_sorted x (sort_slice xs) ∙ ap suc (length-sort_slice xs)

module _ {A : Type 0} (less : A → A → Bool) (trans : IsTransitive less) (tri : IsTrichotomous less)
    (irrefl : IsIrreflexive less) where
  All-less :
      (x y : A) (ys : List A)
      → less x y ≡ true
      → All (λ z. less y z ≡ true) ys
      → All (λ z. less x z ≡ true) ys
  All-less x y [] h hs = tt
  All-less x y (z ∷ ys) h hs = (trans x y z h hs.0, All-less x y ys h hs.1)

  -- Elements are distinct as far as `less` can tell.
  abbrev pub AreApart : List A → Type 0
  AreApart [] = Unit
  AreApart (x ∷ xs) = All (λ y. (less x y || less y x) ≡ true) xs × AreApart xs

  insert_sorted-IsAscending :
      (x : A) (xs : List A)
      → All (λ y. (less x y || less y x) ≡ true) xs
      → IsAscending less xs
      → IsAscending less (insert_sorted less x xs)
  unfolding insert_sorted
  insert_sorted-IsAscending x [] a h = (tt, tt)
  insert_sorted-IsAscending x (y ∷ ys) a h = elim (Bool-cases (less y x)) [
    | inl before ↦
        rw (before, insert_sorted)
          (
            insert_sorted-All less (λ z. less y z ≡ true) x ys before h.0,
            insert_sorted-IsAscending x ys a.1 h.1,
          )
    | inr after ↦
        let first : less x y ≡ true = ground (arith, a.0) in
        rw (after, insert_sorted) ((first, All-less x y ys first h.0), h)
  ]

  pub sort_slice-IsAscending : (xs : List A) → AreApart xs → IsAscending less (sort_slice less xs)
  unfolding sort_slice
  sort_slice-IsAscending [] a = tt
  sort_slice-IsAscending (x ∷ xs) a =
      insert_sorted-IsAscending x (sort_slice less xs)
        (sort_slice-All less (λ y. (less x y || less y x) ≡ true) xs a.0)
        (sort_slice-IsAscending xs a.1)

  insert_sorted_comm :
      (x y : A) (l : List A)
      → insert_sorted less x (insert_sorted less y l)
        ≡ insert_sorted less y (insert_sorted less x l)
  unfolding insert_sorted
  insert_sorted_comm x y [] = ground (arith, tri x y, irrefl x, trans x y x)
  insert_sorted_comm x y (z ∷ l) =
      ground
        (arith, insert_sorted_comm x y l, tri x y, trans x y x, irrefl x, trans z x y, trans z y x)

  sort_slice-Permᴰ : {xs ys : List A} → Permᴰ xs ys → sort_slice less xs ≡ sort_slice less ys
  unfolding sort_slice
  sort_slice-Permᴰ Permᴰ.nil = refl
  sort_slice-Permᴰ (Permᴰ.cons e d) = ap₂ (insert_sorted less) e (sort_slice-Permᴰ d)
  sort_slice-Permᴰ (Permᴰ.swap {a} {b} {a'} {b'} {l} e f) =
      insert_sorted_comm a b (sort_slice less l)
      ∙ ap₂ (λ x y. insert_sorted less x (insert_sorted less y (sort_slice less l))) f e
  sort_slice-Permᴰ (Permᴰ.trans d e) = sort_slice-Permᴰ d ∙ sort_slice-Permᴰ e

  -- The order in which the elements come does not matter.
  pub sort_slice-Perm :
      {xs ys : List A} → IsSet A → Perm xs ys → sort_slice less xs ≡ sort_slice less ys
  sort_slice-Perm {xs} {ys} set p =
      ∥∥₁_elim p (is_set set (sort_slice less xs) (sort_slice less ys)) sort_slice-Permᴰ
