-- ===== src/Base/Rank.antt =====
-- Lists of numbers in ascending order: the place of an element, and how many are below it.
use Prim.Native.Nat.{ℕ, zero, suc, ◌+◌, ◌*◌, ◌≤◌, ◌<◌}
use mathlib.Core.Path.{◌≡◌, refl, ap, ap₂, subst, ◌∙◌}
use mathlib.Core.Logic.{inl, inr, ∥∥₁_elim}
use mathlib.Core.Bool.{Bool, true, false, not}
use mathlib.Core.Option.{Option, none, some}
use mathlib.Core.List.{List, [], ◌∷◌, Perm, Permᴰ}
use native.Mathlib.Nat.{ℕ_set}
use native.Mathlib.Omega.{arith}
use stage_sync.Base.Tests.{ltb, leb, Bool-cases}
use stage_sync.Base.Lists.{length, keep, All, length-keep}
use stage_sync.Base.Sort.{insert_sorted, sort_slice, insert_sorted-All}

-- `l[i]`, where it is in range
unfoldable pub get_elem {ℓ} : {A : Type ℓ} → List A → ℕ → Option A
get_elem [] i = none
get_elem (x ∷ xs) zero = some x
get_elem (x ∷ xs) (suc i) = get_elem xs i

pub get_elem_in_range {ℓ} :
    {A : Type ℓ} (l : List A) (i : ℕ) → i < length l → (a : A) × (get_elem l i ≡ some a)
unfolding get_elem
get_elem_in_range [] i h = absurd (omega arith)
get_elem_in_range (x ∷ xs) zero h = (x, refl)
get_elem_in_range (x ∷ xs) (suc i) h = get_elem_in_range xs i (omega arith)

pub get_elem-All {ℓ κ} :
    {A : Type ℓ} (P : A → Type κ) (l : List A) (i : ℕ) (a : A)
    → All P l
    → get_elem l i ≡ some a
    → P a
unfolding get_elem
get_elem-All P [] i a h e = absurd (ground arith)
get_elem-All P (x ∷ xs) zero a h e = subst P (ap (λ o. elim o [ some y ↦ y | none ↦ x ]) e) h.0
get_elem-All P (x ∷ xs) (suc i) a h e = get_elem-All P xs i a h.1 e

-- Each element is at most all that follow it.
abbrev pub IsSorted : List ℕ → Type 0
IsSorted [] = Unit
IsSorted (x ∷ xs) = All (λ y. x ≤ y) xs × IsSorted xs

All-le : (x y : ℕ) (l : List ℕ) → x ≤ y → All (λ z. y ≤ z) l → All (λ z. x ≤ z) l
All-le x y [] h a = tt
All-le x y (z ∷ l) h a = (omega (arith, a.0), All-le x y l h a.1)

insert_sorted-IsSorted : (x : ℕ) (l : List ℕ) → IsSorted l → IsSorted (insert_sorted ltb x l)
unfolding insert_sorted
insert_sorted-IsSorted x [] h = (tt, tt)
insert_sorted-IsSorted x (y ∷ l) h = elim (Bool-cases (ltb y x)) [
  | inl before ↦
      rw (before, insert_sorted)
        (insert_sorted-All ltb (λ z. y ≤ z) x l (ground arith) h.0, insert_sorted-IsSorted x l h.1)
  | inr after ↦
      let first : x ≤ y = ground arith in
      rw (after, insert_sorted) ((first, All-le x y l first h.0), h)
]

pub sort_slice-IsSorted : (l : List ℕ) → IsSorted (sort_slice ltb l)
unfolding sort_slice
sort_slice-IsSorted [] = tt
sort_slice-IsSorted (x ∷ l) = insert_sorted-IsSorted x (sort_slice ltb l) (sort_slice-IsSorted l)

abbrev pub count : (ℕ → Bool) → List ℕ → ℕ
count p l = length (keep p l)

none_below : (x : ℕ) (l : List ℕ) → All (λ y. x ≤ y) l → count (λ y. ltb y x) l ≡ 0
none_below x [] h = refl
none_below x (y ∷ l) h = ground (arith, h, none_below x l h.1)

-- The element at place `i` of a sorted list has at most `i` elements below it, and more than `i`
-- that are not above it.
pub get_elem-rank :
    (l : List ℕ) (i v : ℕ)
    → IsSorted l
    → get_elem l i ≡ some v
    → (count (λ y. ltb y v) l ≤ i) × (i < count (λ y. leb y v) l)
unfolding get_elem
get_elem-rank [] i v s e = absurd (ground arith)
get_elem-rank (x ∷ l) zero v s e =
    let same : x ≡ v = ground (arith, e) in
    subst (λ v. (count (λ y. ltb y v) (x ∷ l) ≤ 0) × (0 < count (λ y. leb y v) (x ∷ l))) same
      (ground (arith, none_below x l s.0))
get_elem-rank (x ∷ l) (suc i) v s e =
    let ih = get_elem-rank l i v s.1 e in
    let below : x ≤ v = get_elem-All (λ y. x ≤ y) l i v s.0 e in ground (arith, ih, below)

-- Places that follow each other hold elements that follow each other.
pub get_elem_mono :
    (l : List ℕ) (i j v w : ℕ)
    → IsSorted l
    → i ≤ j
    → get_elem l i ≡ some v
    → get_elem l j ≡ some w
    → v ≤ w
unfolding get_elem
get_elem_mono [] i j v w s h e f = absurd (ground arith)
get_elem_mono (x ∷ l) zero zero v w s h e f = ground arith
get_elem_mono (x ∷ l) zero (suc j) v w s h e f =
    let same : x ≡ v = ground (arith, e) in
    let below : x ≤ w = get_elem-All (λ y. x ≤ y) l j w s.0 f in omega arith
get_elem_mono (x ∷ l) (suc i) zero v w s h e f = absurd (omega arith)
get_elem_mono (x ∷ l) (suc i) (suc j) v w s h e f = get_elem_mono l i j v w s.1 (omega arith) e f

abbrev pub sum : List ℕ → ℕ
sum [] = 0
sum (x ∷ l) = x + sum l

pub sum_between :
    (l : List ℕ) (a b : ℕ)
    → All (λ y. (a ≤ y) × (y ≤ b)) l
    → (a * length l ≤ sum l) × (sum l ≤ b * length l)
sum_between [] a b h = omega arith
sum_between (x ∷ l) a b h = ground (arith, sum_between l a b h.1, h.0)

-- A list that has no element that passes a test, and one that has no other.
pub count_none : (p : ℕ → Bool) (l : List ℕ) → count p l ≡ 0 → All (λ y. p y ≡ false) l
count_none p [] h = tt
count_none p (x ∷ l) h = elim (Bool-cases (p x)) [
  | inl e ↦ absurd (ground (arith, e, h))
  | inr e ↦ (e, count_none p l (ground (arith, e, h)))
]

pub count_every : (p : ℕ → Bool) (l : List ℕ) → length l ≤ count p l → All (λ y. p y ≡ true) l
count_every p [] h = tt
count_every p (x ∷ l) h = elim (Bool-cases (p x)) [
  | inl e ↦ (e, count_every p l (ground (arith, e, h)))
  | inr e ↦ absurd (ground (arith, e, h, length-keep p l))
]

sum-insert_sorted : (x : ℕ) (l : List ℕ) → sum (insert_sorted ltb x l) ≡ x + sum l
unfolding insert_sorted
sum-insert_sorted x [] = refl
sum-insert_sorted x (y ∷ l) = ground (arith, sum-insert_sorted x l)

pub sum-sort_slice : (l : List ℕ) → sum (sort_slice ltb l) ≡ sum l
unfolding sort_slice
sum-sort_slice [] = refl
sum-sort_slice (x ∷ l) = omega (arith, sum-insert_sorted x (sort_slice ltb l), sum-sort_slice l)

count_swap : (p : ℕ → Bool) (x y : ℕ) (l : List ℕ) → count p (x ∷ y ∷ l) ≡ count p (y ∷ x ∷ l)
count_swap p x y l = ground arith

count-Permᴰ : (p : ℕ → Bool) {xs ys : List ℕ} → Permᴰ xs ys → count p xs ≡ count p ys
count-Permᴰ p Permᴰ.nil = refl
count-Permᴰ p (Permᴰ.cons {a} {b} {l₁ = xs} {l₂ = ys} e d) =
    subst (λ b. count p (a ∷ xs) ≡ count p (b ∷ ys)) e (ground (arith, count-Permᴰ p d))
count-Permᴰ p (Permᴰ.swap {a} {b} {a'} {b'} {l} e f) =
    count_swap p a b l ∙ ap₂ (λ x y. count p (x ∷ y ∷ l)) f e
count-Permᴰ p (Permᴰ.trans d e) = count-Permᴰ p d ∙ count-Permᴰ p e

pub count-Perm : (p : ℕ → Bool) {xs ys : List ℕ} → Perm xs ys → count p xs ≡ count p ys
count-Perm p h = ∥∥₁_elim h (ℕ_set _ _) (count-Permᴰ p)

-- `f 0`, `f 1`, ..., `f (n - 1)`
abbrev pub tabulate {ℓ} : {A : Type ℓ} → (ℕ → A) → ℕ → List A
tabulate f zero = []
tabulate f (suc n) = f 0 ∷ tabulate (λ i. f (suc i)) n

pub length-tabulate {ℓ} : {A : Type ℓ} (f : ℕ → A) (n : ℕ) → length (tabulate f n) ≡ n
length-tabulate f zero = refl
length-tabulate f (suc n) = ap suc (length-tabulate (λ i. f (suc i)) n)

pub tabulate_ext {ℓ} :
    {A : Type ℓ} (f : ℕ → A) (n : ℕ) (l : List A)
    → length l ≡ n
    → ((j : ℕ) → j < n → get_elem l j ≡ some (f j))
    → l ≡ tabulate f n
unfolding get_elem
tabulate_ext f zero [] h k = refl
tabulate_ext f zero (x ∷ l) h k = absurd (omega (arith, h))
tabulate_ext f (suc n) [] h k = absurd (omega (arith, h))
tabulate_ext f (suc n) (x ∷ l) h k =
    ap₂ (λ y ys. y ∷ ys) (ap (λ o. elim o [ some y ↦ y | none ↦ x ]) (k 0 (omega arith)))
      (tabulate_ext (λ i. f (suc i)) n l (omega (arith, h)) (λ j e. k (suc j) (omega arith)))

-- Each number below `n` is one of those that are counted up to it.
pub count-tabulate :
    (p : ℕ → Bool) (f : ℕ → ℕ) (n j : ℕ) → j < n → p (f j) ≡ true → 0 < count p (tabulate f n)
count-tabulate p f zero j h e = absurd (omega arith)
count-tabulate p f (suc n) zero h e = ground (arith, e)
count-tabulate p f (suc n) (suc j) h e =
    ground (arith, count-tabulate p (λ i. f (suc i)) n j (omega arith) e)

pub count_both : (p : ℕ → Bool) (l : List ℕ) → count p l + count (λ y. not (p y)) l ≡ length l
count_both p [] = refl
count_both p (x ∷ l) = ground (arith, count_both p l)
