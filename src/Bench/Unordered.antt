-- ===== src/Bench/Unordered.antt =====
-- cmd/battlebench/main.go: the order in which the goroutines end makes no difference.
use stage_sync.Base.{
  ℕ, zero, suc, ◌+◌, ◌-◌, ◌≤◌, ◌<◌, Bool, true, false, not, List, [], ◌∷◌, none, some, length, ◌≡◌,
  refl, ap, subst, sym, ◌∙◌, arith, ◌==◌, nat_eq, inl, inr, Bool-cases, Option-cases, eq_of_==, ◌≢◌,
}
use mathlib.Core.List.{Perm}
use stage_sync.Base.Int.{pos, ◌+ℤ◌, wrap32, wrap32-eq_self, two31}
use stage_sync.Base.Rank.{
  get_elem, count, count-Perm, tabulate, length-tabulate, tabulate_ext, count-tabulate, count_both,
}
use stage_sync.Bench.{
  Outcome, Shared, make, set_at, add_one, finish, wait_all, Rates, summarize, run_bench,
}

length-set_at : (i : ℕ) (r : Outcome) (l : List Outcome) → length (set_at i r l) ≡ length l
unfolding set_at
length-set_at i r [] = refl
length-set_at zero r (x ∷ l) = refl
length-set_at (suc i) r (x ∷ l) = ap suc (length-set_at i r l)

get_elem-set_at_self :
    (i : ℕ) (r : Outcome) (l : List Outcome) → i < length l → get_elem (set_at i r l) i ≡ some r
unfolding get_elem set_at
get_elem-set_at_self i r [] h = absurd (omega arith)
get_elem-set_at_self zero r (x ∷ l) h = refl
get_elem-set_at_self (suc i) r (x ∷ l) h = get_elem-set_at_self i r l (omega arith)

get_elem-set_at_other :
    (i j : ℕ) (r : Outcome) (l : List Outcome) → i ≢ j → get_elem (set_at i r l) j ≡ get_elem l j
unfolding get_elem set_at
get_elem-set_at_other i j r [] h = refl
get_elem-set_at_other zero zero r (x ∷ l) h = absurd (h refl)
get_elem-set_at_other zero (suc j) r (x ∷ l) h = refl
get_elem-set_at_other (suc i) zero r (x ∷ l) h = refl
get_elem-set_at_other (suc i) (suc j) r (x ∷ l) h =
    get_elem-set_at_other i j r l (λ e. h (ap suc e))

module _ (outcome : ℕ → Outcome) where
  abbrev pub succeeds : ℕ → Bool
  succeeds i = elim (outcome i).failure [ none ↦ true | some e ↦ false ]

  length-wait_all :
      (order : List ℕ) (s : Shared) → length (wait_all outcome order s).results ≡ length s.results
  unfolding wait_all finish
  length-wait_all [] s = refl
  length-wait_all (i ∷ order) s =
      length-wait_all order (finish i (outcome i) s) ∙ length-set_at i (outcome i) s.results

  abbrev IsWritten : ℕ → List Outcome → Type 0
  IsWritten j l = get_elem l j ≡ some (outcome j)

  differs : (i j : ℕ) → (i == j) ≡ false → i ≢ j
  differs i j h e = ground arith

  IsWritten-set_at_self :
      (i j : ℕ) (l : List Outcome)
      → j < length l
      → (i == j) ≡ true
      → IsWritten j (set_at i (outcome i) l)
  IsWritten-set_at_self i j l h e =
      subst (λ i. IsWritten j (set_at i (outcome i) l)) (sym (eq_of_== i j e))
        (get_elem-set_at_self j (outcome j) l h)

  -- An index holds its own outcome from when it is written, and whatever else is written.
  IsWritten-set_at :
      (i j : ℕ) (l : List Outcome)
      → j < length l
      → IsWritten j l
      → IsWritten j (set_at i (outcome i) l)
  IsWritten-set_at i j l h w = elim (Bool-cases (i == j)) [
    | inl e ↦ IsWritten-set_at_self i j l h e
    | inr e ↦ get_elem-set_at_other i j (outcome i) l (differs i j e) ∙ w
  ]

  wait_all_keeps-IsWritten :
      (order : List ℕ) (s : Shared) (j : ℕ)
      → j < length s.results
      → IsWritten j s.results
      → IsWritten j (wait_all outcome order s).results
  unfolding wait_all finish
  wait_all_keeps-IsWritten [] s j h w = w
  wait_all_keeps-IsWritten (i ∷ order) s j h w =
      wait_all_keeps-IsWritten order (finish i (outcome i) s) j
        (omega (arith, length-set_at i (outcome i) s.results)) (IsWritten-set_at i j s.results h w)

  wait_all-IsWritten :
      (order : List ℕ) (s : Shared) (j : ℕ)
      → j < length s.results
      → 0 < count (λ i. i == j) order
      → IsWritten j (wait_all outcome order s).results
  unfolding wait_all finish
  wait_all-IsWritten [] s j h c = absurd (omega arith)
  wait_all-IsWritten (i ∷ order) s j h c = elim (Bool-cases (i == j)) [
    | inl e ↦
        wait_all_keeps-IsWritten order (finish i (outcome i) s) j
          (omega (arith, length-set_at i (outcome i) s.results))
          (IsWritten-set_at_self i j s.results h e)
    | inr e ↦
        wait_all-IsWritten order (finish i (outcome i) s) j
          (omega (arith, length-set_at i (outcome i) s.results)) (ground (arith, e, c))
  ]

  add_one-pos : (a : ℕ) → a + 1 < two31 → add_one (pos a) ≡ pos (a + 1)
  unfolding ◌+ℤ◌
  add_one-pos a h =
      let added : pos a +ℤ pos 1 ≡ pos (a + 1) = ground arith in
      ap wrap32 added ∙ wrap32-eq_self (pos (a + 1)) h (omega arith)

  counted :
      (order : List ℕ) (s : Shared) (a b : ℕ)
      → s.ok_count ≡ pos a
      → s.fail_count ≡ pos b
      → a + b + length order < two31
      → let s' = wait_all outcome order s in
        (s'.ok_count ≡ pos (a + count succeeds order))
        × (s'.fail_count ≡ pos (b + count (λ i. not (succeeds i)) order))
  unfolding wait_all finish
  counted [] s a b ha hb h = (ha ∙ ap pos (omega arith), hb ∙ ap pos (omega arith))
  counted (i ∷ order) s a b ha hb h = elim (Option-cases (outcome i).failure) [
    | inl e ↦
        let (ok, failed) =
          counted order (finish i (outcome i) s) (a + 1) b
            (ap (λ o. elim o [ none ↦ add_one s.ok_count | some x ↦ s.ok_count ]) e
              ∙ ap add_one ha
              ∙ add_one-pos a (omega arith))
            (ap (λ o. elim o [ none ↦ s.fail_count | some x ↦ add_one s.fail_count ]) e ∙ hb)
            (omega arith) in
        (ok ∙ ap pos (ground (arith, e)), failed ∙ ap pos (ground (arith, e)))
    | inr (x, e) ↦
        let (ok, failed) =
          counted order (finish i (outcome i) s) a (b + 1)
            (ap (λ o. elim o [ none ↦ add_one s.ok_count | some x ↦ s.ok_count ]) e ∙ ha)
            (ap (λ o. elim o [ none ↦ s.fail_count | some x ↦ add_one s.fail_count ]) e
              ∙ ap add_one hb
              ∙ add_one-pos b (omega arith))
            (omega arith) in
        (ok ∙ ap pos (ground (arith, e)), failed ∙ ap pos (ground (arith, e)))
  ]

itself : (j : ℕ) → (j == j) ≡ true
itself j = ground arith

shared_eq :
    (s t : Shared)
    → s.results ≡ t.results
    → s.ok_count ≡ t.ok_count
    → s.fail_count ≡ t.fail_count
    → s ≡ t
shared_eq s t h k l i = record { results = h i; ok_count = k i; fail_count = l i }

count_true : (l : List ℕ) → count (λ i. true) l ≡ length l
count_true [] = refl
count_true (x ∷ l) = ap suc (count_true l)

length-make : (n : ℕ) → length (make n) ≡ n
length-make zero = refl
length-make (suc n) = ap suc (length-make n)

abbrev new_shared : ℕ → Shared
new_shared n = record { results = make n; ok_count = pos 0; fail_count = pos 0 }

all_written :
    (outcome : ℕ → Outcome) (n : ℕ) (order : List ℕ)
    → Perm order (tabulate (λ i. i) n)
    → (wait_all outcome order (new_shared n)).results ≡ tabulate outcome n
all_written outcome n order perm =
    let start = new_shared n in
    tabulate_ext outcome n (wait_all outcome order start).results
      (length-wait_all outcome order start ∙ length-make n)
      (λ j h. wait_all-IsWritten outcome order start j (omega (arith, length-make n)) (
        omega (
          arith,
          count-Perm (λ i. i == j) perm,
          count-tabulate (λ i. i == j) (λ i. i) n j h (itself j),
        )))

-- Whatever the order in which the goroutines end, each of them once, and fewer than 2^31 of them:
-- the summary is that of the outcomes in the order of their goroutines, with the number of those that
-- succeeded and of those that failed, which add up to all.
pub any_order_lem :
    {F : Type 0} (rates : Rates F) (n : ℕ) (outcome : ℕ → Outcome) (order : List ℕ) (total : ℕ)
    → Perm order (tabulate (λ i. i) n)
    → n < two31
    → let ok = count (succeeds outcome) (tabulate (λ i. i) n) in
      (run_bench rates n outcome order total
        ≡ summarize rates n total
            (record { results = tabulate outcome n; ok_count = pos ok; fail_count = pos (n - ok) }))
      × (ok ≤ n)
unfolding run_bench
any_order_lem rates n outcome order total perm small =
    let indexes = tabulate (λ i. i) n in
    let start = new_shared n in
    let every = count-Perm (λ i. true) perm in
    let all_of : (l : List ℕ) → count (λ i. true) l ≡ length l = count_true in
    let size : length order ≡ n =
      omega (arith, every, all_of order, all_of indexes, length-tabulate (λ i. i) n) in
    let (ok, failed) = counted outcome order start 0 0 refl refl (omega (arith, size)) in
    let both = count_both (succeeds outcome) indexes in
    let slots = all_written outcome n order perm in
    (
      ap (summarize rates n total) (
          shared_eq (wait_all outcome order start)
            (record {
              results = tabulate outcome n;
              ok_count = pos (count (succeeds outcome) indexes);
              fail_count = pos (n - count (succeeds outcome) indexes);
            })
            slots (ok ∙ ap pos (omega (arith, count-Perm (succeeds outcome) perm)))
            (failed
              ∙ ap pos (
                  omega (
                    arith,
                    both,
                    length-tabulate (λ i. i) n,
                    count-Perm (λ i. not (succeeds outcome i)) perm,
                  )))),
      omega (arith, both, length-tabulate (λ i. i) n),
    )
