-- ===== src/Bench/Quantiles.antt =====
-- cmd/battlebench/main.go: the quantiles are in range, in order, and at the rank that their name says.
use stage_sync.Base.{
  ℕ, suc, ◌+◌, ◌-◌, ◌*◌, ◌/◌, ◌≤◌, ◌<◌, Bool, true, false, List, [], ◌∷◌, Option, none, some,
  length, ltb, leb, leb→le, ◌≡◌, ap, subst, sym, ◌∙◌, arith, ◌==◌, nat_eq, if◌then◌else◌, All,
}
use native.Mathlib.Nat.{le-div_iff_mul-le, div-lt_iff_lt-mul}
use stage_sync.Base.Int.{ℤ, pos, ◌+ℤ◌, ◌≤ℤ◌, add64, add64-eq, two63}
use stage_sync.Base.Rank.{
  get_elem, get_elem_in_range, sort_slice-IsSorted, count, get_elem-rank, get_elem_mono, sum,
  sum_between, count_none, count_every, sum-sort_slice,
}
use stage_sync.Base.Sort.{sort_slice, length-sort_slice, keep-sort_slice}
use stage_sync.Bench.{Latency, sum64, quotient, at, quantiles, latency, zero_latency}

-- `v` stands at place `k` of the durations in ascending order: at most `k` of them are below it, and
-- more than `k` are not above it.
abbrev pub HasRank : List ℕ → ℕ → ℕ → Type 0
HasRank durs k v = (count (λ y. ltb y v) durs ≤ k) × (k < count (λ y. leb y v) durs)

pub record AreQuantiles (durs : List ℕ) (l : Latency) : Type 0 where
  pub min : HasRank durs 0 l.min
  pub p50 : HasRank durs (length durs * 50 / 100) l.p50
  pub p95 : HasRank durs (length durs * 95 / 100) l.p95
  pub p99 : HasRank durs (length durs * 99 / 100) l.p99
  pub max : HasRank durs (length durs - 1) l.max
  pub ordered : (l.min ≤ l.p50) × (l.p50 ≤ l.p95) × (l.p95 ≤ l.p99) × (l.p99 ≤ l.max)
  pub bounds : All (λ y. (l.min ≤ y) × (y ≤ l.max)) durs
  pub avg : (pos l.min ≤ℤ l.avg) × (l.avg ≤ℤ pos l.max)

-- A place in range, and its rank.
placed :
    (durs : List ℕ) (k : ℕ)
    → k < length durs
    → (v : ℕ) × (get_elem (sort_slice ltb durs) k ≡ some v) × HasRank durs k v
placed durs k h =
    let (v, e) =
      get_elem_in_range (sort_slice ltb durs) k (omega (arith, length-sort_slice ltb durs)) in
    let (below, upto) = get_elem-rank (sort_slice ltb durs) k v (sort_slice-IsSorted durs) e in
    (
      v,
      e,
      (
        omega (arith, below, keep-sort_slice ltb (λ y. ltb y v) durs),
        omega (arith, upto, keep-sort_slice ltb (λ y. leb y v) durs),
      ),
    )

add_pos : (a b : ℕ) → pos a +ℤ pos b ≡ pos (a + b)
unfolding ◌+ℤ◌
add_pos a b = ground arith

sum64-eq : (a : ℕ) (ds : List ℕ) → a + sum ds < two63 → sum64 (pos a) ds ≡ pos (a + sum ds)
unfolding sum64
sum64-eq a [] h = ap pos (omega arith)
sum64-eq a (d ∷ ds) h =
    let added : add64 (pos a) (pos d) ≡ pos (a + d) =
      add64-eq (pos a) (pos d) (rw (add_pos a d) (omega arith, omega arith)) ∙ add_pos a d in
    ap (λ z. sum64 z ds) added ∙ sum64-eq (a + d) ds (omega arith) ∙ ap pos (omega arith)

-- The average of numbers between two bounds is between them.
average_between :
    (ds : List ℕ) (a b : ℕ)
    → 0 < length ds
    → All (λ y. (a ≤ y) × (y ≤ b)) ds
    → (a ≤ sum ds / length ds) × (sum ds / length ds ≤ b)
average_between ds a b h all =
    let (low, high) = sum_between ds a b all in
    (
      (le-div_iff_mul-le h).1 low,
      omega (arith, (div-lt_iff_lt-mul {x = sum ds} {y = suc b} h).1 (ground arith)),
    )

all_between :
    (ds : List ℕ) (a b : ℕ)
    → All (λ y. ltb y a ≡ false) ds
    → All (λ y. leb y b ≡ true) ds
    → All (λ y. (a ≤ y) × (y ≤ b)) ds
all_between [] a b h k = tt
all_between (d ∷ ds) a b h k = ((ground (arith, h.0), leb→le d b k.0), all_between ds a b h.1 k.1)

abbrev IsWithin : ℕ → ℕ → ℤ → Type 0
IsWithin a b z = (pos a ≤ℤ z) × (z ≤ℤ pos b)

at_found :
    {A : Type 0} (durs : List ℕ) (i d : ℕ) (k : ℕ → Option A)
    → get_elem durs i ≡ some d
    → at durs i k ≡ k d
at_found {A} durs i d k e = ap (λ o. elim o as (λ _. Option A) [ none ↦ none | some d ↦ k d ]) e

averaged :
    (durs : List ℕ) (least most : ℕ)
    → 0 < length durs
    → sum durs < two63
    → All (λ y. (least ≤ y) × (y ≤ most)) durs
    → let sorted = sort_slice ltb durs in
      IsWithin least most (quotient (sum64 (pos 0) sorted) (length sorted))
averaged durs least most some_call fits bounds =
    let sorted = sort_slice ltb durs in
    let average = average_between durs least most some_call bounds in
    let summed : sum64 (pos 0) sorted ≡ pos (sum durs) =
      sum64-eq 0 sorted (omega (arith, sum-sort_slice durs, fits))
      ∙ ap pos (omega (arith, sum-sort_slice durs)) in
    subst (λ z. IsWithin least most (quotient z (length sorted))) (sym summed)
      (subst (λ n. IsWithin least most (pos (sum durs / n))) (sym (length-sort_slice ltb durs))
        (omega (arith, average), omega (arith, average)))

-- Where a call has succeeded, and 64 bits hold the sum of the durations, no index is out of range and
-- the latencies are what they are called: each quantile stands at its rank among the durations, the
-- five are in order, all durations are between the first and the last, and so is the average.
pub latency_lem :
    (durs : List ℕ)
    → 0 < length durs
    → sum durs < two63
    → (l : Latency) × (latency durs ≡ some l) × AreQuantiles durs l
unfolding latency
latency_lem durs some_call fits =
    let sorted = sort_slice ltb durs in
    let n = length sorted in
    let same : n ≡ length durs = length-sort_slice ltb durs in
    let (least, e0, r0) = placed durs 0 some_call in
    let (most, e1, r1) = placed durs (n - 1) (omega (arith, same)) in
    let (p50, e2, r2) = placed durs (n * 50 / 100) (omega (arith, same)) in
    let (p95, e3, r3) = placed durs (n * 95 / 100) (omega (arith, same)) in
    let (p99, e4, r4) = placed durs (n * 99 / 100) (omega (arith, same)) in
    let ascending = sort_slice-IsSorted durs in
    let nonempty : (n == 0) ≡ false = ground (arith, same) in
    let bounds : All (λ y. (least ≤ y) × (y ≤ most)) durs =
      all_between durs least most (count_none (λ y. ltb y least) durs (omega (arith, r0.0)))
        (count_every (λ y. leb y most) durs (omega (arith, r1.1, same))) in
    (
      record {
        min = least;
        max = most;
        p50 = p50;
        p95 = p95;
        p99 = p99;
        avg = quotient (sum64 (pos 0) sorted) n;
      },
      ap (λ (b : Bool). if b then some zero_latency else quantiles sorted n) nonempty
          ∙ at_found sorted 0 least _ e0
          ∙ at_found sorted (n - 1) most _ e1
          ∙ at_found sorted (n * 50 / 100) p50 _ e2
          ∙ at_found sorted (n * 95 / 100) p95 _ e3
          ∙ at_found sorted (n * 99 / 100) p99 _ e4,
      record {
        min = r0;
        p50 = subst (λ n. HasRank durs (n * 50 / 100) p50) same r2;
        p95 = subst (λ n. HasRank durs (n * 95 / 100) p95) same r3;
        p99 = subst (λ n. HasRank durs (n * 99 / 100) p99) same r4;
        max = subst (λ n. HasRank durs (n - 1) most) same r1;
        ordered = (
          get_elem_mono sorted 0 (n * 50 / 100) least p50 ascending (omega arith) e0 e2,
          get_elem_mono sorted (n * 50 / 100) (n * 95 / 100) p50 p95 ascending (omega arith) e2 e3,
          get_elem_mono sorted (n * 95 / 100) (n * 99 / 100) p95 p99 ascending (omega arith) e3 e4,
          get_elem_mono sorted (n * 99 / 100) (n - 1) p99 most ascending (omega (arith, same)) e4
              e1,
        );
        bounds = bounds;
        avg = averaged durs least most some_call fits bounds;
      },
    )
