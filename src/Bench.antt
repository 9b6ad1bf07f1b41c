-- ===== src/Bench.antt =====
-- cmd/battlebench/main.go: `runBench`, which lets n goroutines call `Apply` at once and sums up how
-- long they took. A duration is a natural number of nanoseconds, as `time.Since` reads a clock that
-- does not run backwards; floating-point numbers are a parameter.
use stage_sync.Base.{
  ℕ, zero, suc, ◌+◌, ◌-◌, ◌*◌, ◌/◌, String, List, [], ◌∷◌, Option, none, some, length, ltb, ◌==◌,
  string_eq, nat_eq, if◌then◌else◌,
}
use stage_sync.Base.Dict.{Dict, lookup, insert}
use stage_sync.Base.Int.{ℤ, pos, negsuc, ◌+ℤ◌, ◌-ℤ◌, add64, wrap32}
use stage_sync.Base.Rank.{get_elem}
use stage_sync.Base.Sort.{sort_slice}
use stage_sync.Runtime.{GoError, error_text}
pub mod Quantiles
pub mod Unordered
mod Tests

-- `result`, which names what one goroutine came to.
pub record Outcome : Type 0 where
  pub dur : ℕ
  pub failure : Option GoError

-- `make([]result, n)`
abbrev pub make : ℕ → List Outcome
make zero = []
make (suc n) = record { dur = 0; failure = none } ∷ make n

-- What the goroutines share: the slice, and the two 32-bit counters.
pub record Shared : Type 0 where
  pub results : List Outcome
  pub ok_count : ℤ
  pub fail_count : ℤ

-- `results[i] = r`; no goroutine has an index past the end.
unfoldable pub set_at : ℕ → Outcome → List Outcome → List Outcome
set_at i r [] = []
set_at zero r (x ∷ xs) = r ∷ xs
set_at (suc i) r (x ∷ xs) = x ∷ set_at i r xs

-- `atomic.AddInt32(&n, 1)`
abbrev pub add_one : ℤ → ℤ
add_one n = wrap32 (n +ℤ pos 1)

-- The end of goroutine `i`.
unfoldable pub finish : ℕ → Outcome → Shared → Shared
finish i r s = record {
  results = set_at i r s.results;
  ok_count = elim r.failure [ none ↦ add_one s.ok_count | some e ↦ s.ok_count ];
  fail_count = elim r.failure [ none ↦ s.fail_count | some e ↦ add_one s.fail_count ];
}

-- The goroutines end in some order, each with its outcome.
unfoldable pub wait_all : (ℕ → Outcome) → List ℕ → Shared → Shared
wait_all outcome [] s = s
wait_all outcome (i ∷ order) s = wait_all outcome order (finish i (outcome i) s)

-- `s.errs[msg]++` for each failure; a count is at most the length of a slice.
unfoldable pub count_errors : List Outcome → Dict String ℕ → Dict String ℕ
count_errors [] errs = errs
count_errors (r ∷ rs) errs = elim r.failure [
  | none ↦ count_errors rs errs
  | some e ↦
      let msg = error_text e in
      count_errors rs (insert msg (elim (lookup msg errs) [ none ↦ 1 | some n ↦ n + 1 ]) errs)
]

-- The durations of the calls that succeeded.
unfoldable pub durations : List Outcome → List ℕ
durations [] = []
durations (r ∷ rs) =
    let rest = durations rs in elim r.failure [ none ↦ r.dur ∷ rest | some e ↦ rest ]

pub record Latency : Type 0 where
  pub min : ℕ
  pub max : ℕ
  pub p50 : ℕ
  pub p95 : ℕ
  pub p99 : ℕ
  pub avg : ℤ

abbrev pub zero_latency : Latency
zero_latency = record { min = 0; max = 0; p50 = 0; p95 = 0; p99 = 0; avg = pos 0 }

-- `sum += d` for each, from `sum`.
unfoldable pub sum64 : ℤ → List ℕ → ℤ
sum64 sum [] = sum
sum64 sum (d ∷ ds) = sum64 (add64 sum (pos d)) ds

-- Integer division by a positive number, which rounds toward 0.
abbrev pub quotient : ℤ → ℕ → ℤ
quotient (pos a) n = pos (a / n)
quotient (negsuc a) n = pos 0 -ℤ pos (suc a / n)

-- `durs[i]`, and what follows; an index out of range ends the program.
abbrev pub at : {A : Type 0} → List ℕ → ℕ → (ℕ → Option A) → Option A
at durs i k = elim (get_elem durs i) [ none ↦ none | some d ↦ k d ]

-- What is read from `n` sorted durations.
abbrev pub quantiles : List ℕ → ℕ → Option Latency
quantiles durs n = at durs 0 (λ least. at durs (n - 1) (λ most. at durs (n * 50 / 100) (λ p50.
    at durs (n * 95 / 100) (λ p95. at durs (n * 99 / 100) (λ p99. some (record {
      min = least;
      max = most;
      p50 = p50;
      p95 = p95;
      p99 = p99;
      avg = quotient (sum64 (pos 0) durs) n;
    }))))))

-- The latencies of the calls that succeeded, where there are any.
unfoldable pub latency : List ℕ → Option Latency
latency unsorted =
    let durs = sort_slice ltb unsorted in
    let n = length durs in if n == 0 then some zero_latency else quantiles durs n

-- `summary`; `F` is `float64`.
pub record Summary (F : Type 0) : Type 0 where
  pub total : ℕ
  pub ok_count : ℤ
  pub fail_count : ℤ
  pub errs : Dict String ℕ
  pub latency : Latency
  pub throughput : F

-- `0` and `float64(ok) / total.Seconds()`
pub record Rates (F : Type 0) : Type 0 where
  pub zero : F
  pub per_second : ℤ → ℕ → F

module _ {F : Type 0} (rates : Rates F) where
  -- `runBench`, after `wg.Wait()`; `total` is how long all took.
  unfoldable pub summarize : ℕ → ℕ → Shared → Option (Summary F)
  summarize n total s = elim (latency (durations s.results)) [
    | none ↦ none
    | some l ↦ some (record {
      total = n;
      ok_count = s.ok_count;
      fail_count = s.fail_count;
      errs = count_errors s.results [];
      latency = l;
      throughput = if ltb 0 total then rates.per_second s.ok_count total else rates.zero;
    })
  ]

  -- `runBench`, where the goroutines end in the given order.
  unfoldable pub run_bench : ℕ → (ℕ → Outcome) → List ℕ → ℕ → Option (Summary F)
  run_bench n outcome order total =
      summarize n total
        (wait_all outcome order (record { results = make n; ok_count = pos 0; fail_count = pos 0 }))
