-- ===== src/Bench/Tests.antt =====
-- cmd/battlebench/main.go: three calls, of which the second fails.
use stage_sync.Base.{
  ℕ, zero, suc, ◌≤◌, List, [], ◌∷◌, none, some, ◌≡◌, refl, arith, string_eq, nat_eq,
}
use mathlib.Core.List.{Perm}
use mathlib.Core.List.Perm
use stage_sync.Base.Int.{pos, wrap64, add64, ◌+ℤ◌}
use stage_sync.Base.Rank.{get_elem, tabulate}
use stage_sync.Base.Sort.{insert_sorted, sort_slice}
use stage_sync.Runtime.{other}
use stage_sync.Bench.{Outcome, Latency, Rates, sum64, latency, summarize, run_bench}
use stage_sync.Bench.Quantiles.{AreQuantiles, latency_lem}
use stage_sync.Bench.Unordered.{any_order_lem}

abbrev rates : Rates ℕ
rates = record { zero = 0; per_second = λ ok total. total }

abbrev outcome : ℕ → Outcome
outcome zero = record { dur = 30; failure = none }
outcome (suc zero) = record { dur = 5; failure = some (other "deadlock") }
outcome (suc (suc i)) = record { dur = 10; failure = none }

abbrev measured : Latency
measured = record { min = 10; max = 30; p50 = 30; p95 = 30; p99 = 30; avg = pos 20 }

is_measured : latency (30 ∷ 10 ∷ []) ≡ some measured
unfolding latency sort_slice insert_sorted get_elem sum64 add64 wrap64 ◌+ℤ◌ nat_eq
is_measured = refl

latency_lem_example :
    (l : Latency) × (latency (30 ∷ 10 ∷ []) ≡ some l) × AreQuantiles (30 ∷ 10 ∷ []) l
latency_lem_example = latency_lem (30 ∷ 10 ∷ []) (omega arith) (omega arith)

abbrev ended : List ℕ
ended = 1 ∷ 0 ∷ 2 ∷ []

ended-Perm : Perm ended (tabulate (λ i. i) 3)
ended-Perm = Perm.swap 0 1 (2 ∷ [])

any_order_lem_example :
    (run_bench rates 3 outcome ended 7
      ≡ summarize rates 3 7
          (record { results = tabulate outcome 3; ok_count = pos 2; fail_count = pos 1 }))
    × (2 ≤ 3)
any_order_lem_example = any_order_lem rates 3 outcome ended 7 ended-Perm (omega arith)
