-- ===== src/RateLimit/Tests.antt =====
-- Buckets that refill nothing, under the theorems.
use stage_sync.Base.{ℕ, zero, suc, Bool, true, false, List, [], ◌∷◌, ◌≡◌, refl, string_eq}
use stage_sync.Base.Dict.{lookup}
use stage_sync.Base.Int.{pos, pos_part}
use stage_sync.RateLimit.{Rate, Limiter, Buckets, Call, new}
use stage_sync.RateLimit.Isolated.{run, answers_to, isolated_lem}

-- A bucket is the number of tokens that are left.
abbrev take_one : ℕ → Bool × ℕ
take_one zero = (false, zero)
take_one (suc n) = (true, n)

abbrev pub no_refill : Rate Bool ℕ
no_refill = record {
  at_most_zero = λ rps. rps;
  new_limiter = λ rps burst. pos_part burst;
  allow_n = λ l t. take_one l;
}

abbrev pub limiter : Limiter Bool
limiter = record { rps = false; burst = pos 1; idle_ttl = pos 600000000000 }

-- A burst that is not positive is 1.
burst_at_least_one : new false (pos 0) [] ≡ limiter
unfolding new
burst_at_least_one = refl

abbrev calls : List Call
calls =
    record { seen = 1; at = 1; identity = "ip:a" }
    ∷ record { seen = 2; at = 2; identity = "ip:b" }
    ∷ record { seen = 3; at = 3; identity = "ip:a" }
    ∷ []

abbrev buckets : Buckets ℕ
buckets = ("ip:a", record { l = 0; last_seen = 4 }) ∷ []

isolated_lem_example :
    answers_to no_refill limiter "ip:a" (run no_refill limiter calls []) ≡ true ∷ false ∷ []
unfolding lookup string_eq
isolated_lem_example = isolated_lem no_refill limiter "ip:a" calls [] refl
