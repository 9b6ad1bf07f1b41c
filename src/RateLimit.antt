-- ===== src/RateLimit.antt =====
-- internal/ratelimit/ratelimit.go: a token bucket for each identity. The bucket is `rate.Limiter` of
-- golang.org/x/time/rate, a parameter. A call gets the clock's readings as arguments.
use stage_sync.Base.{
  ℕ, ◌+◌, ◌-◌, String, Bool, true, not, List, [], ◌∷◌, Option, none, some, ◌==◌, string_eq,
  if◌then◌else◌, ltb, keep, length,
}
use stage_sync.Base.Dict.{Dict, lookup, insert}
use stage_sync.Base.Int.{ℤ, pos, pos_part, neg_part, leb_ℤ}
use stage_sync.Runtime.{Time}
pub mod Isolated
pub mod Tests

-- `rate.NewLimiter` and `Allow`, which is documented as `AllowN(time.Now(), 1)`; `F` is `float64`,
-- of which the code asks whether it is at most 0.
pub record Rate (F L : Type 0) : Type 0 where
  pub at_most_zero : F → Bool
  pub new_limiter : F → ℤ → L
  pub allow_n : L → Time → Bool × L

pub record Bucket (L : Type 0) : Type 0 where
  pub l : L
  pub last_seen : Time

-- `Limiter.buckets`
abbrev pub Buckets : Type 0 → Type 0
Buckets L = Dict String (Bucket L)

-- `Limiter`, less its buckets, lock, clock and channel.
pub record Limiter (F : Type 0) : Type 0 where
  pub rps : F
  pub burst : ℤ
  pub idle_ttl : ℤ

-- A call of `Allow`: what `l.now` reads, what `time.Now` reads in the bucket, and the identity.
pub record Call : Type 0 where
  pub seen : Time
  pub at : Time
  pub identity : String

module _ {F : Type 0} where
  -- `WithIdleTTL`
  abbrev pub with_idle_ttl : ℤ → Limiter F → Limiter F
  with_idle_ttl d l = record { rps = l.rps; burst = l.burst; idle_ttl = d }

  abbrev pub apply_options : List (Limiter F → Limiter F) → Limiter F → Limiter F
  apply_options [] l = l
  apply_options (o ∷ os) l = apply_options os (o l)

  -- `New`; the idle time is ten minutes in nanoseconds.
  unfoldable pub new : F → ℤ → List (Limiter F → Limiter F) → Limiter F
  new rps burst opts = apply_options opts (record {
    rps = rps;
    burst = if leb_ℤ burst (pos 0) then pos 1 else burst;
    idle_ttl = pos 600000000000;
  })

module _ {F L : Type 0} (rate : Rate F L) (lim : Limiter F) where
  -- The bucket of an identity, which is made where there is none.
  abbrev pub bucket_of : String → Buckets L → L
  bucket_of identity buckets = elim (lookup identity buckets) [
    | none ↦ rate.new_limiter lim.rps lim.burst
    | some b ↦ b.l
  ]

  -- `Allow`
  unfoldable pub allow : Call → Buckets L → Bool × Buckets L
  allow c buckets =
      if rate.at_most_zero lim.rps
      then (true, buckets)
      else let (allowed, l') = rate.allow_n (bucket_of c.identity buckets) c.at in
        (allowed, insert c.identity (record { l = l'; last_seen = c.seen }) buckets)

  -- `b.lastSeen.Before(cutoff)`, with both sides moved by the idle time.
  abbrev pub is_idle : Time → String × Bucket L → Bool
  is_idle now b = ltb (b.1.last_seen + pos_part lim.idle_ttl) (now + neg_part lim.idle_ttl)

  -- `Sweep`, which returns how many buckets it removed.
  unfoldable pub sweep : Time → Buckets L → ℕ × Buckets L
  sweep now buckets =
      let left = keep (λ b. not (is_idle now b)) buckets in (length buckets - length left, left)

  -- `Size`
  abbrev pub size : Buckets L → ℕ
  size buckets = length buckets
