-- ===== src/RateLimit/Isolated.antt =====
-- internal/ratelimit/ratelimit.go: the identities do not disturb each other.
use stage_sync.Base.{
  String, Bool, true, false, not, List, [], ◌∷◌, some, ◌≡◌, refl, ap, ◌∙◌, ◌==◌, string_eq,
  if◌then◌else◌, eq_of_==, arith, inl, inr, Bool-cases, length, length-keep, ◌+◌,
}
use stage_sync.Base.Dict.{lookup, insert, lookup-insert, NodupKeys, lookup-keep}
use stage_sync.Runtime.{Time}
use stage_sync.RateLimit.{Rate, Bucket, Buckets, Limiter, Call, bucket_of, allow, sweep, is_idle}

module _ {F L : Type 0} (rate : Rate F L) (lim : Limiter F) where
  -- The answers to a series of calls, with the identity of each.
  abbrev pub run : List Call → Buckets L → List (String × Bool)
  run [] buckets = []
  run (c ∷ cs) buckets =
      let (allowed, buckets') = allow rate lim c buckets in (c.identity, allowed) ∷ run cs buckets'

  -- The answers that one identity got.
  abbrev pub answers_to : String → List (String × Bool) → List Bool
  answers_to q [] = []
  answers_to q ((p, allowed) ∷ rest) =
      let more = answers_to q rest in if q == p then allowed ∷ more else more

  -- The times at which one identity called.
  abbrev pub times_of : String → List Call → List Time
  times_of q [] = []
  times_of q (c ∷ cs) = let more = times_of q cs in if q == c.identity then c.at ∷ more else more

  -- The answers of one limiter on its own.
  abbrev pub answers_alone : L → List Time → List Bool
  answers_alone l [] = []
  answers_alone l (t ∷ ts) = let (allowed, l') = rate.allow_n l t in allowed ∷ answers_alone l' ts

  bucket_of-insert :
      (q p : String) (b : Bucket L) (buckets : Buckets L)
      → bucket_of rate lim q (insert p b buckets)
        ≡ (if q == p then b.l else bucket_of rate lim q buckets)
  bucket_of-insert q p b buckets = ground (arith, lookup-insert q p b buckets)

  bucket_of-own :
      (q p : String) (buckets : Buckets L)
      → (q == p) ≡ true
      → bucket_of rate lim q buckets ≡ bucket_of rate lim p buckets
  bucket_of-own q p buckets same = ap (λ i. bucket_of rate lim i buckets) (eq_of_== q p same)

  -- The bucket of the caller after a call.
  abbrev bucket_after : Call → Buckets L → Bucket L
  bucket_after c buckets = record {
    l = (rate.allow_n (bucket_of rate lim c.identity buckets) c.at).1;
    last_seen = c.seen;
  }

  allow-eq :
      (c : Call) (buckets : Buckets L)
      → rate.at_most_zero lim.rps ≡ false
      → allow rate lim c buckets ≡ (
        (rate.allow_n (bucket_of rate lim c.identity buckets) c.at).0,
        insert c.identity (bucket_after c buckets) buckets,
      )
  unfolding allow
  allow-eq c buckets limited = rw (allow, limited) refl

  -- With a positive rate, the answers that an identity gets in any series of calls are those that one
  -- limiter gives to the calls of that identity alone: the limiter that it has at the start, or a new
  -- one.
  pub isolated_lem :
      (q : String) (cs : List Call) (buckets : Buckets L)
      → rate.at_most_zero lim.rps ≡ false
      → answers_to q (run cs buckets) ≡ answers_alone (bucket_of rate lim q buckets) (times_of q cs)
  isolated_lem q [] buckets limited = refl
  isolated_lem q (c ∷ cs) buckets limited =
      let b = bucket_after c buckets in
      let others = isolated_lem q cs (insert c.identity b buckets) limited in
      elim (Bool-cases (q == c.identity)) [
        | inl own ↦
            rw (allow-eq c buckets limited, own, bucket_of-own q c.identity buckets own)
              (ap (λ more. (rate.allow_n (bucket_of rate lim c.identity buckets) c.at).0 ∷ more)
                (others
                  ∙ ap (λ l. answers_alone l (times_of q cs))
                      (bucket_of-insert q c.identity b buckets
                        ∙ ap (λ t. if t then b.l else bucket_of rate lim q buckets) own)))
        | inr other ↦
            rw (allow-eq c buckets limited, other)
              (others
                ∙ ap (λ l. answers_alone l (times_of q cs))
                    (bucket_of-insert q c.identity b buckets
                      ∙ ap (λ t. if t then b.l else bucket_of rate lim q buckets) other))
      ]

  -- `Sweep` removes as many buckets as it says; an identity whose bucket was idle starts again with a
  -- new one, and any other keeps its own.
  pub bucket_sweep_lem :
      (q : String) (now : Time) (b : Bucket L) (buckets : Buckets L)
      → NodupKeys buckets
      → lookup q buckets ≡ some b
      → ((sweep rate lim now buckets).0 + length (sweep rate lim now buckets).1 ≡ length buckets)
        × (bucket_of rate lim q (sweep rate lim now buckets).1
            ≡ (if is_idle rate lim now (q, b) then rate.new_limiter lim.rps lim.burst else b.l))
  unfolding sweep
  bucket_sweep_lem q now b buckets unique found = (
    omega (arith, length-keep (λ b. not (is_idle rate lim now b)) buckets),
    ground (arith, lookup-keep (λ b. not (is_idle rate lim now b)) q b buckets unique found),
  )
