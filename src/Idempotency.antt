-- ===== src/Idempotency.antt =====
-- internal/idempotency: the stored response to a request, the interface of a store, and the store in
-- memory (inmem.go). `now` reads the clock, and two readings may differ.
use stage_sync.Base.{
  ℕ, zero, suc, ◌+◌, String, Bool, List, [], ◌∷◌, Option, none, some, not, ◌==◌, string_eq,
  if◌then◌else◌, ltb, leb, keep, length, ◌-◌,
}
use stage_sync.Base.Dict.{Dict, lookup, insert, erase}
use stage_sync.Runtime.{ok, Action, Time}
pub mod Middleware
pub mod Kept
pub mod Replay
pub mod Redis
mod Tests

pub record Entry : Type 0 where
  pub status : ℕ
  pub body : String

pub record Store (S : Type 0) : Type 0 where
  pub get : String → Action S (Option Entry)
  pub set : String → Entry → Action S (Unit {0})

pub record InmemEntry : Type 0 where
  pub entry : Entry
  pub expires_at : Time

-- `InmemStore.entries`
abbrev pub Entries : Type 0
Entries = Dict String InmemEntry

-- The lifetime that `NewInmemStore` sets, in nanoseconds; a `time.Duration` that is not positive is
-- given as 0.
abbrev pub store_ttl : Time → Time
store_ttl zero = 300000000000
store_ttl (suc n) = suc n

module _ {W : Type 0} (now : W → Time × W) where
  unfoldable pub get : String → Action (Entries × W) (Option Entry)
  get key (entries, w) = elim (lookup key entries) [
    | none ↦ (ok none, (entries, w))
    | some e ↦
        let (t, w') = now w in
        if ltb e.expires_at t
        then (ok none, (erase key entries, w'))
        else (ok (some e.entry), (entries, w'))
  ]

  -- The entry is stored; the clock is read for the time it expires.
  abbrev pub put : Time → String → Entry → Action (Entries × W) (Unit {0})
  put ttl key entry (entries, w) =
      let (t, w') = now w in
      (ok tt, (insert key (record { entry = entry; expires_at = t + ttl }) entries, w'))

  unfoldable pub set : Time → String → Entry → Action (Entries × W) (Unit {0})
  set ttl key entry (entries, w) = elim (lookup key entries) [
    | none ↦ put ttl key entry (entries, w)
    | some e ↦
        let (t, w') = now w in
        if ltb t e.expires_at then (ok tt, (entries, w')) else put ttl key entry (entries, w')
  ]

  abbrev pub is_alive : Time → String × InmemEntry → Bool
  is_alive t e = not (ltb e.1.expires_at t)

  -- `Sweep`, which returns how many entries it removed.
  unfoldable pub sweep : Action (Entries × W) ℕ
  sweep (entries, w) =
      let (t, w') = now w in
      let left = keep (is_alive t) entries in (ok (length entries - length left), (left, w'))

  abbrev pub inmem_store : Time → Store (Entries × W)
  inmem_store ttl = record { get = get; set = set ttl }
