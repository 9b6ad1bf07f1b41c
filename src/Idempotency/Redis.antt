-- ===== src/Idempotency/Redis.antt =====
-- internal/idempotency/redis.go: the store in Redis. The client and `encoding/json` are parameters.
pub mod Answered
mod Tests
use stage_sync.Base.{String, Option, none, some, if◌then◌else◌}
use stage_sync.Runtime.{wrap, is_error, Result, ok, err, Action, Time}
use stage_sync.Idempotency.{Entry, Store, store_ttl}

-- `GET`, and `SET` with the mode NX and a lifetime; a missing key, and one that is there already, are
-- the error `redis.Nil`.
pub record KeyValue (R : Type 0) : Type 0 where
  pub get : String → Action R String
  pub set_nx : String → String → Time → Action R (Unit {0})

pub record Json : Type 0 where
  pub marshal : Entry → Result String
  pub unmarshal : String → Result Entry

-- What `Get` makes of the bytes, or of the client's error.
unfoldable pub read_entry : Json → Result String → Result (Option Entry)
read_entry json (err e) = if is_error e "redis.Nil" then ok none else err (wrap "redis get" e)
read_entry json (ok raw) = elim (json.unmarshal raw) [
  | ok entry ↦ ok (some entry)
  | err e ↦ err (wrap "unmarshal idempotency entry" e)
]

-- What `Set` makes of the client's error.
unfoldable pub set_outcome : Result (Unit {0}) → Result (Unit {0})
set_outcome (ok u) = ok u
set_outcome (err e) = if is_error e "redis.Nil" then ok tt else err (wrap "redis set nx" e)

module _ {R : Type 0} (client : KeyValue R) (json : Json) where
  -- `Get`
  unfoldable pub redis_get : String → Action R (Option Entry)
  redis_get key r = let (raw, r') = client.get key r in (read_entry json raw, r')

  -- `Set`
  unfoldable pub redis_set : Time → String → Entry → Action R (Unit {0})
  redis_set ttl key entry r = elim (json.marshal entry) [
    | err e ↦ (err (wrap "marshal idempotency entry" e), r)
    | ok raw ↦ let (u, r') = client.set_nx key raw ttl r in (set_outcome u, r')
  ]

  -- `NewRedisStore`; a `time.Duration` that is not positive is given as 0.
  abbrev pub redis_store : Time → Store R
  redis_store ttl = record { get = redis_get; set = redis_set (store_ttl ttl) }
