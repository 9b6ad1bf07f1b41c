-- ===== src/Idempotency/Redis/Answered.antt =====
-- internal/endpoint/idempotency.go over internal/idempotency/redis.go: a repeated request gets the
-- response of the first one.
use stage_sync.Base.{
  String, true, false, List, Option, none, some, ◌≡◌, refl, ap, ap₂, ◌∙◌, if◌then◌else◌,
}
use stage_sync.Runtime.{GoError, Result, ok, err, wrap, is_error, Time}
use stage_sync.Idempotency.{Entry, Store, store_ttl}
use stage_sync.Idempotency.Middleware.{
  WriteOp, Request, Response, replayed, written, new_recorded_writer, scoped_idempotency_key,
  is_passed_through, capture, replay_or_capture, serve,
}
use stage_sync.Idempotency.Replay.{sent_entry, first_status, record_all-body}
use stage_sync.Idempotency.Redis.{KeyValue, Json, read_entry, redis_get, redis_set, redis_store}

-- What Redis documents of a server that answers: `holds` is what stands under a key and has not
-- expired. `GET` reads it, and `SET` with NX stores a value where there is none. `encoding/json` reads
-- an entry back that it has written.
pub record RedisLaws {R : Type 0} (client : KeyValue R) (json : Json) : Type 0 where
  pub holds : R → String → Option String
  pub get_held : (key raw : String) (r : R) → holds r key ≡ some raw → (client.get key r).0 ≡ ok raw
  pub get_absent :
      (key : String) (r : R)
      → holds r key ≡ none
      → (e : GoError) × ((client.get key r).0 ≡ err e) × (is_error e "redis.Nil" ≡ true)
  pub get_keeps : (key q : String) (r : R) → holds (client.get key r).1 q ≡ holds r q
  pub set_absent :
      (key raw : String) (ttl : Time) (r : R)
      → holds r key ≡ none
      → holds (client.set_nx key raw ttl r).1 key ≡ some raw
  pub round_trip :
      (e : Entry) → (raw : String) × (json.marshal e ≡ ok raw) × (json.unmarshal raw ≡ ok e)

module _ {R : Type 0} (client : KeyValue R) (json : Json) (laws : RedisLaws client json) where
  get_miss :
      (key : String) (r : R)
      → laws.holds r key ≡ none
      → redis_get client json key r ≡ (ok none, (client.get key r).1)
  unfolding redis_get read_entry
  get_miss key r h =
      let (e, failed, missing) = laws.get_absent key r h in
      ap (λ a. (read_entry json a, (client.get key r).1)) failed
      ∙ ap (λ b. (if b then ok none else err (wrap "redis get" e), (client.get key r).1)) missing

  get_hit :
      (key raw : String) (e : Entry) (r : R)
      → laws.holds r key ≡ some raw
      → json.unmarshal raw ≡ ok e
      → redis_get client json key r ≡ (ok (some e), (client.get key r).1)
  unfolding redis_get read_entry
  get_hit key raw e r h decoded =
      ap (λ a. (read_entry json a, (client.get key r).1)) (laws.get_held key raw r h)
      ∙ ap
          (λ (d : Result Entry). (
            elim d as (λ _. Result (Option Entry)) [
              | ok entry ↦ ok (some entry)
              | err e ↦ err (wrap "unmarshal idempotency entry" e)
            ],
            (client.get key r).1,
          ))
          decoded

  set_miss :
      (key raw : String) (e : Entry) (ttl : Time) (r : R)
      → json.marshal e ≡ ok raw
      → (redis_set client json ttl key e r).1 ≡ (client.set_nx key raw ttl r).1
  unfolding redis_set
  set_miss key raw e ttl r h = rw (redis_set, h) refl

  module _ {H : Type 0} (next : Request → H → List WriteOp × H) (ttl : Time) where
    abbrev pub store : Option (Store R)
    store = some (redis_store client json ttl)

    first_answer :
        (q : Request) (r : R) (h : H) (raw : String)
        → is_passed_through q ≡ false
        → laws.holds r (scoped_idempotency_key q.player q.key) ≡ none
        → json.marshal (sent_entry (next q h).0) ≡ ok raw
        → serve next store q (r, h) ≡ (
          written (next q h).0,
          (client.set_nx
              (scoped_idempotency_key q.player q.key)
              raw
              (store_ttl ttl)
              (client.get (scoped_idempotency_key q.player q.key) r).1).1,
          (next q h).1,
        )
    unfolding serve replay_or_capture capture
    first_answer q r h raw through fresh made =
        let key = scoped_idempotency_key q.player q.key in
        let ops = (next q h).0 in
        let r1 = (client.get key r).1 in
        let recorded =
          ap₂ (λ status body. record { status = status; body = body }) (first_status ops)
            (record_all-body ops new_recorded_writer) in
        rw (through) (
          ap (λ g. replay_or_capture next (redis_store client json ttl) q g h)
            (get_miss key r fresh)
          ∙ ap
              (λ (e : Entry).
                (written ops, (redis_set client json (store_ttl ttl) key e r1).1, (next q h).1))
              recorded
          ∙ ap (λ (s : R). (written ops, s, (next q h).1))
              (set_miss key raw (sent_entry ops) (store_ttl ttl) r1 made))

    -- Over a Redis that answers, a first request with a key, neither GET nor HEAD, whose scoped key is
    -- not there gets what its handler writes. A later one with the same scoped key, while Redis still
    -- holds under that what it held after the first one, gets the status and the body that the client
    -- of the first one received, and its handler does not run.
    pub redis_replay_lem :
        (q q' : Request) (r r'' : R) (h h' : H)
        → is_passed_through q ≡ false
        → is_passed_through q' ≡ false
        → scoped_idempotency_key q'.player q'.key ≡ scoped_idempotency_key q.player q.key
        → laws.holds r (scoped_idempotency_key q.player q.key) ≡ none
        → laws.holds r'' (scoped_idempotency_key q.player q.key)
          ≡ laws.holds (serve next store q (r, h)).1 (scoped_idempotency_key q.player q.key)
        → ((serve next store q (r, h)).0 ≡ written (next q h).0)
          × ((serve next store q (r, h)).2 ≡ (next q h).1)
          × ((serve next store q' (r'', h')).0 ≡ replayed (sent_entry (next q h).0))
          × ((serve next store q' (r'', h')).2 ≡ h')
    unfolding serve replay_or_capture
    redis_replay_lem q q' r r'' h h' through through' same fresh held =
        let key = scoped_idempotency_key q.player q.key in
        let key' = scoped_idempotency_key q'.player q'.key in
        let e = sent_entry (next q h).0 in
        let (raw, made, decoded) = laws.round_trip e in
        let first = first_answer q r h raw through fresh made in
        let kept : laws.holds r'' key' ≡ some raw =
          ap (laws.holds r'') same
          ∙ held
          ∙ ap (λ (a : Response × R × H). laws.holds a.1 key) first
          ∙ laws.set_absent key raw (store_ttl ttl) (client.get key r).1
              (laws.get_keeps key key r ∙ fresh) in
        let hit = get_hit key' raw e r'' kept decoded in
        let second = ap (λ g. replay_or_capture next (redis_store client json ttl) q' g h') hit in
        (
          ap (λ (a : Response × R × H). a.0) first,
          ap (λ (a : Response × R × H). a.2) first,
          rw (through') (ap (λ (a : Response × R × H). a.0) second),
          rw (through') (ap (λ (a : Response × R × H). a.2) second),
        )
