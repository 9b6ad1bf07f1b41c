-- ===== src/Idempotency/Redis/Tests.antt =====
-- A Redis that is its keys, with a handler that counts how often it runs.
use Prim.Native.Char.{Char, code}
use stage_sync.Base.{
  ℕ, zero, suc, ap, ◌∙◌, nat_eq, String, true, List, [], ◌∷◌, Option, none, some, ◌≡◌, refl, ◌==◌,
  string_eq, if◌then◌else◌,
}
use stage_sync.Base.Dict.{Dict, lookup, insert, lookup-insert_self}
use stage_sync.Runtime.{GoError, other, sentinel, Result, ok, err, is_error}
use stage_sync.Idempotency.{Entry}
use stage_sync.Idempotency.Middleware.{
  WriteOp, write_header, write, Request, replayed, written, record_all, record_header, record_write,
  replay_or_capture, capture, serve,
}
use stage_sync.Idempotency.Redis.{KeyValue, Json, read_entry, redis_get, redis_set, redis_store}
use stage_sync.Idempotency.Redis.Answered.{RedisLaws, redis_replay_lem}

abbrev redis_nil : GoError
redis_nil = sentinel "redis.Nil" "redis: nil"

missing : is_error redis_nil "redis.Nil" ≡ true
unfolding is_error string_eq
missing = refl

abbrev or_nil : Option String → Result String
or_nil none = err redis_nil
or_nil (some raw) = ok raw

abbrev set_absent_only :
    String → String → Option String → Dict String String → Result (Unit {0}) × Dict String String
set_absent_only key raw none r = (ok tt, insert key raw r)
set_absent_only key raw (some old) r = (err redis_nil, r)

abbrev client : KeyValue (Dict String String)
client = record {
  get = λ key r. (or_nil (lookup key r), r);
  set_nx = λ key raw ttl r. set_absent_only key raw (lookup key r) r;
}

-- An entry as a text: a mark for each unit of the status, a colon, and the body.
abbrev mark : Char
mark = "1"

abbrev colon : Char
colon = ":"

abbrev encode : ℕ → String → String
encode zero body = String.◌∷◌ colon body
encode (suc n) body = String.◌∷◌ mark (encode n body)

abbrev one_more : Option (ℕ × String) → Option (ℕ × String)
one_more none = none
one_more (some (n, body)) = some (suc n, body)

decode : String → Option (ℕ × String)
decode String.[] = none
decode (String.◌∷◌ c s) =
    let rest = one_more (decode s) in if code c == 58 then some (0, s) else rest

decode-encode : (n : ℕ) (body : String) → decode (encode n body) ≡ some (n, body)
unfolding decode nat_eq
decode-encode zero body = refl
decode-encode (suc n) body = ap one_more (decode-encode n body)

abbrev entry_of : Option (ℕ × String) → Result Entry
entry_of none = err (other "unexpected end")
entry_of (some (n, body)) = ok (record { status = n; body = body })

abbrev json : Json
json = record {
  marshal = λ e. ok (encode e.status e.body);
  unmarshal = λ raw. entry_of (decode raw);
}

held_answer :
    (key raw : String) (r : Dict String String)
    → lookup key r ≡ some raw
    → or_nil (lookup key r) ≡ ok raw
held_answer key raw r h = ap or_nil h

set_there :
    (key raw : String) (r : Dict String String)
    → lookup key r ≡ none
    → lookup key (set_absent_only key raw (lookup key r) r).1 ≡ some raw
set_there key raw r h =
    ap (λ o. lookup key (set_absent_only key raw o r).1) h ∙ lookup-insert_self key raw r

abbrev laws : RedisLaws client json
laws = record {
  holds = λ r key. lookup key r;
  get_held = held_answer;
  get_absent = λ key r h. (redis_nil, ap or_nil h, missing);
  get_keeps = λ key q r. refl;
  set_absent = λ key raw ttl r. set_there key raw r;
  round_trip = λ e. (encode e.status e.body, refl, ap entry_of (decode-encode e.status e.body));
}

abbrev next : Request → ℕ → List WriteOp × ℕ
next r h = (write_header 2 ∷ write "done" ∷ [], suc h)

abbrev post : Request
post = record { method = "POST"; key = "k1"; player = none }

abbrev after_first : Dict String String
after_first = ("anon:k1", encode 2 "done") ∷ []

redis_replay_lem_example :
    let first = serve next (some (redis_store client json 9)) post ([], 0) in
    let second = serve next (some (redis_store client json 9)) post (after_first, 1) in
    (first.0 ≡ written (write_header 2 ∷ write "done" ∷ []))
    × (first.2 ≡ 1)
    × (second.0 ≡ replayed (record { status = 2; body = "done" }))
    × (second.2 ≡ 1)
unfolding serve replay_or_capture capture redis_get redis_set read_entry record_all record_header
    record_write lookup insert string_eq is_error
redis_replay_lem_example =
    redis_replay_lem client json laws next 9 post post [] after_first 0 1 refl refl refl refl refl
