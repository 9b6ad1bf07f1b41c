-- ===== src/Idempotency/Middleware.antt =====
-- internal/endpoint/idempotency.go: the middleware, the key it stores a response under, and the
-- writer that records a response.
use stage_sync.Base.{
  ℕ, String, ◌<>◌, Bool, true, false, not, List, [], ◌∷◌, Option, none, some, ◌==◌, string_eq,
  if◌then◌else◌, ◌||◌,
}
use stage_sync.Runtime.{ok, err, Result}
use stage_sync.Idempotency.{Entry, Store}

-- `http.StatusOK`
abbrev pub status_ok : ℕ
status_ok = 200

-- What a handler does with its `ResponseWriter`.
pub data WriteOp : Type 0 where
  write_header : ℕ → WriteOp
  write : String → WriteOp

-- `recordedWriter`; `passed` are the calls passed on to the writer inside.
pub record RecordedWriter : Type 0 where
  pub body : String
  pub status : ℕ
  pub wrote : Bool
  pub passed : List WriteOp

abbrev pub new_recorded_writer : RecordedWriter
new_recorded_writer = record { body = ""; status = status_ok; wrote = false; passed = [] }

-- `WriteHeader`; `passed` has the last call first.
unfoldable pub record_header : ℕ → RecordedWriter → RecordedWriter
record_header code w = if w.wrote then w else record {
  body = w.body;
  status = code;
  wrote = true;
  passed = write_header code ∷ w.passed;
}

abbrev pub record_body : String → RecordedWriter → RecordedWriter
record_body b w = record {
  body = w.body <> b;
  status = w.status;
  wrote = w.wrote;
  passed = write b ∷ w.passed;
}

-- `Write`
unfoldable pub record_write : String → RecordedWriter → RecordedWriter
unfolding record_header
record_write b w = record_body b (if not w.wrote then record_header status_ok w else w)

abbrev pub record_op : WriteOp → RecordedWriter → RecordedWriter
record_op (write_header code) w = record_header code w
record_op (write b) w = record_write b w

-- The writer after a handler's calls.
unfoldable pub record_all : List WriteOp → RecordedWriter → RecordedWriter
unfolding record_header record_write
record_all [] w = w
record_all (op ∷ ops) w = record_all ops (record_op op w)

-- `scopedIdempotencyKey`; the player is the one that authentication put into the context.
abbrev pub scoped_idempotency_key : Option String → String → String
scoped_idempotency_key none key = "anon:" <> key
scoped_idempotency_key (some player) key =
    if player == "" then "anon:" <> key else player <> (":" <> key)

pub record Request : Type 0 where
  pub method : String
  pub key : String
  pub player : Option String

-- A response is a replay, with the entry, or what the handler wrote.
pub data Response : Type 0 where
  replayed : Entry → Response
  written : List WriteOp → Response

-- No header, or a method that writes nothing.
abbrev pub is_passed_through : Request → Bool
is_passed_through r = (r.key == "") || ((r.method == "GET") || (r.method == "HEAD"))

module _ {S H : Type 0} (next : Request → H → List WriteOp × H) where
  -- The handler's response is passed on and stored; an error of the store is only logged.
  unfoldable pub capture : Store S → Request → S × H → Response × S × H
  unfolding record_all
  capture store r (s, h) =
      let (ops, h') = next r h in
      let rec = record_all ops new_recorded_writer in
      let scoped = scoped_idempotency_key r.player r.key in
      (written ops, (store.set scoped (record { status = rec.status; body = rec.body }) s).1, h')

  -- After the lookup: a hit is replayed; after a miss or an error the handler runs.
  unfoldable pub replay_or_capture :
      Store S → Request → Result (Option Entry) × S → H → Response × S × H
  unfolding capture
  replay_or_capture store r (ok (some e), s) h = (replayed e, s, h)
  replay_or_capture store r (ok none, s) h = capture store r (s, h)
  replay_or_capture store r (err x, s) h = capture store r (s, h)

  -- `Idempotency`; no store is a nil one.
  unfoldable pub serve : Option (Store S) → Request → S × H → Response × S × H
  unfolding replay_or_capture
  serve none r (s, h) = let (ops, h') = next r h in (written ops, s, h')
  serve (some store) r (s, h) =
      if is_passed_through r
      then (let (ops, h') = next r h in (written ops, s, h'))
      else replay_or_capture store r (store.get (scoped_idempotency_key r.player r.key) s) h
