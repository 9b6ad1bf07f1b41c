-- ===== src/Idempotency/Replay.antt =====
-- internal/endpoint/idempotency.go over the store in memory: a repeated request gets the response of
-- the first one, and its handler does not run again.
use stage_sync.Base.{
  ℕ, ◌+◌, String, ◌<>◌, true, false, List, [], ◌∷◌, none, some, ◌≡◌, refl, ap, ap₂, if_intro, ◌∙◌,
  string_eq, ltb, not,
}
use stage_sync.Base.Dict.{lookup, insert, lookup-insert_self}
use stage_sync.Runtime.{Time}
use stage_sync.Idempotency.{Entry, InmemEntry, Entries, inmem_store}
use stage_sync.Idempotency.Middleware.{
  WriteOp, write_header, write, RecordedWriter, new_recorded_writer, record_body, status_ok,
  record_all, record_header, record_write, Request, replayed, written, scoped_idempotency_key,
  is_passed_through, capture, replay_or_capture, serve,
}
use stage_sync.Idempotency.Kept.{get_alive, get_absent, set_absent}

-- What a client receives of a handler's calls: the status of the first one, 200 where that is a
-- write or there is none; and the bytes of the writes, one after the other.
abbrev pub sent_status : List WriteOp → ℕ
sent_status [] = 200
sent_status (write_header code ∷ ops) = code
sent_status (write b ∷ ops) = 200

abbrev pub sent_body : String → List WriteOp → String
sent_body sent [] = sent
sent_body sent (write_header code ∷ ops) = sent_body sent ops
sent_body sent (write b ∷ ops) = sent_body (sent <> b) ops

header_again : (code : ℕ) (w : RecordedWriter) → w.wrote ≡ true → record_header code w ≡ w
unfolding record_header
header_again code w h = rw (record_header, h) refl

write_again :
    (b : String) (w : RecordedWriter) → w.wrote ≡ true → record_write b w ≡ record_body b w
unfolding record_write
write_again b w h = rw (record_write, h) refl

header-body : (code : ℕ) (w : RecordedWriter) → (record_header code w).body ≡ w.body
unfolding record_header
header-body code w =
    if_intro (λ (v : RecordedWriter). v.body ≡ w.body) w.wrote (λ _. refl) (λ _. refl)

write-body : (b : String) (w : RecordedWriter) → (record_write b w).body ≡ w.body <> b
unfolding record_write
write-body b w =
    if_intro (λ (v : RecordedWriter). v.body <> b ≡ w.body <> b) (not w.wrote)
      (λ _. ap (λ s. s <> b) (header-body status_ok w)) (λ _. refl)

record_all-status :
    (ops : List WriteOp) (w : RecordedWriter)
    → w.wrote ≡ true
    → (record_all ops w).status ≡ w.status
unfolding record_all record_header record_write
record_all-status [] w h = refl
record_all-status (write_header code ∷ ops) w h =
    ap (λ v. (record_all ops v).status) (header_again code w h) ∙ record_all-status ops w h
record_all-status (write b ∷ ops) w h =
    ap (λ v. (record_all ops v).status) (write_again b w h)
    ∙ record_all-status ops (record_body b w) h

pub record_all-body :
    (ops : List WriteOp) (w : RecordedWriter) → (record_all ops w).body ≡ sent_body w.body ops
unfolding record_all record_header record_write
record_all-body [] w = refl
record_all-body (write_header code ∷ ops) w =
    record_all-body ops (record_header code w) ∙ ap (λ s. sent_body s ops) (header-body code w)
record_all-body (write b ∷ ops) w =
    record_all-body ops (record_write b w) ∙ ap (λ s. sent_body s ops) (write-body b w)

pub first_status :
    (ops : List WriteOp) → (record_all ops new_recorded_writer).status ≡ sent_status ops
unfolding record_all record_header record_write
first_status [] = refl
first_status (write_header code ∷ ops) =
    record_all-status ops (record_header code new_recorded_writer) refl
first_status (write b ∷ ops) = record_all-status ops (record_write b new_recorded_writer) refl

-- What a middleware stores of a handler's response: the status and the body that the client received.
abbrev pub sent_entry : List WriteOp → Entry
sent_entry ops = record { status = sent_status ops; body = sent_body "" ops }

-- Whatever a handler writes, the recorded status and body are the ones that the client receives.
pub record_all_lem :
    (ops : List WriteOp)
    → ((record_all ops new_recorded_writer).status ≡ sent_status ops)
      × ((record_all ops new_recorded_writer).body ≡ sent_body "" ops)
record_all_lem ops = (first_status ops, record_all-body ops new_recorded_writer)

module _ {W H : Type 0} (now : W → Time × W) (next : Request → H → List WriteOp × H)
    (ttl : Time) where
  -- The entries after a first request whose handler wrote `ops` at a time.
  abbrev pub stored_entries : Request → List WriteOp → Time → Entries → Entries
  stored_entries r ops t entries =
      insert (scoped_idempotency_key r.player r.key)
        (record { entry = sent_entry ops; expires_at = t + ttl }) entries

  -- The two requests: one whose key is not stored, and one whose key is stored and alive.
  pub first_request :
      (r : Request) (entries : Entries) (w : W) (h : H)
      → is_passed_through r ≡ false
      → lookup (scoped_idempotency_key r.player r.key) entries ≡ none
      → serve next (some (inmem_store now ttl)) r ((entries, w), h) ≡ (
        written (next r h).0,
        (stored_entries r (next r h).0 (now w).0 entries, (now w).1),
        (next r h).1,
      )
  unfolding serve replay_or_capture capture
  first_request r entries w h through fresh =
      let scoped = scoped_idempotency_key r.player r.key in
      let ops = (next r h).0 in
      let entry =
        ap₂ (λ status body. record { status = status; body = body }) (first_status ops)
          (record_all-body ops new_recorded_writer) in
      rw (through) (
        ap (λ g. replay_or_capture next (inmem_store now ttl) r g h)
          (get_absent now scoped entries w fresh)
        ∙ ap (λ (g : _ × (Entries × W)). (written ops, g.1, (next r h).1))
            (set_absent now ttl scoped _ entries w fresh)
        ∙ ap
            (λ (e : Entry). (
              written ops,
              (
                insert scoped (record { entry = e; expires_at = (now w).0 + ttl }) entries,
                (now w).1,
              ),
              (next r h).1,
            ))
            entry)

  pub repeated_request :
      (r : Request) (e : InmemEntry) (entries : Entries) (w : W) (h : H)
      → is_passed_through r ≡ false
      → lookup (scoped_idempotency_key r.player r.key) entries ≡ some e
      → ltb e.expires_at (now w).0 ≡ false
      → serve next (some (inmem_store now ttl)) r ((entries, w), h)
        ≡ (replayed e.entry, (entries, (now w).1), h)
  unfolding serve replay_or_capture
  repeated_request r e entries w h through found alive = rw (through) (
      ap (λ g. replay_or_capture next (inmem_store now ttl) r g h)
        (get_alive now (scoped_idempotency_key r.player r.key) e entries w found alive))

  -- A first request with a key, neither GET nor HEAD, whose scoped key is not stored gets what its
  -- handler writes. A later one with the same scoped key, at a time not after the first one's and the
  -- lifetime, gets the status and the body that the client of the first one received, whatever it asks
  -- for, and its handler does not run.
  pub replay_lem :
      (r r' : Request) (entries : Entries) (w w' : W) (h h' : H)
      → is_passed_through r ≡ false
      → is_passed_through r' ≡ false
      → scoped_idempotency_key r'.player r'.key ≡ scoped_idempotency_key r.player r.key
      → lookup (scoped_idempotency_key r.player r.key) entries ≡ none
      → ltb ((now w).0 + ttl) (now w').0 ≡ false
      → (entries' : Entries) × (w'' : W) × (serve next
            (some (inmem_store now ttl))
            r
            ((entries, w), h)
          ≡ (written (next r h).0, (entries', w''), (next r h).1))
        × (serve next (some (inmem_store now ttl)) r' ((entries', w'), h')
            ≡ (replayed (sent_entry (next r h).0), (entries', (now w').1), h'))
  replay_lem r r' entries w w' h h' through through' same fresh alive =
      let e : InmemEntry = record {
        entry = sent_entry (next r h).0;
        expires_at = (now w).0 + ttl;
      } in
      let entries' = stored_entries r (next r h).0 (now w).0 entries in
      (
        entries',
        (now w).1,
        first_request r entries w h through fresh,
        repeated_request r' e entries' w' h' through'
            (ap (λ k. lookup k entries') same
              ∙ lookup-insert_self (scoped_idempotency_key r.player r.key) e entries)
            alive,
      )
