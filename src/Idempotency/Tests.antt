-- ===== src/Idempotency/Tests.antt =====
-- A counting handler behind the middleware, and the theorems on it.
use stage_sync.Base.{ℕ, suc, List, [], ◌∷◌, none, some, ◌≡◌, refl, string_eq}
use stage_sync.Base.Dict.{lookup}
use stage_sync.Runtime.{Time}
use stage_sync.Idempotency.{InmemEntry, Entries, inmem_store}
use stage_sync.Idempotency.Middleware.{
  WriteOp, write_header, write, Request, replayed, written, serve, scoped_idempotency_key,
}
use stage_sync.Idempotency.Replay.{replay_lem}

-- The clock stands still.
abbrev clock : Time → Time × Time
clock w = (w, w)

-- A handler that counts how often it runs.
abbrev next : Request → ℕ → List WriteOp × ℕ
next r h = (write_header 201 ∷ write "created" ∷ [], suc h)

abbrev post : Request
post = record { method = "POST"; key = "k1"; player = some "ann" }

abbrev entry : InmemEntry
entry = record { entry = record { status = 200; body = "x" }; expires_at = 5 }

abbrev entries : Entries
entries = ("anon:k0", entry) ∷ []

-- A player called `anon` and an anonymous caller share their keys.
shared_key : scoped_idempotency_key (some "anon") "k1" ≡ scoped_idempotency_key none "k1"
unfolding string_eq
shared_key = refl

replay_lem_example :
    (entries' : Entries) × (w'' : Time) × (serve next
        (some (inmem_store clock 10))
        post
        ((entries, 3), 0)
      ≡ (written (write_header 201 ∷ write "created" ∷ []), (entries', w''), 1))
    × (serve next (some (inmem_store clock 10)) post ((entries', 13), 1)
        ≡ (replayed (record { status = 201; body = "created" }), (entries', 13), 1))
unfolding lookup string_eq
replay_lem_example = replay_lem clock next 10 post post entries 3 13 0 1 refl refl refl refl refl
