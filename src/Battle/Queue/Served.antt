-- ===== src/Battle/Queue/Served.antt =====
-- The queue does not keep a call waiting: its worker alone can bring it back.
use stage_sync.Base.{
  ℕ, String, List, [], ◌∷◌, ◌++◌, some, ◌≡◌, refl, ap, sym, ◌∙◌, nat_eq, string_eq,
}
use stage_sync.Base.Dict.{lookup, lookup-insert_self}
use stage_sync.Base.Int.{ℤ}
use stage_sync.Runtime.{Result}
use stage_sync.Battle.{Repo}
use stage_sync.Battle.Queue.{
  QueueReq, System, Worker, idle, holding, answering, or_idle, in_hand, waiting, finished, Step,
  refuse, enqueue, cancel_enqueue, takes, applies, answers, receive, cancel_await, worker_of,
  set_call, worker_takes, worker_applies, worker_replies,
}
use stage_sync.Battle.Queue.Order.{replay, replay-append}

module _ {S : Type 0} (repo : Repo S) where
  module _ (p : String) (id : ℕ) where
    -- A step of the worker of `p`, or the receipt of the reply to the request `id`.
    abbrev pub IsOwn : {y z : System S} → Step repo y z → Type 0
    IsOwn (refuse y r fresh bad) = ⊥
    IsOwn (enqueue y r fresh good room) = ⊥
    IsOwn (cancel_enqueue y r e fresh good) = ⊥
    IsOwn (takes y q r rest free head) = q ≡ p
    IsOwn (applies y q r held) = q ≡ p
    IsOwn (answers y q r reply answered) = q ≡ p
    IsOwn (receive y j reply w rep) = j ≡ id
    IsOwn (cancel_await y j e w) = ⊥

    -- A run of such steps alone.
    pub data OwnRun (y : System S) : System S → Type 0 where
      stay : OwnRun y y
      go_on : {z w : System S} → OwnRun y z → (s : Step repo z w) → IsOwn s → OwnRun y w

    OwnRun-trans : {x y z : System S} → OwnRun x y → OwnRun y z → OwnRun x z
    OwnRun-trans r stay = r
    OwnRun-trans r (go_on t s own) = go_on (OwnRun-trans r t) s own

    -- The worker is done with what it had in hand, and the rest stands as before.
    abbrev Freed : System S → System S → Type 0
    Freed y z =
        OwnRun y z
        × (worker_of z p ≡ idle)
        × (z.queues ≡ y.queues)
        × (z.calls ≡ y.calls)
        × (z.db ≡ replay repo (in_hand (worker_of y p)) y.db)

    answered_lem :
        (y : System S) (r : QueueReq) (reply : Result ℤ)
        → worker_of y p ≡ answering r reply
        → (z : System S) × Freed y z × (lookup r.id z.replies ≡ some reply)
    unfolding worker_replies
    answered_lem y r reply h = (
      worker_replies p r reply y,
      (
        go_on stay (answers y p r reply h) refl,
        ap or_idle (lookup-insert_self p idle y.workers),
        refl,
        refl,
        ap (λ w. replay repo (in_hand w) y.db) (sym h),
      ),
      lookup-insert_self r.id reply y.replies,
    )

    -- The answer of the repository to a request.
    abbrev reply_to : QueueReq → S → Result ℤ
    reply_to r db = (repo.apply_damage_naive r.player_id r.damage db).0

    held_lem :
        (y : System S) (r : QueueReq)
        → worker_of y p ≡ holding r
        → (z : System S) × Freed y z × (lookup r.id z.replies ≡ some (reply_to r y.db))
    unfolding worker_applies
    held_lem y r h =
        let reply = reply_to r y.db in
        let y' = worker_applies repo p r y in
        let now = ap or_idle (lookup-insert_self p (answering r reply) y.workers) in
        let (z, (run, free, queues, calls, db), replied) = answered_lem y' r reply now in
        (
          z,
          (
            OwnRun-trans (go_on stay (applies y p r h) refl) run,
            free,
            queues,
            calls,
            db
                ∙ ap (λ w. replay repo (in_hand w) y'.db) now
                ∙ ap (λ w. replay repo (in_hand w) y.db) (sym h),
          ),
          replied,
        )

    freed_lem : (w : Worker) (y : System S) → worker_of y p ≡ w → (z : System S) × Freed y z
    freed_lem idle y h = (y, (stay, h, refl, refl, ap (λ w. replay repo (in_hand w) y.db) (sym h)))
    freed_lem (holding r) y h = let (z, freed, replied) = held_lem y r h in (z, freed)
    freed_lem (answering r reply) y h =
        let (z, freed, replied) = answered_lem y r reply h in (z, freed)

    -- A round of a free worker: it receives the first request, applies it and answers it.
    round_lem :
        (y : System S) (r : QueueReq) (rest : List QueueReq)
        → worker_of y p ≡ idle
        → lookup p y.queues ≡ some (r ∷ rest)
        → (z : System S) × OwnRun y z
          × (worker_of z p ≡ idle)
          × (lookup p z.queues ≡ some rest)
          × (z.calls ≡ y.calls)
          × (z.db ≡ replay repo (r ∷ []) y.db)
          × (lookup r.id z.replies ≡ some (reply_to r y.db))
    unfolding worker_takes
    round_lem y r rest free head =
        let y' = worker_takes p r rest y in
        let now = ap or_idle (lookup-insert_self p (holding r) y.workers) in
        let (z, (run, idle_again, queues, calls, db), replied) = held_lem y' r now in
        (
          z,
          OwnRun-trans (go_on stay (takes y p r rest free head) refl) run,
          idle_again,
          ap (lookup p) queues ∙ lookup-insert_self p rest y.queues,
          calls,
          db ∙ ap (λ w. replay repo (in_hand w) y.db) now,
          replied,
        )

    -- A free worker comes to the request after those ahead of it.
    reached_lem :
        (ahead : List QueueReq) (r : QueueReq) (rest : List QueueReq) (y : System S)
        → r.id ≡ id
        → worker_of y p ≡ idle
        → lookup p y.queues ≡ some (ahead ++ r ∷ rest)
        → lookup r.id y.calls ≡ some waiting
        → (z : System S) × OwnRun y z
          × (lookup r.id z.calls ≡ some (finished (reply_to r (replay repo ahead y.db))))
          × (lookup p z.queues ≡ some rest)
    unfolding set_call
    reached_lem [] r rest y mine free queued called =
        let (z, run, idle_again, left, calls, db, replied) = round_lem y r rest free queued in
        let reply = reply_to r y.db in
        (
          set_call r.id (finished reply) z,
          go_on run (receive z r.id reply (ap (lookup r.id) calls ∙ called) replied) mine,
          lookup-insert_self r.id (finished reply) z.calls,
          left,
        )
    reached_lem (first ∷ ahead) r rest y mine free queued called =
        let (y', run, idle_again, left, calls, db, replied) =
          round_lem y first (ahead ++ r ∷ rest) free queued in
        let (z, run', back, behind) =
          reached_lem ahead r rest y' mine idle_again left (ap (lookup r.id) calls ∙ called) in
        (
          z,
          OwnRun-trans run run',
          back ∙ ap (λ d. some (finished (reply_to r (replay repo ahead d)))) db,
          behind,
        )

  -- A call whose request stands in a channel, behind any others, can come back by steps of that channel's
  -- worker and the receipt of its own reply alone, wherever the worker now stands: with the answer of
  -- the repository to its own request, after the request that the worker holds and those ahead in the
  -- channel. What stood behind it still does.
  pub served_lem :
      (p : String) (ahead : List QueueReq) (r : QueueReq) (rest : List QueueReq) (y : System S)
      → lookup p y.queues ≡ some (ahead ++ r ∷ rest)
      → lookup r.id y.calls ≡ some waiting
      → let before = replay repo (in_hand (worker_of y p) ++ ahead) y.db in
        (z : System S) × OwnRun p r.id y z
        × (lookup r.id z.calls
            ≡ some (finished (repo.apply_damage_naive r.player_id r.damage before).0))
        × (lookup p z.queues ≡ some rest)
  served_lem p ahead r rest y queued called =
      let (y', (run, free, queues, calls, db)) = freed_lem p r.id (worker_of y p) y refl in
      let (z, run', back, left) =
        reached_lem p r.id ahead r rest y' refl free (ap (lookup p) queues ∙ queued)
          (ap (lookup r.id) calls ∙ called) in
      let same =
        ap (replay repo ahead) db ∙ sym (replay-append repo (in_hand (worker_of y p)) ahead y.db) in
      (
        z,
        OwnRun-trans p r.id run run',
        back ∙ ap (λ d. some (finished (reply_to p r.id r d))) same,
        left,
      )
