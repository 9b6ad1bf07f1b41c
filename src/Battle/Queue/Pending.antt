-- ===== src/Battle/Queue/Pending.antt =====
-- The requests of a player that are accepted and not yet applied, and what the steps of the queue do to
-- them.
use stage_sync.Base.{
  String, List, [], ◌∷◌, ◌++◌, some, ◌≡◌, arith, ◌==◌, string_eq, if◌then◌else◌, eq_of_==,
  Bool-cases, inl, inr,
}
use stage_sync.Base.Dict.{Dict, lookup, insert, lookup-insert}
use mathlib.Core.List.{append_assoc}
use stage_sync.Base.Int.{ℤ}
use stage_sync.Runtime.{Result}
use stage_sync.Battle.{Repo}
use stage_sync.Battle.Queue.{
  QueueReq, Worker, idle, holding, answering, or_idle, in_hand, System, queue_of, worker_of,
  get_or_create, send, worker_takes, worker_applies, worker_replies,
}

-- A player's requests that are accepted and not yet applied: the worker's, then the channel's.
abbrev pub pending : {S : Type 0} → System S → String → List QueueReq
pending y player = in_hand (worker_of y player) ++ queue_of y player

pub worker_of-insert :
    (workers : Dict String Worker) (p : String) (w : Worker) (q : String)
    → or_idle (lookup q (insert p w workers)) ≡ (if q == p then w else or_idle (lookup q workers))
worker_of-insert workers p w q = ground (arith, lookup-insert q p w workers)

module _ {S : Type 0} where
  -- Making an empty channel, or recording a call, changes no queue.
  pub queue_of-get_or_create :
      (y : System S) (p q : String) → queue_of (get_or_create p y) q ≡ queue_of y q
  unfolding get_or_create
  queue_of-get_or_create y p q = ground (arith, lookup-insert q p (queue_of y p) y.queues)

  pub queue_of-send :
      (y : System S) (r : QueueReq) (q : String)
      → queue_of (send r y) q
        ≡ (if q == r.player_id then queue_of y r.player_id ++ r ∷ [] else queue_of y q)
  unfolding send
  queue_of-send y r q =
      ground (arith, lookup-insert q r.player_id (queue_of y r.player_id ++ r ∷ []) y.queues)

  pub queue_of-worker_takes :
      (y : System S) (p : String) (r : QueueReq) (rest : List QueueReq) (q : String)
      → queue_of (worker_takes p r rest y) q ≡ (if q == p then rest else queue_of y q)
  unfolding worker_takes
  queue_of-worker_takes y p r rest q = ground (arith, lookup-insert q p rest y.queues)

  -- A new request goes to the end of its own player's.
  pub pending-send :
      (y : System S) (r : QueueReq) (q : String)
      → pending (send r y) q ≡ (if q == r.player_id then pending y q ++ r ∷ [] else pending y q)
  unfolding send
  pending-send y r q =
      ground
        (arith, queue_of-send y r q, append_assoc (in_hand (worker_of y q)) (queue_of y q) (r ∷ []))

  -- A received request stays the first of its player's.
  pub pending-worker_takes :
      (y : System S) (p : String) (r : QueueReq) (rest : List QueueReq) (q : String)
      → worker_of y p ≡ idle
      → lookup p y.queues ≡ some (r ∷ rest)
      → pending (worker_takes p r rest y) q ≡ pending y q
  unfolding worker_takes
  pending-worker_takes y p r rest q free head = elim (Bool-cases (q == p)) [
    | inl e ↦
        let same = eq_of_== q p e in
        rw (
          worker_of-insert y.workers p (holding r) q,
          lookup-insert q p rest y.queues,
          e,
          same,
          free,
          head,
        )
    | inr e ↦ rw (worker_of-insert y.workers p (holding r) q, lookup-insert q p rest y.queues, e)
  ]

  pub pending-worker_replies :
      (y : System S) (p : String) (r : QueueReq) (reply : Result ℤ) (q : String)
      → worker_of y p ≡ answering r reply
      → pending (worker_replies p r reply y) q ≡ pending y q
  unfolding worker_replies
  pending-worker_replies y p r reply q answered = elim (Bool-cases (q == p)) [
    | inl e ↦
        let same = eq_of_== q p e in rw (worker_of-insert y.workers p idle q, e, same, answered)
    | inr e ↦ rw (worker_of-insert y.workers p idle q, e)
  ]

  -- An applied request is gone.
  pub pending-worker_applies :
      (repo : Repo S) (y : System S) (p : String) (r : QueueReq) (q : String)
      → worker_of y p ≡ holding r
      → pending y q ≡ (
          if q == p
          then r ∷ pending (worker_applies repo p r y) q
          else pending (worker_applies repo p r y) q)
  unfolding worker_applies
  pending-worker_applies repo y p r q held = elim (Bool-cases (q == p)) [
    | inl e ↦
        let same = eq_of_== q p e in
        rw (worker_of-insert y.workers p (answering r _) q, e, same, held)
    | inr e ↦ rw (worker_of-insert y.workers p (answering r _) q, e)
  ]
