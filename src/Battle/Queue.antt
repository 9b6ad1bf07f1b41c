-- ===== src/Battle/Queue.antt =====
-- `V2UserQueue` of internal/service/battle/service.go: one bounded channel and one worker for each
-- player. The system's state is what the goroutines share; a step is what one of them does
-- atomically, and any interleaving is a series of steps. `accepted` and `applied` only record the
-- history: the requests in the order in which they entered a channel and were served.
pub mod Drained
pub mod Order
pub mod Pending
pub mod Replies
pub mod Served
use stage_sync.Base.{
  ℕ, ◌<◌, String, Bool, true, false, List, [], ◌∷◌, ◌++◌, Option, none, some, ◌≡◌, length,
  string_eq, nat_eq,
}
use stage_sync.Base.Dict.{Dict, lookup, insert}
use stage_sync.Base.Int.{ℤ}
use stage_sync.Runtime.{GoError, wrap, Result, err}
use stage_sync.Battle.{Repo, is_invalid_damage, err_invalid_damage}

-- `id` stands for the reply channel, which no two requests share.
pub record QueueReq : Type 0 where
  pub id : ℕ
  pub player_id : String
  pub damage : ℤ

-- Where a call of `Apply` stands: in the second `select`, or back with a result.
pub data Call : Type 0 where
  waiting : Call
  finished : Result ℤ → Call

-- Where a worker stands: at `range q`, with a request that it has received, or with the answer of the
-- repository to it.
pub data Worker : Type 0 where
  idle : Worker
  holding : QueueReq → Worker
  answering : QueueReq → Result ℤ → Worker

pub record System (S : Type 0) : Type 0 where
  pub db : S
  pub queues : Dict String (List QueueReq)
  pub workers : Dict String Worker
  pub replies : Dict ℕ (Result ℤ)
  pub calls : Dict ℕ Call
  pub accepted : List QueueReq
  pub applied : List QueueReq

abbrev pub queue_capacity : ℕ
queue_capacity = 64

abbrev pub or_idle : Option Worker → Worker
or_idle none = idle
or_idle (some w) = w

-- The request that a worker has received and not yet applied.
abbrev pub in_hand : Worker → List QueueReq
in_hand idle = []
in_hand (holding r) = r ∷ []
in_hand (answering r reply) = []

abbrev pub or_empty : Option (List QueueReq) → List QueueReq
or_empty none = []
or_empty (some q) = q

module _ {S : Type 0} where
  -- `NewV2UserQueue`
  abbrev pub new_queue : S → System S
  new_queue db = record {
    db = db;
    queues = [];
    workers = [];
    replies = [];
    calls = [];
    accepted = [];
    applied = [];
  }

  -- What stands in a player's channel; a channel that is not yet made is empty.
  abbrev pub queue_of : System S → String → List QueueReq
  queue_of y player = or_empty (lookup player y.queues)

  -- `getOrCreate`
  unfoldable pub get_or_create : String → System S → System S
  get_or_create player y = record y { queues = insert player (queue_of y player) y.queues }

  -- `case q <- req`
  unfoldable pub send : QueueReq → System S → System S
  send r y = record y {
    queues = insert r.player_id (queue_of y r.player_id ++ r ∷ []) y.queues;
    accepted = y.accepted ++ r ∷ [];
  }

  unfoldable pub set_call : ℕ → Call → System S → System S
  set_call id c y = record y { calls = insert id c y.calls }

  -- The worker of a player; one that is not yet started is idle.
  abbrev pub worker_of : System S → String → Worker
  worker_of y player = or_idle (lookup player y.workers)

  -- `for req := range q`: the worker receives the first request of its channel.
  unfoldable pub worker_takes : String → QueueReq → List QueueReq → System S → System S
  worker_takes player r rest y = record y {
    queues = insert player rest y.queues;
    workers = insert player (holding r) y.workers;
  }

  -- `ApplyDamageNaive`
  unfoldable pub worker_applies : Repo S → String → QueueReq → System S → System S
  worker_applies repo player r y =
      let (reply, db') = repo.apply_damage_naive r.player_id r.damage y.db in
      record y {
        db = db';
        workers = insert player (answering r reply) y.workers;
        applied = y.applied ++ r ∷ [];
      }

  -- `req.result <- queueResp{...}`, on a channel with room for it.
  unfoldable pub worker_replies : String → QueueReq → Result ℤ → System S → System S
  worker_replies player r reply y = record y {
    workers = insert player idle y.workers;
    replies = insert r.id reply y.replies;
  }

  -- `ctx_err` is what `ctx.Err()` returns in a call whose context is done. A send on a full channel
  -- blocks, so it is no step.
  pub data Step (repo : Repo S) : System S → System S → Type 0 where
    refuse :
        (y : System S) (r : QueueReq)
        → lookup r.id y.calls ≡ none
        → is_invalid_damage r.damage ≡ true
        → Step repo y (set_call r.id (finished (err err_invalid_damage)) y)
    enqueue :
        (y : System S) (r : QueueReq)
        → lookup r.id y.calls ≡ none
        → is_invalid_damage r.damage ≡ false
        → length (queue_of y r.player_id) < queue_capacity
        → Step repo y (set_call r.id waiting (send r (get_or_create r.player_id y)))
    cancel_enqueue :
        (y : System S) (r : QueueReq) (ctx_err : GoError)
        → lookup r.id y.calls ≡ none
        → is_invalid_damage r.damage ≡ false
        → Step repo y
            (set_call r.id (finished (err (wrap "enqueue" ctx_err))) (get_or_create r.player_id y))
    takes :
        (y : System S) (player : String) (r : QueueReq) (rest : List QueueReq)
        → worker_of y player ≡ idle
        → lookup player y.queues ≡ some (r ∷ rest)
        → Step repo y (worker_takes player r rest y)
    applies :
        (y : System S) (player : String) (r : QueueReq)
        → worker_of y player ≡ holding r
        → Step repo y (worker_applies repo player r y)
    answers :
        (y : System S) (player : String) (r : QueueReq) (reply : Result ℤ)
        → worker_of y player ≡ answering r reply
        → Step repo y (worker_replies player r reply y)
    receive :
        (y : System S) (id : ℕ) (reply : Result ℤ)
        → lookup id y.calls ≡ some waiting
        → lookup id y.replies ≡ some reply
        → Step repo y (set_call id (finished reply) y)
    cancel_await :
        (y : System S) (id : ℕ) (ctx_err : GoError)
        → lookup id y.calls ≡ some waiting
        → Step repo y (set_call id (finished (err (wrap "await" ctx_err))) y)

  pub data Reach (repo : Repo S) (y : System S) : System S → Type 0 where
    here : Reach repo y y
    next : {z w : System S} → Reach repo y z → Step repo z w → Reach repo y w
