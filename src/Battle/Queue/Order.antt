-- ===== src/Battle/Queue/Order.antt =====
-- The order of service: each player's requests are applied in the order in which they entered the
-- channel, which is never over its capacity, and the database is what the applied requests make of it
-- one after the other.
use stage_sync.Base.{
  ℕ, Bool, true, false, ◌≤◌, ◌<◌, String, List, All, All-append, [], ◌∷◌, ◌++◌, keep, keep-append,
  some, ◌≡◌, refl, arith, length, length-append, ◌==◌, string_eq, if◌then◌else◌, if_intro, eq_of_==,
}
use stage_sync.Base.Dict.{Dict, lookup, lookup-nil}
use mathlib.Core.List.{append_assoc, append-nil}
use stage_sync.Base.Int.{ℤ}
use stage_sync.Runtime.{Result}
use stage_sync.Battle.{Repo}
use stage_sync.Battle.Queue.{
  QueueReq, Call, Worker, idle, holding, answering, System, Step, refuse, enqueue, cancel_enqueue,
  takes, applies, answers, receive, cancel_await, Reach, here, next, queue_of, worker_of,
  queue_capacity, new_queue, get_or_create, send, set_call, worker_takes, worker_applies,
  worker_replies,
}
use stage_sync.Battle.Queue.Pending.{
  pending, queue_of-get_or_create, queue_of-send, queue_of-worker_takes, pending-send,
  pending-worker_takes, pending-worker_applies, pending-worker_replies,
}

-- Requests aimed at one player, in order.
abbrev pub aimed_at : String → List QueueReq → List QueueReq
aimed_at player = keep (λ r. player == r.player_id)

pub All_after_head :
    (P : QueueReq → Type 0) (b : Bool) (r : QueueReq) (rs : List QueueReq)
    → All P (if b then r ∷ rs else rs)
    → All P rs
All_after_head P true r rs h = h.1
All_after_head P false r rs h = h

module _ {S : Type 0} (repo : Repo S) where
  -- The database after the requests are applied one after the other.
  abbrev pub replay : List QueueReq → S → S
  replay [] db = db
  replay (r ∷ rs) db = replay rs (repo.apply_damage_naive r.player_id r.damage db).1

  pub replay-append :
      (xs ys : List QueueReq) (db : S) → replay (xs ++ ys) db ≡ replay ys (replay xs db)
  replay-append [] ys db = refl
  replay-append (x ∷ xs) ys db = replay-append xs ys _

  pub record IsOrdered (start : S) (y : System S) : Type 0 where
    pub own : (player : String) → All (λ r. player ≡ r.player_id) (pending y player)
    pub bounded : (player : String) → length (queue_of y player) ≤ queue_capacity
    pub fifo :
        (player : String)
        → aimed_at player y.applied ++ pending y player ≡ aimed_at player y.accepted
    pub serial : y.db ≡ replay y.applied start

  aimed_at-snoc :
      (q : String) (rs : List QueueReq) (r : QueueReq)
      → aimed_at q (rs ++ r ∷ [])
        ≡ (if q == r.player_id then aimed_at q rs ++ r ∷ [] else aimed_at q rs)
  aimed_at-snoc q rs r =
      rw (keep-append (λ r. q == r.player_id) rs (r ∷ []))
        (ground (arith, append-nil (aimed_at q rs)))

  -- The calls play no part.
  with_calls :
      {start : S} {y : System S} (calls : Dict ℕ Call)
      → IsOrdered start y
      → IsOrdered start (record y { calls = calls })
  with_calls calls inv = record {
    own = inv.own;
    bounded = inv.bounded;
    fifo = inv.fifo;
    serial = inv.serial;
  }

  get_or_create-IsOrdered :
      {start : S} (y : System S) (p : String)
      → IsOrdered start y
      → IsOrdered start (get_or_create p y)
  unfolding get_or_create
  get_or_create-IsOrdered y p inv = record {
    own = λ q. rw (queue_of-get_or_create y p q) (inv.own q);
    bounded = λ q. rw (queue_of-get_or_create y p q) (inv.bounded q);
    fifo = λ q. rw (queue_of-get_or_create y p q) (inv.fifo q);
    serial = inv.serial;
  }

  -- A new request goes to the end of its own channel and of the history.
  send-IsOrdered :
      {start : S} (y : System S) (r : QueueReq)
      → IsOrdered start y
      → length (queue_of y r.player_id) < queue_capacity
      → IsOrdered start (send r y)
  unfolding send
  send-IsOrdered y r inv room = record {
    own = λ q. rw (pending-send y r q) (
        if_intro (All (λ x. q ≡ x.player_id)) (q == r.player_id)
          (λ h. All-append _ (pending y q) (r ∷ []) (inv.own q) (eq_of_== q r.player_id h, tt))
          (λ _. inv.own q));
    bounded = λ q. ground (
      arith,
      inv.bounded q,
      queue_of-send y r q,
      length-append (queue_of y r.player_id) (r ∷ []),
    );
    fifo = λ q. ground (
      arith,
      inv.fifo q,
      pending-send y r q,
      aimed_at-snoc q y.accepted r,
      append_assoc (aimed_at q y.applied) (pending y q) (r ∷ []),
    );
    serial = inv.serial;
  }

  worker_takes-IsOrdered :
      {start : S} (y : System S) (p : String) (r : QueueReq) (rest : List QueueReq)
      → IsOrdered start y
      → worker_of y p ≡ idle
      → lookup p y.queues ≡ some (r ∷ rest)
      → IsOrdered start (worker_takes p r rest y)
  unfolding worker_takes
  worker_takes-IsOrdered y p r rest inv free head = record {
    own = λ q. rw (pending-worker_takes y p r rest q free head) (inv.own q);
    bounded = λ q. ground (arith, inv.bounded q, queue_of-worker_takes y p r rest q);
    fifo = λ q. rw (pending-worker_takes y p r rest q free head) (inv.fifo q);
    serial = inv.serial;
  }

  -- The request that a worker holds is its own player's.
  own_request :
      {start : S} (y : System S) (p : String) (r : QueueReq)
      → IsOrdered start y
      → worker_of y p ≡ holding r
      → p ≡ r.player_id
  own_request y p r inv held = (rw held at (inv.own p)).0

  worker_applies-IsOrdered :
      {start : S} (y : System S) (p : String) (r : QueueReq)
      → IsOrdered start y
      → worker_of y p ≡ holding r
      → IsOrdered start (worker_applies repo p r y)
  unfolding worker_applies
  worker_applies-IsOrdered {start} y p r inv held = record {
    own = λ q.
        All_after_head (λ x. q ≡ x.player_id) (q == p) r _
          (rw (pending-worker_applies repo y p r q held) at (inv.own q));
    bounded = inv.bounded;
    fifo = λ q. ground (
      arith,
      inv.fifo q,
      own_request y p r inv held,
      pending-worker_applies repo y p r q held,
      aimed_at-snoc q y.applied r,
      append_assoc (aimed_at q y.applied) (r ∷ []) (pending (worker_applies repo p r y) q),
    );
    serial = rw (replay-append y.applied (r ∷ []) start, ← inv.serial);
  }

  worker_replies-IsOrdered :
      {start : S} (y : System S) (p : String) (r : QueueReq) (reply : Result ℤ)
      → IsOrdered start y
      → worker_of y p ≡ answering r reply
      → IsOrdered start (worker_replies p r reply y)
  unfolding worker_replies
  worker_replies-IsOrdered y p r reply inv answered = record {
    own = λ q. rw (pending-worker_replies y p r reply q answered) (inv.own q);
    bounded = inv.bounded;
    fifo = λ q. rw (pending-worker_replies y p r reply q answered) (inv.fifo q);
    serial = inv.serial;
  }

  pub Step-IsOrdered :
      {start : S} {y z : System S} → Step repo y z → IsOrdered start y → IsOrdered start z
  unfolding set_call
  Step-IsOrdered (refuse y r fresh bad) inv = with_calls _ inv
  Step-IsOrdered (enqueue y r fresh good room) inv = with_calls _ (
      send-IsOrdered (get_or_create r.player_id y) r (get_or_create-IsOrdered y r.player_id inv)
        (rw (queue_of-get_or_create y r.player_id r.player_id) room))
  Step-IsOrdered (cancel_enqueue y r e fresh good) inv =
      with_calls _ (get_or_create-IsOrdered y r.player_id inv)
  Step-IsOrdered (takes y p r rest free head) inv = worker_takes-IsOrdered y p r rest inv free head
  Step-IsOrdered (applies y p r held) inv = worker_applies-IsOrdered y p r inv held
  Step-IsOrdered (answers y p r reply answered) inv =
      worker_replies-IsOrdered y p r reply inv answered
  Step-IsOrdered (receive y id reply w rep) inv = with_calls _ inv
  Step-IsOrdered (cancel_await y id e w) inv = with_calls _ inv

  -- From any point on, whatever the interleaving.
  pub Reach-IsOrdered :
      {start : S} {y z : System S} → Reach repo y z → IsOrdered start y → IsOrdered start z
  Reach-IsOrdered here inv = inv
  Reach-IsOrdered (next r st) inv = Step-IsOrdered st (Reach-IsOrdered r inv)

  -- At the start no worker runs and no channel is made.
  pending-new_queue : (db : S) (p : String) → pending (new_queue db) p ≡ []
  pending-new_queue db p = rw (lookup-nil {V = Worker} p, lookup-nil {V = List QueueReq} p)

  pub new_queue-IsOrdered : (db : S) → IsOrdered db (new_queue db)
  new_queue-IsOrdered db = record {
    own = λ p. rw (pending-new_queue db p) tt;
    bounded = λ p. rw (lookup-nil p) (omega arith);
    fifo = λ p. rw (pending-new_queue db p);
    serial = refl;
  }
