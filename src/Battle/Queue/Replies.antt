-- ===== src/Battle/Queue/Replies.antt =====
-- What a caller of the queue is told.
use stage_sync.Base.{
  ℕ, String, List, [], ◌∷◌, ◌++◌, some, ◌≡◌, refl, arith, ap, ◌==◌, nat_eq, string_eq, Bool-cases,
  inl, inr, eq_of_==, sym, ◌∙◌,
}
use mathlib.Core.List.{append_assoc}
use stage_sync.Base.Dict.{lookup, lookup-insert, lookup-nil}
use stage_sync.Base.Int.{ℤ}
use stage_sync.Runtime.{Result, ok}
use stage_sync.Battle.{Repo}
use stage_sync.Battle.Queue.{
  QueueReq, Call, waiting, finished, System, Step, refuse, enqueue, cancel_enqueue, takes, applies,
  answers, receive, cancel_await, Reach, here, next, new_queue, get_or_create, send, set_call,
  Worker, idle, holding, answering, worker_of, worker_takes, worker_applies, worker_replies,
}
use stage_sync.Battle.Queue.Order.{replay, IsOrdered, Step-IsOrdered, new_queue-IsOrdered}
use stage_sync.Battle.Queue.Pending.{worker_of-insert}

module _ {S : Type 0} (repo : Repo S) (start : S) where
  -- The repository gave this answer when it was the request's turn.
  abbrev pub WasAnswered : List QueueReq → ℕ → Result ℤ → Type 0
  WasAnswered applied id reply =
      (before : List QueueReq) × (r : QueueReq) × (after : List QueueReq) × (applied
        ≡ before ++ r ∷ after)
      × (r.id ≡ id)
      × (reply ≡ (repo.apply_damage_naive r.player_id r.damage (replay repo before start)).0)

  WasAnswered-later :
      (applied : List QueueReq) (x : QueueReq) (id : ℕ) (reply : Result ℤ)
      → WasAnswered applied id reply
      → WasAnswered (applied ++ x ∷ []) id reply
  WasAnswered-later applied x id reply (before, r, after, e, same, a) = (
    before,
    r,
    after ++ x ∷ [],
    ap (λ l. l ++ x ∷ []) e ∙ append_assoc before (r ∷ after) (x ∷ []),
    same,
    a,
  )

  pub record IsHonest (y : System S) : Type 0 where
    pub stored :
        (id : ℕ) (reply : Result ℤ)
        → lookup id y.replies ≡ some reply
        → WasAnswered y.applied id reply
    pub held :
        (player : String) (r : QueueReq) (reply : Result ℤ)
        → worker_of y player ≡ answering r reply
        → WasAnswered y.applied r.id reply
    pub told :
        (id : ℕ) (hp : ℤ)
        → lookup id y.calls ≡ some (finished (ok hp))
        → WasAnswered y.applied id (ok hp)

  -- A call that ends by a reply tells that reply, and any other end of a call is an error.
  set_call-IsHonest :
      (y : System S) (id : ℕ) (c : Call)
      → IsHonest y
      → ((hp : ℤ) → c ≡ finished (ok hp) → WasAnswered y.applied id (ok hp))
      → IsHonest (set_call id c y)
  unfolding set_call
  set_call-IsHonest y id c h new = record {
    stored = h.stored;
    held = h.held;
    told = λ j hp e. elim (Bool-cases (j == id)) [
      | inl same ↦
          let k = eq_of_== j id same in rw k (new hp (ground (arith, lookup-insert j id c y.calls)))
      | inr other ↦ h.told j hp (ground (arith, lookup-insert j id c y.calls))
    ];
  }

  worker_takes-IsHonest :
      (y : System S) (p : String) (r : QueueReq) (rest : List QueueReq)
      → IsHonest y
      → IsHonest (worker_takes p r rest y)
  unfolding worker_takes
  worker_takes-IsHonest y p r rest h = record {
    stored = h.stored;
    held = λ q x reply e.
        h.held q x reply (ground (arith, e, worker_of-insert y.workers p (holding r) q));
    told = h.told;
  }

  -- The answer that a worker now has is the repository's, after the requests served before.
  worker_applies-IsHonest :
      (y : System S) (p : String) (r : QueueReq)
      → IsOrdered repo start y
      → IsHonest y
      → IsHonest (worker_applies repo p r y)
  unfolding worker_applies
  worker_applies-IsHonest y p r inv h = record {
    stored = λ j reply e. WasAnswered-later y.applied r j reply (h.stored j reply e);
    held = λ q x reply e.
        let answer = (repo.apply_damage_naive r.player_id r.damage y.db).0 in
        let now = sym (worker_of-insert y.workers p (answering r answer) q) ∙ e in
        elim (Bool-cases (q == p)) [
          | inl same ↦
              let own : r ≡ x = ground (arith, now, same) in
              let told : reply ≡ answer = ground (arith, now, same) in
              (y.applied, r, [], refl, ap (λ (k : QueueReq). k.id) own, rw (← inv.serial) told)
          | inr other ↦
              WasAnswered-later y.applied r x.id reply
                (h.held q x reply (ground (arith, now, other)))
        ];
    told = λ j hp e. WasAnswered-later y.applied r j (ok hp) (h.told j hp e);
  }

  worker_replies-IsHonest :
      (y : System S) (p : String) (r : QueueReq) (reply : Result ℤ)
      → IsHonest y
      → worker_of y p ≡ answering r reply
      → IsHonest (worker_replies p r reply y)
  unfolding worker_replies
  worker_replies-IsHonest y p r reply h answered = record {
    stored = λ j x e. elim (Bool-cases (j == r.id)) [
      | inl same ↦
          let k = eq_of_== j r.id same in
          let now : x ≡ reply = ground (arith, lookup-insert j r.id reply y.replies) in
          rw (k, now) (h.held p r reply answered)
      | inr other ↦ h.stored j x (ground (arith, lookup-insert j r.id reply y.replies))
    ];
    held = λ q x a e. h.held q x a (ground (arith, e, worker_of-insert y.workers p idle q));
    told = h.told;
  }

  Step-IsHonest :
      {y z : System S} → Step repo y z → IsOrdered repo start y → IsHonest y → IsHonest z
  unfolding get_or_create send
  Step-IsHonest (refuse y r fresh bad) inv h = set_call-IsHonest y r.id _ h (λ hp e. cc)
  Step-IsHonest (enqueue y r fresh good room) inv h =
      let k : IsHonest (send r (get_or_create r.player_id y)) = record {
        stored = h.stored;
        held = h.held;
        told = h.told;
      } in
      set_call-IsHonest _ r.id waiting k (λ hp e. cc)
  Step-IsHonest (cancel_enqueue y r x fresh good) inv h =
      let k : IsHonest (get_or_create r.player_id y) = record {
        stored = h.stored;
        held = h.held;
        told = h.told;
      } in
      set_call-IsHonest _ r.id _ k (λ hp e. cc)
  Step-IsHonest (takes y p r rest free head) inv h = worker_takes-IsHonest y p r rest h
  Step-IsHonest (applies y p r held) inv h = worker_applies-IsHonest y p r inv h
  Step-IsHonest (answers y p r reply answered) inv h =
      worker_replies-IsHonest y p r reply h answered
  Step-IsHonest (receive y id reply w rep) inv h =
      set_call-IsHonest y id _ h (λ hp e. h.stored id (ok hp) (ground arith))
  Step-IsHonest (cancel_await y id x w) inv h = set_call-IsHonest y id _ h (λ hp e. cc)

  Reach-IsHonest :
      {y : System S} → Reach repo (new_queue start) y → IsOrdered repo start y × IsHonest y
  Reach-IsHonest here = (
    new_queue-IsOrdered repo start,
    record {
      stored = λ id reply e. absurd (ground (arith, e, lookup-nil {V = Result ℤ} id));
      held = λ p r reply e. absurd (ground (arith, e, lookup-nil {V = Worker} p));
      told = λ id hp e. absurd (ground (arith, e, lookup-nil {V = Call} id));
    },
  )
  Reach-IsHonest (next r st) =
      let (inv, h) = Reach-IsHonest r in (Step-IsOrdered repo st inv, Step-IsHonest st inv h)

  -- In every reachable state, whatever the interleaving, no channel holds more than its capacity;
  -- a player's accepted requests, in the order in which they entered the channel, are those that are
  -- applied, then the one that the worker has received and not yet applied, then those in the channel;
  -- and the database is what the applied requests make of it one after the other.
  pub queue-IsOrdered : {y : System S} → Reach repo (new_queue start) y → IsOrdered repo start y
  queue-IsOrdered r = (Reach-IsHonest r).0

  -- A caller that is told an HP is told the repository's answer to a request of its own, made after
  -- the requests served before it and no other.
  pub queue_replies :
      {y : System S} (id : ℕ) (hp : ℤ)
      → Reach repo (new_queue start) y
      → lookup id y.calls ≡ some (finished (ok hp))
      → WasAnswered y.applied id (ok hp)
  queue_replies id hp r e = (Reach-IsHonest r).1.told id hp e
