-- ===== src/Battle/Queue/Drained.antt =====
-- The queue over the in-memory repository: once a player's requests are all applied, the order in which
-- the workers ran has left no trace in that player's HP.
use stage_sync.Base.{
  ◌-◌, String, Bool, false, List, [], ◌∷◌, ◌++◌, map, All, All-append, ◌≡◌, refl, arith, ap, ◌==◌,
  string_eq, if◌then◌else◌, if_intro, true, ==_refl, ◌∙◌, All-append_left, sym,
}
use mathlib.Core.List.{append-nil}
use stage_sync.Runtime.{Time}
use stage_sync.Battle.{HpTable, is_invalid_damage, v1_apply}
use stage_sync.Battle.Inmem.{inmem_repo}
use stage_sync.Battle.Damage.{IsValid, hp_of, total_damage, Hit, serve, v1_hit, serve-v1_hit}
use stage_sync.Battle.Queue.{
  QueueReq, System, refuse, enqueue, cancel_enqueue, takes, applies, answers, receive, cancel_await,
  Reach, here, next, new_queue, get_or_create, send, set_call, worker_takes, worker_applies,
  worker_replies,
}
use stage_sync.Battle.Queue.Order.{replay, aimed_at}
use stage_sync.Battle.Queue.Pending.{pending}
use stage_sync.Battle.Queue.Replies.{queue-IsOrdered}

abbrev pub to_hit : QueueReq → Hit
to_hit r = (r.player_id, r.damage)

abbrev IsGood : QueueReq → Type 0
IsGood r = is_invalid_damage r.damage ≡ false

All-keep : (p : String) (rs : List QueueReq) → All IsGood rs → All IsGood (aimed_at p rs)
All-keep p [] h = tt
All-keep p (r ∷ rs) h =
    if_intro (All IsGood) (p == r.player_id) (λ _. (h.0, All-keep p rs h.1))
      (λ _. All-keep p rs h.1)

-- Requests that are good player by player are good.
All-of_aimed_at : (rs : List QueueReq) → ((p : String) → All IsGood (aimed_at p rs)) → All IsGood rs
All-of_aimed_at [] h = tt
All-of_aimed_at (r ∷ rs) h =
    let own : All IsGood (r ∷ aimed_at r.player_id rs) =
      rw (==_refl r.player_id) at (h r.player_id) in
    (own.0, All-of_aimed_at rs λ p. tail_of (p == r.player_id) (aimed_at p rs) (h p))
  where
    tail_of : (b : Bool) (l : List QueueReq) → All IsGood (if b then r ∷ l else l) → All IsGood l
    tail_of true l k = k.1
    tail_of false l k = k

total_damage-aimed_at :
    (p : String) (rs : List QueueReq)
    → total_damage p (map to_hit (aimed_at p rs)) ≡ total_damage p (map to_hit rs)
total_damage-aimed_at p [] = refl
total_damage-aimed_at p (r ∷ rs) = ground (arith, total_damage-aimed_at p rs)

module _ (now : Time) where
  accepted-IsGood :
      {start : HpTable} {y : System HpTable}
      → Reach (inmem_repo now) (new_queue start) y
      → All IsGood y.accepted
  unfolding set_call get_or_create send worker_takes worker_applies worker_replies
  accepted-IsGood here = tt
  accepted-IsGood (next r (refuse y q fresh bad)) = accepted-IsGood r
  accepted-IsGood (next r (enqueue y q fresh good room)) =
      All-append IsGood y.accepted (q ∷ []) (accepted-IsGood r) (good, tt)
  accepted-IsGood (next r (cancel_enqueue y q e fresh good)) = accepted-IsGood r
  accepted-IsGood (next r (takes y p q rest free head)) = accepted-IsGood r
  accepted-IsGood (next r (applies y p q held)) = accepted-IsGood r
  accepted-IsGood (next r (answers y p q reply answered)) = accepted-IsGood r
  accepted-IsGood (next r (receive y id reply w rep)) = accepted-IsGood r
  accepted-IsGood (next r (cancel_await y id e w)) = accepted-IsGood r

  applied-IsGood :
      {start : HpTable} {y : System HpTable}
      → Reach (inmem_repo now) (new_queue start) y
      → All IsGood y.applied
  applied-IsGood {start} {y} r = All-of_aimed_at y.applied λ p.
      All-append_left IsGood (aimed_at p y.applied) (pending y p) (
        rw ((queue-IsOrdered (inmem_repo now) start r).fifo p)
          (All-keep p y.accepted (accepted-IsGood r)))

  v1_hit-eq :
      (r : QueueReq) (m : HpTable)
      → IsGood r
      → (v1_hit (inmem_repo now) (to_hit r) m).1
        ≡ ((inmem_repo now).apply_damage_naive r.player_id r.damage m).1
  unfolding v1_apply
  v1_hit-eq r m good = rw good

  replay-serve :
      (rs : List QueueReq) (m : HpTable)
      → All IsGood rs
      → replay (inmem_repo now) rs m ≡ serve (v1_hit (inmem_repo now)) (map to_hit rs) m
  replay-serve [] m h = refl
  replay-serve (r ∷ rs) m h =
      replay-serve rs _ h.1
      ∙ ap (serve (v1_hit (inmem_repo now)) (map to_hit rs)) (sym (v1_hit-eq r m h.0))

  -- The queued service leaves the table that the direct service leaves when it is given the served
  -- requests one after the other.
  pub queue-eq-v1 :
      (start : HpTable) (y : System HpTable)
      → Reach (inmem_repo now) (new_queue start) y
      → y.db ≡ serve (v1_hit (inmem_repo now)) (map to_hit y.applied) start
  queue-eq-v1 start y r =
      (queue-IsOrdered (inmem_repo now) start r).serial
      ∙ replay-serve y.applied start (applied-IsGood r)

  -- Once a player's channel is empty and the player's worker holds no request that it has not yet
  -- applied, the player has lost the damage of every accepted request that aimed at them, down to 0 at
  -- the lowest, in whatever order the goroutines ran.
  pub queue_drained :
      (start : HpTable) (y : System HpTable) (player : String)
      → IsValid start
      → Reach (inmem_repo now) (new_queue start) y
      → pending y player ≡ []
      → hp_of y.db player ≡ hp_of start player - total_damage player (map to_hit y.accepted)
  queue_drained start y player v r empty =
      let all_served : aimed_at player y.applied ≡ aimed_at player y.accepted =
        sym (append-nil (aimed_at player y.applied))
        ∙ ap (◌++◌ (aimed_at player y.applied)) (sym empty)
        ∙ (queue-IsOrdered (inmem_repo now) start r).fifo player in
      let damage : total_damage player (map to_hit y.applied)
          ≡ total_damage player (map to_hit y.accepted) =
        sym (total_damage-aimed_at player y.applied)
        ∙ ap (λ l. total_damage player (map to_hit l)) all_served
        ∙ total_damage-aimed_at player y.accepted in
      rw (queue-eq-v1 start y r, ← damage)
        (serve-v1_hit now (map to_hit y.applied) start player v).0
