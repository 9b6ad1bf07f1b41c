-- ===== src/Battle/Tests.antt =====
-- Runs of both services over the in-memory repository, and the theorems at concrete data.
use stage_sync.Base.{◌-◌, List, [], ◌∷◌, map, some, ◌≡◌, refl, arith, string_eq, nat_eq}
use stage_sync.Base.Dict.{lookup, insert}
use stage_sync.Base.Int.{pos, negsuc, sub64, ◌-ℤ◌, wrap64}
use stage_sync.Runtime.{ok, err}
use stage_sync.Battle.{HpTable, hit, v1_apply, err_invalid_damage}
use stage_sync.Battle.Inmem.{inmem_repo, apply_damage_naive}
use stage_sync.Battle.Damage.{IsValid, hp_of, Hit, serve, v1_hit, total_damage, serve-v1_hit}
use stage_sync.Battle.Queue.{
  QueueReq, waiting, finished, System, enqueue, takes, applies, answers, receive, Reach, here, next,
  new_queue, get_or_create, send, set_call, worker_takes, worker_applies, worker_replies, worker_of,
  in_hand,
}
use stage_sync.Battle.Queue.Order.{IsOrdered, replay}
use stage_sync.Battle.Queue.Replies.{WasAnswered, queue-IsOrdered, queue_replies}
use stage_sync.Battle.Queue.Served.{served_lem, OwnRun}
use stage_sync.Battle.Queue.Drained.{to_hit, queue-eq-v1, queue_drained}

abbrev table : HpTable
table = ("ann", pos 700) ∷ []

table-IsValid : IsValid table
unfolding lookup
table-IsValid p = ground arith

-- A refused request, a hit on a new player, and two hits that end at 0.
abbrev hits : List Hit
hits = ("ann", negsuc 4) ∷ ("bob", pos 1) ∷ ("ann", pos 600) ∷ ("ann", pos 600) ∷ []

hits_run : serve (v1_hit (inmem_repo 0)) hits table ≡ ("ann", pos 0) ∷ ("bob", pos 9999) ∷ []
unfolding v1_apply apply_damage_naive lookup insert string_eq hit sub64 wrap64 ◌-ℤ◌
hits_run = refl

refused_damage : (v1_apply (inmem_repo 0) "ann" (pos 100_001) table).0 ≡ err err_invalid_damage
unfolding v1_apply
refused_damage = refl

serve-v1_hit_example :
    let m' = serve (v1_hit (inmem_repo 0)) hits table in
    (hp_of m' "ann" ≡ hp_of table "ann" - total_damage "ann" hits) × IsValid m'
serve-v1_hit_example = serve-v1_hit 0 hits table "ann" table-IsValid

-- One call from beginning to end.
abbrev request : QueueReq
request = record { id = 1; player_id = "ann"; damage = pos 600 }

abbrev queued : System HpTable
queued = set_call 1 waiting (send request (get_or_create "ann" (new_queue table)))

abbrev taken : System HpTable
taken = worker_takes "ann" request [] queued

abbrev applied : System HpTable
applied = worker_applies (inmem_repo 0) "ann" request taken

abbrev served : System HpTable
served = worker_replies "ann" request (ok (pos 100)) applied

abbrev told : System HpTable
told = set_call 1 (finished (ok (pos 100))) served

queued-Reach : Reach (inmem_repo 0) (new_queue table) queued
unfolding lookup
queued-Reach = next here (enqueue (new_queue table) request refl refl (omega arith))

taken-Reach : Reach (inmem_repo 0) (new_queue table) taken
unfolding lookup insert string_eq send get_or_create set_call
taken-Reach = next queued-Reach (takes queued "ann" request [] refl refl)

applied-Reach : Reach (inmem_repo 0) (new_queue table) applied
unfolding lookup insert string_eq send get_or_create set_call worker_takes
applied-Reach = next taken-Reach (applies taken "ann" request refl)

served-Reach : Reach (inmem_repo 0) (new_queue table) served
unfolding lookup insert string_eq send get_or_create set_call worker_takes worker_applies
    apply_damage_naive hit sub64 wrap64 ◌-ℤ◌
served-Reach = next applied-Reach (answers applied "ann" request (ok (pos 100)) refl)

told-Reach : Reach (inmem_repo 0) (new_queue table) told
unfolding lookup insert string_eq nat_eq send get_or_create set_call worker_takes worker_applies
    worker_replies
told-Reach = next served-Reach (receive served 1 (ok (pos 100)) refl refl)

-- The worker holds the request: the channel is empty, and the request is not yet applied.
queue-IsOrdered_example : IsOrdered (inmem_repo 0) table taken
queue-IsOrdered_example = queue-IsOrdered (inmem_repo 0) table taken-Reach

queue_replies_example : WasAnswered (inmem_repo 0) table told.applied 1 (ok (pos 100))
unfolding lookup insert nat_eq set_call worker_takes worker_applies worker_replies send
    get_or_create
queue_replies_example = queue_replies (inmem_repo 0) table 1 (pos 100) told-Reach refl

queue-eq-v1_example : served.db ≡ serve (v1_hit (inmem_repo 0)) (map to_hit served.applied) table
queue-eq-v1_example = queue-eq-v1 0 table served served-Reach

queue_drained_example :
    hp_of served.db "ann" ≡ hp_of table "ann" - total_damage "ann" (map to_hit served.accepted)
unfolding lookup insert string_eq send get_or_create set_call worker_takes worker_applies
    worker_replies
queue_drained_example = queue_drained 0 table served "ann" table-IsValid served-Reach refl

abbrev later : QueueReq
later = record { id = 2; player_id = "ann"; damage = pos 5 }

abbrev both_queued : System HpTable
both_queued = set_call 2 waiting (send later (get_or_create "ann" queued))

-- The worker holds a request of 600, and one of 5 is behind it.
served_lem_example :
    let y = worker_takes "ann" request (later ∷ []) both_queued in
    let before = replay (inmem_repo 0) (in_hand (worker_of y "ann")) y.db in
    (z : System HpTable) × OwnRun (inmem_repo 0) "ann" 2 y z
    × (lookup 2 z.calls ≡ some (finished (apply_damage_naive "ann" (pos 5) before).0))
    × (lookup "ann" z.queues ≡ some [])
unfolding lookup insert string_eq nat_eq send get_or_create set_call worker_takes
served_lem_example =
    served_lem (inmem_repo 0) "ann" [] later []
      (worker_takes "ann" request (later ∷ []) both_queued) refl refl
