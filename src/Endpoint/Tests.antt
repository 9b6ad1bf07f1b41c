-- ===== src/Endpoint/Tests.antt =====
-- Requests to the handlers over small stores.
use stage_sync.Base.{
  ◌-◌, [], ◌∷◌, none, some, true, false, ◌≡◌, ◌⊎◌, ◌==◌, string_eq, if◌then◌else◌, arith,
}
use stage_sync.Base.Dict.{lookup}
use stage_sync.Base.Int.{pos, pos_part}
use stage_sync.Runtime.{Time}
use stage_sync.Battle.Damage.{IsValid, hp_of}
use stage_sync.Event.{Event}
use stage_sync.Event.Repo.{EventRepo}
use stage_sync.Endpoint.{replied, decoded, reply_status}
use stage_sync.Endpoint.Battle.{DamageReq}
use stage_sync.Endpoint.Event.{CreateEventReq}
use stage_sync.Endpoint.Replies.{post_damage, is_fit, post_damage_lem}

abbrev request : DamageReq
request = record { target_player = "ann"; damage = pos 30 }

empty-IsValid : IsValid []
unfolding lookup
empty-IsValid p = ground arith

post_damage_lem_example :
    ((is_fit (decoded request) ≡ false)
      × (reply_status (post_damage 0 (decoded request) []).0 ≡ 400)
      × ((post_damage 0 (decoded request) []).1 ≡ []))
    ⊎ ((req : DamageReq) × (decoded request ≡ decoded req)
        × (is_fit (decoded request) ≡ true)
        × ((post_damage 0 (decoded request) []).0
            ≡ replied 200 (record {
              player_id = req.target_player;
              hp = pos (hp_of [] req.target_player - pos_part req.damage);
              impl = "v1-naive";
            }))
        × (lookup "ann" (post_damage 0 (decoded request) []).1 ≡ (
            if "ann" == req.target_player
            then some (pos (hp_of [] req.target_player - pos_part req.damage))
            else none))
        × IsValid (post_damage 0 (decoded request) []).1)
unfolding lookup
post_damage_lem_example = post_damage_lem 0 (decoded request) [] "ann" empty-IsValid

abbrev clock : Time → Time × Time
clock w = (w, w)

abbrev spring : Event
spring = record { id = "spring"; name = "Spring"; start_at = 10; end_at = 20; created_at = 1 }

abbrev repo : EventRepo
repo = record { events = ("spring", spring) ∷ []; scores = []; rewards = [] }

abbrev again : CreateEventReq
again = record { id = "spring"; name = "Again"; start_at = 30; end_at = 40; rewards = [] }
