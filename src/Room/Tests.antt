-- ===== src/Room/Tests.antt =====
-- Connections that move, change their player and end.
use stage_sync.Base.{ℕ, String, false, List, [], ◌∷◌, some, ◌≡◌, refl, ◌==◌, string_eq, nat_eq}
use stage_sync.Base.Dict.{lookup, insert, erase}
use stage_sync.Room.{not_binary, move, Event, accepted, received, ended, Server, step, after, leave}
use stage_sync.Room.Sessions.{members_are_connected_lem}

abbrev ann_at : ℕ → Event ℕ
ann_at x = received (move (record { player_id = "ann"; x = x; y = 0 }))

abbrev bob_at : ℕ → Event ℕ
bob_at x = received (move (record { player_id = "bob"; x = x; y = 0 }))

abbrev empty : Server ℕ
empty = record { room = []; sessions = [] }

-- A connection that moves as two players leaves the first of them behind when it ends.
stale_member :
    (after ((1, accepted) ∷ (1, ann_at 3) ∷ (1, bob_at 4) ∷ (1, ended) ∷ []) empty).room
    ≡ ("ann", record { player_id = "ann"; x = 3; y = 0 }) ∷ []
unfolding step leave lookup insert erase string_eq nat_eq
stale_member = refl

abbrev own : ℕ → String
own n = "ann"

named : (n : ℕ) → (own n == "") ≡ false
unfolding string_eq
named n = refl

abbrev events : List (ℕ × Event ℕ)
events = (1, accepted) ∷ (2, accepted) ∷ (2, received not_binary) ∷ (1, ann_at 3) ∷ []

members_are_connected_lem_example :
    (n : ℕ) × (lookup n (after events empty).sessions ≡ some "ann") × ("ann" ≡ own n)
unfolding lookup string_eq step insert nat_eq
members_are_connected_lem_example =
    members_are_connected_lem own named events "ann" (record { player_id = "ann"; x = 3; y = 0 })
      (tt, (tt, (tt, (refl, tt)))) refl
