-- ===== src/Room.antt =====
-- internal/room/room.go and internal/endpoint/ws.go: the room, and the sessions that move its members.
-- `F` is `float64`, whose values are only stored. The frames of a session come as what the WebSocket
-- and protobuf libraries make of them.
use stage_sync.Base.{
  ℕ, String, Bool, List, [], ◌∷◌, Option, none, some, ◌==◌, string_eq, nat_eq, if◌then◌else◌,
  length,
}
use stage_sync.Base.Dict.{Dict, lookup, insert, erase}
pub mod Sessions
mod Tests

pub record Member (F : Type 0) : Type 0 where
  pub player_id : String
  pub x : F
  pub y : F

-- `Room.members`
abbrev pub Room : Type 0 → Type 0
Room F = Dict String (Member F)

-- `roompb.Move`
pub record Move (F : Type 0) : Type 0 where
  pub player_id : String
  pub x : F
  pub y : F

-- What the loop makes of a frame that it has read.
pub data Frame (F : Type 0) : Type 0 where
  not_binary : Frame F
  undecodable : Frame F
  unknown_payload : Frame F
  move : Move F → Frame F

-- What happens to a connection: it is accepted, a frame arrives, or a read ends with an error.
pub data Event (F : Type 0) : Type 0 where
  accepted : Event F
  received : Frame F → Event F
  ended : Event F

-- The room and, for each open connection, its loop's `playerID`.
pub record Server (F : Type 0) : Type 0 where
  pub room : Room F
  pub sessions : Dict ℕ String

module _ {F : Type 0} where
  abbrev pub new_room : Room F
  new_room = []

  -- A member keeps the ID that it was made with.
  abbrev pub moved : Move F → Option (Member F) → Member F
  moved m none = record { player_id = m.player_id; x = m.x; y = m.y }
  moved m (some member) = record { player_id = member.player_id; x = m.x; y = m.y }

  -- `ApplyMove`
  unfoldable pub apply_move : Move F → Room F → Room F
  apply_move m r = insert m.player_id (moved m (lookup m.player_id r)) r

  -- `Remove`
  abbrev pub remove : String → Room F → Room F
  remove player_id r = erase player_id r

  -- `Size`
  abbrev pub size : Room F → ℕ
  size r = length r

  -- One round of the loop: the `playerID` and the room after a frame.
  unfoldable pub read_frame : Frame F → String × Room F → String × Room F
  unfolding apply_move
  read_frame not_binary s = s
  read_frame undecodable s = s
  read_frame unknown_payload s = s
  read_frame (move m) (player_id, r) = (m.player_id, apply_move m r)

  -- After the loop.
  unfoldable pub leave : String → Room F → Room F
  leave player_id r = if player_id == "" then r else remove player_id r

  -- `ServeHTTP`, cut where another connection may come between: one step of the connection `n`.
  unfoldable pub step : ℕ → Event F → Server F → Server F
  unfolding read_frame leave
  step n accepted s = elim (lookup n s.sessions) [
    | none ↦ record { room = s.room; sessions = insert n "" s.sessions }
    | some player_id ↦ s
  ]
  step n (received f) s = elim (lookup n s.sessions) [
    | none ↦ s
    | some player_id ↦
        let (player_id', r) = read_frame f (player_id, s.room) in
        record { room = r; sessions = insert n player_id' s.sessions }
  ]
  step n ended s = elim (lookup n s.sessions) [
    | none ↦ s
    | some player_id ↦ record { room = leave player_id s.room; sessions = erase n s.sessions }
  ]

  -- The server after what happened to its connections, in order.
  abbrev pub after : List (ℕ × Event F) → Server F → Server F
  after [] s = s
  after ((n, e) ∷ es) s = after es (step n e s)
