-- ===== src/Client/World/Room.antt =====
-- The calls of `sendRequest` as a waiting room, without channels, counters and a pending table: what
-- a client promises to the calls that wait.
pub mod Entries
pub mod Views
pub mod Moves
pub mod Refines
pub mod Matches
use bacnet_go.Base.{ℕ, ◌≡◌, List, [], ◌∷◌, ◌++◌, map, Option, none, some, ◌==◌, if◌then◌else◌}
use bacnet_go.Base.Map.{lookup}
use bacnet_go.Client.Request.{Wait, context_done, answer, channel_closed, outcome}
use bacnet_go.Errors.{Error, sentinel, wrapped, timeout, connection_closed, send_request}
use bacnet_go.Go.{Result, err, fail}
use bacnet_go.Wire.Apdu.{Apdu}

-- The invoke id of each call that waits, and what has ended its wait.
abbrev pub Room : Type 0
Room = List (ℕ × Option Wait)

-- The calls that have returned, the last one first.
abbrev pub Returned : Type 0
Returned = List (ℕ × Result Apdu)

-- What a call returns at the end of its wait.
abbrev pub end_of : Wait → Result Apdu
end_of context_done = fail timeout
end_of channel_closed = fail connection_closed
end_of (answer apdu) = outcome apdu

-- A response ends the wait of the call with its invoke id, and the end of the connection each wait.
abbrev answered : Apdu → ℕ → Option Wait → Option Wait
answered apdu id none = if id == apdu.invoke_id then some (answer apdu) else none
answered apdu id (some wait) = some wait

abbrev pub answer_entry : Apdu → ℕ × Option Wait → ℕ × Option Wait
answer_entry apdu (id, waits) = (id, answered apdu id waits)

abbrev closed_over : Option Wait → Option Wait
closed_over none = some channel_closed
closed_over (some wait) = some wait

abbrev pub close_entry : ℕ × Option Wait → ℕ × Option Wait
close_entry (id, waits) = (id, closed_over waits)

pub data RoomStep : Returned → Room → Room → Type 0 where
  idles : (room : Room) → RoomStep [] room room
  enters : (room : Room) (id : ℕ) → lookup id room ≡ none → RoomStep [] room ((id, none) ∷ room)
  answers : (room : Room) (apdu : Apdu) → RoomStep [] room (map (answer_entry apdu) room)
  shuts : (room : Room) → RoomStep [] room (map close_entry room)
  returns :
      (before after : Room) (id : ℕ) (wait : Wait)
      → RoomStep ((id, end_of wait) ∷ []) (before ++ ((id, some wait) ∷ after)) (before ++ after)
  gives_up :
      (before after : Room) (id : ℕ) (waits : Option Wait)
      → RoomStep ((id, fail timeout) ∷ []) (before ++ ((id, waits) ∷ after)) (before ++ after)
  is_not_sent :
      (before after : Room) (id : ℕ) (waits : Option Wait) (e : Error)
      → RoomStep
          ((id, err (wrapped send_request e)) ∷ [])
          (before ++ ((id, waits) ∷ after))
          (before ++ after)

-- The rooms that the steps reach from the empty one, with the calls that have returned on the way.
pub data RoomReach : Returned → Room → Type 0 where
  nobody : RoomReach [] []
  moves :
      {returned ended : Returned} {room room' : Room}
      → RoomReach returned room
      → RoomStep ended room room'
      → RoomReach (ended ++ returned) room'
