-- ===== src/Client/World/Room/Matches.antt =====
-- Responses stay with the calls that they are meant for.
use bacnet_go.Base.{
  ℕ, ◌≡◌, refl, [], ◌∷◌, ◌++◌, map, Option, none, some, All, All-append, inl, inr, arith, eq_or_ne,
  ==_self, ne→==_false,
}
use bacnet_go.Client.Request.{Wait, context_done, answer, channel_closed, outcome}
use bacnet_go.Client.World.{World, new_world, Reach}
use bacnet_go.Client.World.Isolation.Steps.{GivesFreshIds}
use bacnet_go.Client.World.Room.{
  Room, Returned, end_of, answered, answer_entry, closed_over, close_entry, RoomStep, idles, enters,
  answers, shuts, returns, gives_up, is_not_sent, RoomReach, nobody, moves,
}
use bacnet_go.Client.World.Room.Refines.{all_returned, Reach-RoomReach}
use bacnet_go.Go.{Result, Ensures}
use bacnet_go.Response.Fields.Total.{decode_error-Any}
use bacnet_go.Wire.Apdu.{Apdu}

-- The response that a wait has ended with carries the invoke id of the call.
abbrev HasOwn : ℕ × Option Wait → Type 0
HasOwn (id, none) = Unit {0}
HasOwn (id, some context_done) = Unit {0}
HasOwn (id, some channel_closed) = Unit {0}
HasOwn (id, some (answer apdu)) = apdu.invoke_id ≡ id

-- So does the response that a call returns, and the call does not panic.
abbrev pub ReturnsOwn : ℕ × Result Apdu → Type 0
ReturnsOwn (id, result) = Ensures result (λ apdu. apdu.invoke_id ≡ id)

answer-HasOwn :
    (apdu : Apdu) (id : ℕ) (waits : Option Wait)
    → HasOwn (id, waits)
    → HasOwn (id, answered apdu id waits)
answer-HasOwn apdu id (some wait) h = h
answer-HasOwn apdu id none h = elim (eq_or_ne id apdu.invoke_id) [
  | inl e ↦ rw e (rw (==_self apdu.invoke_id) refl)
  | inr differ ↦ rw (ne→==_false id apdu.invoke_id differ) tt
]

closed-HasOwn : (id : ℕ) (waits : Option Wait) → HasOwn (id, waits) → HasOwn (id, closed_over waits)
closed-HasOwn id none h = tt
closed-HasOwn id (some wait) h = h

All-answers :
    (apdu : Apdu) (room : Room) → All HasOwn room → All HasOwn (map (answer_entry apdu) room)
All-answers apdu [] h = tt
All-answers apdu ((id, waits) ∷ room) h =
    (answer-HasOwn apdu id waits h.0, All-answers apdu room h.1)

All-shuts : (room : Room) → All HasOwn room → All HasOwn (map close_entry room)
All-shuts [] h = tt
All-shuts ((id, waits) ∷ room) h = (closed-HasOwn id waits h.0, All-shuts room h.1)

All-leaves :
    (before after : Room) (entry : ℕ × Option Wait)
    → All HasOwn (before ++ (entry ∷ after))
    → HasOwn entry × All HasOwn (before ++ after)
All-leaves [] after entry h = h
All-leaves (b ∷ before) after entry h =
    let (own, rest) = All-leaves before after entry h.1 in (own, (h.0, rest))

outcome-ReturnsOwn : (apdu : Apdu) (id : ℕ) → apdu.invoke_id ≡ id → ReturnsOwn (id, outcome apdu)
unfolding outcome
outcome-ReturnsOwn apdu id h = ground (arith, decode_error-Any apdu.payload)

end_of-ReturnsOwn : (id : ℕ) (wait : Wait) → HasOwn (id, some wait) → ReturnsOwn (id, end_of wait)
end_of-ReturnsOwn id context_done h = tt
end_of-ReturnsOwn id channel_closed h = tt
end_of-ReturnsOwn id (answer apdu) h = outcome-ReturnsOwn apdu id h

-- A step keeps the responses with their calls.
RoomStep-own :
    {ended : Returned} {room room' : Room}
    → RoomStep ended room room'
    → All HasOwn room
    → All HasOwn room' × All ReturnsOwn ended
RoomStep-own (idles room) h = (h, tt)
RoomStep-own (enters room id fresh) h = ((tt, h), tt)
RoomStep-own (answers room apdu) h = (All-answers apdu room h, tt)
RoomStep-own (shuts room) h = (All-shuts room h, tt)
RoomStep-own (returns before after id wait) h =
    let (own, rest) = All-leaves before after (id, some wait) h in
    (rest, (end_of-ReturnsOwn id wait own, tt))
RoomStep-own (gives_up before after id waits) h =
    ((All-leaves before after (id, waits) h).1, (tt, tt))
RoomStep-own (is_not_sent before after id waits e) h =
    ((All-leaves before after (id, waits) h).1, (tt, tt))

RoomReach-own :
    {returned : Returned} {room : Room}
    → RoomReach returned room
    → All HasOwn room × All ReturnsOwn returned
RoomReach-own nobody = (tt, tt)
RoomReach-own (moves {returned} {ended} r step) =
    let (own, returns_own) = RoomReach-own r in
    let (own', ends_own) = RoomStep-own step own in
    (own', All-append ReturnsOwn ended returned ends_own returns_own)

-- In every run from a new client in which no invoke id is given out while a call waits under it, each
-- response that a call returns carries the invoke id of that call, and no call panics.
pub Reach-ReturnsOwn :
    (w : World) (r : Reach new_world w) → GivesFreshIds r → All ReturnsOwn (all_returned r)
Reach-ReturnsOwn w r g = (RoomReach-own (Reach-RoomReach w r g)).1
