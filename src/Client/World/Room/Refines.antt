-- ===== src/Client/World/Room/Refines.antt =====
-- The steps of a client and its calls, as steps of the waiting room.
use bacnet_go.Base.{refl, [], ◌∷◌, ◌++◌, some}
use bacnet_go.Client.{register_device}
use bacnet_go.Client.Lifecycle.{connect}
use bacnet_go.Client.Request.{context_done, next_invoke_id, sent, finish_request}
use bacnet_go.Client.Request.Reply.{opened}
use bacnet_go.Client.World.{
  World, new_world, Step, connects, begins, draws, sends, fails, receives, finishes, times_out,
  registers, closes, Reach, here, next,
}
use bacnet_go.Client.World.Invariant.{IsOrderly-IsSafe}
use bacnet_go.Client.World.Isolation.Steps.{
  IsIsolated, GivesFreshId, GivesFreshIds, Reach-IsIsolated,
}
use bacnet_go.Client.World.Reachable.{
  IsSound, new_world-IsSound, Reach-IsSound, receive_datagram-After,
}
use bacnet_go.Client.World.Room.{Returned, RoomStep, RoomReach, nobody, moves}
use bacnet_go.Client.World.Room.Views.{view}
use bacnet_go.Client.World.Room.Moves.{
  failure, same-RoomStep, attempt-RoomStep, begins-RoomStep, Delivers-RoomStep, close-RoomStep,
  times_out-RoomStep, fails-RoomStep, finishes-RoomStep,
}

-- What a step returns to a caller: the invoke id of the call, and the result of `sendRequest`.
abbrev returned : {w v : World} → Step w v → Returned
returned (fails c before after call e) = failure call.invoke_id (sent call (some e) c).1
returned (finishes c before after call wait ns e) =
    (call.invoke_id, (finish_request call wait ns c).1) ∷ []
returned (times_out c before after call ns) =
    (call.invoke_id, (finish_request call context_done ns c).1) ∷ []
returned (connects w opened) = []
returned (begins w service payload) = []
returned (draws w) = []
returned (sends c before after call) = []
returned (receives w now bytes sender) = []
returned (registers w d) = []
returned (closes w closed c e eq) = []

abbrev pub all_returned : {w v : World} → Reach w v → Returned
all_returned here = []
all_returned (next r step) = returned step ++ all_returned r

Step-RoomStep :
    {w v : World} (step : Step w v)
    → GivesFreshId step
    → IsSound w
    → IsIsolated w
    → RoomStep (returned step) (view w.client w.calls) (view v.client v.calls)
Step-RoomStep (connects w opened) g sound h =
    unfold connect in attempt-RoomStep w.client.state opened w.client w.calls
Step-RoomStep (begins w service payload) g sound h = begins-RoomStep w service payload h g
Step-RoomStep (draws w) g sound h = unfold next_invoke_id in same-RoomStep w.client _ w.calls refl
Step-RoomStep (sends c before after call) g sound h =
    unfold sent in same-RoomStep c _ (before ++ (call ∷ after)) refl
Step-RoomStep (fails c before after call e) g sound h = fails-RoomStep c before after call e
Step-RoomStep (receives w now bytes sender) g sound h =
    let (_, _, _, _, _, _, _, _, _, delivers) =
      receive_datagram-After now bytes sender w.client (IsOrderly-IsSafe w.client sound.orderly) in
    Delivers-RoomStep w.client _ w.calls sound.orderly h.lives delivers
Step-RoomStep (finishes c before after call wait ns e) g sound h =
    finishes-RoomStep c before after call wait ns e
Step-RoomStep (times_out c before after call ns) g sound h =
    times_out-RoomStep c before after call ns
Step-RoomStep (registers w d) g sound h =
    unfold register_device in same-RoomStep w.client _ w.calls refl
Step-RoomStep (closes w closed c e eq) g sound h = rw eq at (close-RoomStep w closed sound h)

-- A client and its calls are a waiting room: along any run from a new client in which no invoke id
-- is given out while a call waits under it, the invoke ids of the calls and what has ended their
-- waits, with the results that the calls return, are those of a run of the waiting room from the
-- empty one. There a response ends the wait of the call with its invoke id, `Close` ends each wait,
-- and a call returns the outcome of what ended its wait, a timeout, or the failure to send.
pub Reach-RoomReach :
    (w : World) (r : Reach new_world w)
    → GivesFreshIds r
    → RoomReach (all_returned r) (view w.client w.calls)
Reach-RoomReach w here g = nobody
Reach-RoomReach w (next r step) (g, g') =
    moves (Reach-RoomReach _ r g)
      (Step-RoomStep step g' (Reach-IsSound new_world-IsSound r) (Reach-IsIsolated r g))
