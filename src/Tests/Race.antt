-- ===== src/Tests/Race.antt =====
-- A response in flight, at a concrete run.
use bacnet_go.Base.{All, ◌≡◌, refl, [], ◌∷◌, Option, none, some, arith}
use bacnet_go.Base.Map.{lookup, delete}
use bacnet_go.Client.{Client, new_client}
use bacnet_go.Client.Lifecycle.{connect, attempt, close, shut}
use bacnet_go.Client.Receive.{deliver}
use bacnet_go.Client.Request.{Call, open_request, next_invoke_id, release}
use bacnet_go.Client.World.Invariant.{IsOrderly}
use bacnet_go.Client.World.Race.{idle, connects, begins, ends, finds, RaceReach, here, next}
use bacnet_go.Client.World.Race.Needed.{deliver-shut}
use bacnet_go.Client.World.Race.Safe.{SendsSafely, RaceReach-deliver}
use bacnet_go.Errors.{Error}
use bacnet_go.Go.{Succeeds, panic, Any}
use bacnet_go.Wire.Apdu.{Apdu, new_apdu, complex_ack}

abbrev response : Apdu
response = new_apdu complex_ack 1 12 []

-- The client connects and sends a request.
abbrev asking : Client
asking = (open_request 12 [] (connect none new_client).0).0

asking-found : lookup response.invoke_id asking.pending ≡ some 0
unfolding connect attempt open_request next_invoke_id lookup
asking-found = refl

-- Its call has a response in flight, and ends before that is sent.
abbrev ended_call : Call
ended_call = (open_request 12 [] (connect none new_client).0).1

abbrev ended : Client
ended = release ended_call asking

abbrev ended_reach : RaceReach idle (record { client = ended; in_flight = (response, 0) ∷ [] })
ended_reach =
    next
      (next
        (next (next here (connects idle none))
          (begins (record { client = (connect none new_client).0; in_flight = [] }) 12 []))
        (finds (record { client = asking; in_flight = [] }) response 0 asking-found))
      (ends (record { client = asking; in_flight = (response, 0) ∷ [] }) ended_call)

RaceReach-deliver_example :
    All (SendsSafely ended) ((response, 0) ∷ [])
    × ((closed : Option Error) → Succeeds (close closed ended) Any)
RaceReach-deliver_example =
    RaceReach-deliver (record { client = ended; in_flight = (response, 0) ∷ [] }) ended_reach

asking-IsOrderly : IsOrderly asking
unfolding connect attempt open_request next_invoke_id lookup delete
asking-IsOrderly = record { waits = (refl, tt, tt); below = (omega arith, tt) }

deliver-shut_example :
    Succeeds (shut none asking) (λ r. deliver 0 response (lookup 0 r.0.channels) r.0 ≡ panic)
deliver-shut_example = deliver-shut asking none response 0 asking-IsOrderly asking-found
