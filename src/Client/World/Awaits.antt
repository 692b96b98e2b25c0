-- ===== src/Client/World/Awaits.antt =====
-- Every waiting call, and the response that is meant for it.
use bacnet_go.Base.{ℕ, ◌≡◌, false, List, none, some, ◌⊎◌}
use bacnet_go.Client.{Client, Channel}
use bacnet_go.Client.Receive.{handle_packet}
use bacnet_go.Client.Request.{Call, Wait, receive, outcome}
use bacnet_go.Client.Request.Awaits.{Response, response_apdu, response_packet}
use bacnet_go.Client.Service.Exchange.{Ends}
use bacnet_go.Client.World.{World}
use bacnet_go.Go.{Succeeds}

-- The wait of the call is over already, or the next response with its invoke id ends it, with the
-- outcome of that response.
abbrev pub IsServed : Client → Call → Type 0
IsServed c call =
    ((wait : Wait) × (receive call c ≡ some wait))
    ⊎ ((r : Response) (sender : List ℕ) (ns : ℕ)
        → Succeeds (handle_packet (response_packet call.invoke_id r) sender c)
            (Ends call ns (outcome (response_apdu call.invoke_id r))))

abbrev empty_channel : Channel
empty_channel = record { buffer = none; closed = false }
