-- ===== src/Client/Request/First.antt =====
-- A response that a call has received, and the datagrams after it.
use bacnet_go.Base.{ℕ, ◌≡◌, inl, inr, List, Option, none, some, arith}
use bacnet_go.Client.{Client, Channel}
use bacnet_go.Client.Invariant.{IsSafe, Grows}
use bacnet_go.Client.Lifecycle.{receive_datagram}
use bacnet_go.Client.Request.{Call, answer, ready, receive}
use bacnet_go.Client.World.Reachable.{receive_datagram-After}
use bacnet_go.Wire.Apdu.{Apdu}

ready-Grows :
    (found found' : Option Channel) (apdu : Apdu)
    → Grows found found'
    → ready found ≡ some (answer apdu)
    → ready found' ≡ some (answer apdu)
unfolding ready
ready-Grows none found' apdu g e = ground arith
ready-Grows (some ch) none apdu g e = absurd g
ready-Grows (some ch) (some ch') apdu (k, inl empty) e = ground arith
ready-Grows (some ch) (some ch') apdu (k, inr same) e = ground arith

-- The first response stays: once a response waits in the channel of a call, no datagram takes it
-- away or replaces it, if each pending request waits on an open channel.
receive-receive_datagram :
    (now : ℕ) (bytes sender : List ℕ) (c : Client) (call : Call) (apdu : Apdu)
    → IsSafe c
    → receive call c ≡ some (answer apdu)
    → receive call (receive_datagram now bytes sender c) ≡ some (answer apdu)
unfolding receive
receive-receive_datagram now bytes sender c call apdu h e =
    let (_, _, _, _, _, _, _, _, grows, _) = receive_datagram-After now bytes sender c h in
    ready-Grows _ _ apdu (grows call.channel) e
