-- ===== src/Client/World/Stale.antt =====
-- Two calls under one invoke id: the counter has 256 values, and nothing keeps a value from being
-- given out while an older call still waits under it.
use bacnet_go.Base.{ℕ, ◌+◌, ◌%◌, ◌^◌, ◌≡◌, false, List, none, bit_and, arith}
use bacnet_go.Base.Map
use bacnet_go.Base.Map.{lookup, lookup-insert, lookup-delete}
use bacnet_go.Client.{Client, Channel}
use bacnet_go.Client.Receive.{respond, handle_response}
use bacnet_go.Client.Request.{Call, open_request, next_invoke_id, release, receive}
use bacnet_go.Client.Request.Reply.{opened, call_of}
use bacnet_go.Go.{ok}
use bacnet_go.Wire.Apdu.{Apdu}

-- When an older call ends while a newer one waits under the same invoke id, the newer one is no
-- longer pending: the response to it changes nothing, and the call does not see it.
pub handle_response-release :
    (service : ℕ) (payload : List ℕ) (c : Client) (older : Call) (response : Apdu)
    → older.invoke_id ≡ (call_of service payload c).invoke_id
    → response.invoke_id ≡ (call_of service payload c).invoke_id
    → let waiting = release older (opened service payload c) in
      (handle_response response waiting ≡ ok waiting)
      × (receive (call_of service payload c) waiting ≡ none)
unfolding open_request next_invoke_id release handle_response respond receive
handle_response-release service payload c older response e e' =
    let id = bit_and ((c.invoke_id + 1) % 2 ^ 32) 0xFF in
    let pending = Map.insert id c.next_channel c.pending in
    let empty : Channel = record { buffer = none; closed = false } in
    (
      ground (arith, lookup-delete response.invoke_id older.invoke_id pending),
      ground (arith, lookup-insert c.next_channel c.next_channel empty c.channels),
    )
