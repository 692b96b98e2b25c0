-- ===== src/Client/Request/Awaits.antt =====
-- A call that waits, and a response from the local network that is meant for it.
use bacnet_go.Base.{ℕ, ◌+◌, ◌%◌, ◌^◌, ◌≡◌, refl, false, List, [], ◌∷◌, none, some, bit_and, arith}
use bacnet_go.Base.Map.{lookup, lookup-insert}
use bacnet_go.Client.{Client, Channel}
use bacnet_go.Client.Receive.{
  deliver, respond, handle_response, dispatch, handle_apdu, handle_packet,
}
use bacnet_go.Client.Receive.Local.{local_packet, handle_packet-local}
use bacnet_go.Client.Request.{Call, answer, next_invoke_id, open_request, receive}
use bacnet_go.Client.Request.Reply.{opened, call_of}
use bacnet_go.Go.{ok, Succeeds}
use bacnet_go.Metrics.{Metrics}
use bacnet_go.Wire.Apdu.{
  Apdu, new_apdu, simple_ack, complex_ack, error_pdu, reject_pdu, abort_pdu, decode_apdu,
}
use bacnet_go.Wire.Apdu.Laws.{
  decode_apdu-simple_ack, decode_apdu-complex_ack, decode_apdu-error_pdu, decode_apdu-reject_pdu,
  decode_apdu-abort_pdu,
}
use bacnet_go.Wire.Bvlc.{original_unicast_npdu}
use bacnet_go.Wire.Npdu.{Npdu}

abbrev empty_channel : Channel
empty_channel = record { buffer = none; closed = false }

-- The call is pending, and nothing has come for it.
pub record Awaits (call : Call) (c : Client) : Type 0 where
  pub pending : lookup call.invoke_id c.pending ≡ some call.channel
  pub empty : lookup call.channel c.channels ≡ some empty_channel

pub open_request-Awaits :
    (service : ℕ) (payload : List ℕ) (c : Client)
    → Awaits (call_of service payload c) (opened service payload c)
unfolding open_request next_invoke_id
open_request-Awaits service payload c =
    let id = bit_and ((c.invoke_id + 1) % 2 ^ 32) 0xFF in
    record {
      pending = ground (arith, lookup-insert id id c.next_channel c.pending);
      empty = ground (arith, lookup-insert c.next_channel c.next_channel empty_channel c.channels);
    }

handle_response-Awaits :
    (call : Call) (c : Client) (apdu : Apdu) (m : Metrics)
    → Awaits call c
    → apdu.invoke_id ≡ call.invoke_id
    → Succeeds
        (handle_response apdu (record c { metrics = m }))
        (λ c'. receive call c' ≡ some (answer apdu))
unfolding handle_response respond deliver receive
handle_response-Awaits call c apdu m a e =
    let full : Channel = record { buffer = some apdu; closed = false } in
    ground (arith, a.pending, a.empty, lookup-insert call.channel call.channel full c.channels)

-- The responses that end a call, as a server writes them.
pub data Response : Type 0 where
  done : ℕ → Response
  ack : ℕ → List ℕ → Response
  refused : ℕ → List ℕ → Response
  rejected : ℕ → Response
  aborted : ℕ → Response

abbrev response_bytes : ℕ → Response → List ℕ
response_bytes invoke_id (done service) = 0x20 ∷ invoke_id ∷ service ∷ []
response_bytes invoke_id (ack service payload) = 0x30 ∷ invoke_id ∷ service ∷ payload
response_bytes invoke_id (refused service payload) = 0x50 ∷ invoke_id ∷ service ∷ payload
response_bytes invoke_id (rejected reason) = 0x60 ∷ invoke_id ∷ reason ∷ []
response_bytes invoke_id (aborted reason) = 0x70 ∷ invoke_id ∷ reason ∷ []

abbrev pub response_apdu : ℕ → Response → Apdu
response_apdu invoke_id (done service) = new_apdu simple_ack invoke_id service []
response_apdu invoke_id (ack service payload) = new_apdu complex_ack invoke_id service payload
response_apdu invoke_id (refused service payload) = new_apdu error_pdu invoke_id service payload
response_apdu invoke_id (rejected reason) = new_apdu reject_pdu invoke_id reason []
response_apdu invoke_id (aborted reason) = new_apdu abort_pdu invoke_id reason []

decode_apdu-response_bytes :
    (invoke_id : ℕ) (r : Response)
    → decode_apdu (response_bytes invoke_id r) ≡ ok (response_apdu invoke_id r)
decode_apdu-response_bytes invoke_id (done service) = decode_apdu-simple_ack invoke_id service
decode_apdu-response_bytes invoke_id (ack service payload) =
    decode_apdu-complex_ack invoke_id service payload
decode_apdu-response_bytes invoke_id (refused service payload) =
    decode_apdu-error_pdu invoke_id service payload
decode_apdu-response_bytes invoke_id (rejected reason) = decode_apdu-reject_pdu invoke_id reason
decode_apdu-response_bytes invoke_id (aborted reason) = decode_apdu-abort_pdu invoke_id reason

dispatch-Awaits :
    (call : Call) (c : Client) (r : Response) (sender : List ℕ) (npdu : Npdu) (m : Metrics)
    → Awaits call c
    → Succeeds
        (dispatch (response_apdu call.invoke_id r) sender npdu (record c { metrics = m }))
        (λ c'. receive call c' ≡ some (answer (response_apdu call.invoke_id r)))
unfolding dispatch
dispatch-Awaits call c (done service) sender npdu m a = handle_response-Awaits call c _ m a refl
dispatch-Awaits call c (ack service payload) sender npdu m a =
    handle_response-Awaits call c _ m a refl
dispatch-Awaits call c (refused service payload) sender npdu m a =
    handle_response-Awaits call c _ _ a refl
dispatch-Awaits call c (rejected reason) sender npdu m a = handle_response-Awaits call c _ _ a refl
dispatch-Awaits call c (aborted reason) sender npdu m a = handle_response-Awaits call c _ _ a refl

-- The datagram of a response.
abbrev pub response_packet : ℕ → Response → List ℕ
response_packet invoke_id r = local_packet original_unicast_npdu (response_bytes invoke_id r)

-- It ends the wait of its call.
pub receive-response_packet :
    (call : Call) (c : Client) (r : Response) (sender : List ℕ)
    → Awaits call c
    → Succeeds
        (handle_packet (response_packet call.invoke_id r) sender c)
        (λ c'. receive call c' ≡ some (answer (response_apdu call.invoke_id r)))
unfolding handle_apdu
receive-response_packet call c r sender a =
    rw
      (handle_packet-local original_unicast_npdu (response_bytes call.invoke_id r) sender c
        (omega arith))
      (rw (decode_apdu-response_bytes call.invoke_id r) (dispatch-Awaits call c r sender _ _ a))
