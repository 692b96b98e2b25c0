-- ===== src/Client/Request.antt =====
-- client.go: `sendRequest`, up to the point where it waits and from there on, and the parameters
-- of the services that the client asks for.
pub mod Packet
pub mod Reply
pub mod First
pub mod Awaits
use bacnet_go.Base.{
  ℕ, ◌+◌, ◌%◌, ◌^◌, Bool, true, false, ◌||◌, List, [], ◌∷◌, ◌++◌, Option, none, some, ◌==◌,
  if◌then◌else◌, length, bit_and,
}
use bacnet_go.Base.Map
use bacnet_go.Base.Map.{lookup}
use bacnet_go.Client.{Client, Channel, ConnectionState, disconnected, connecting, connected}
use bacnet_go.Errors.{
  Error, sentinel, wrapped, reject_error, abort_error, not_connected, timeout, connection_closed,
  invalid_response, unexpected_pdu_type, send_request,
}
use bacnet_go.Go.{Result, ok, err, panic, fail, ◌>>=◌}
use bacnet_go.Metrics.{Metrics, inc, dec, add, record_latency}
use bacnet_go.Response.Fields.{decode_error}
use bacnet_go.Wire.Apdu.{
  Apdu, simple_ack, complex_ack, error_pdu, reject_pdu, abort_pdu, encode_confirmed_request,
}
use bacnet_go.Wire.Bvlc.{encode_bvlc, original_unicast_npdu}
use bacnet_go.Wire.Npdu.{encode_npdu, priority_normal}

abbrev pub is_connected : ConnectionState → Bool
is_connected connected = true
is_connected connecting = false
is_connected disconnected = false

-- `nextInvokeID`: the counter has 32 bits, the id is the low 8.
unfoldable pub next_invoke_id : Client → Client × ℕ
next_invoke_id c =
    let n = (c.invoke_id + 1) % 2 ^ 32 in (record c { invoke_id = n }, bit_and n 0xFF)

-- The datagram: BVLC, NPDU and APDU.
unfoldable pub request_packet : ℕ → ℕ → List ℕ → List ℕ
request_packet invoke_id service payload =
    let apdu = encode_confirmed_request invoke_id service payload 0 5 in
    let npdu = encode_npdu true priority_normal in
    encode_bvlc original_unicast_npdu (length npdu + length apdu) ++ (npdu ++ apdu)

-- The local variables of a call that waits.
pub record Call : Type 0 where
  pub invoke_id : ℕ
  pub channel : ℕ
  pub packet : List ℕ

-- `sendRequest` up to the call of the transport: a new channel waits under the next invoke id.
unfoldable pub open_request : ℕ → List ℕ → Client → Client × Call
open_request service payload c =
    let (counted, id) = next_invoke_id c in
    (
      record counted {
        channels = Map.insert c.next_channel (record { buffer = none; closed = false }) c.channels;
        next_channel = c.next_channel + 1;
        pending = Map.insert id c.next_channel c.pending;
        metrics = record c.metrics {
          requests_sent = inc c.metrics.requests_sent;
          active_requests = inc c.metrics.active_requests;
        };
      },
      record {
        invoke_id = id;
        channel = c.next_channel;
        packet = request_packet id service payload;
      },
    )

unfoldable pub begin_request : ℕ → List ℕ → Client → Result (Client × Call)
begin_request service payload c =
    if is_connected c.state then ok (open_request service payload c) else fail not_connected

-- The two deferred calls.
unfoldable pub release : Call → Client → Client
release call c = record c {
  pending = Map.delete call.invoke_id c.pending;
  metrics = record c.metrics { active_requests = dec c.metrics.active_requests };
}

-- What the transport answers: an error ends the call.
unfoldable pub sent : Call → Option Error → Client → Client × Option Error
sent call none c = (
  record c {
    metrics = record c.metrics { bytes_sent = add (length call.packet) c.metrics.bytes_sent };
  },
  none,
)
sent call (some e) c = (
  release call
      (record c { metrics = record c.metrics { requests_failed = inc c.metrics.requests_failed } }),
  some (wrapped send_request e),
)

-- What ends the wait: the context, a response in the channel, or the channel's end.
pub data Wait : Type 0 where
  context_done : Wait
  answer : Apdu → Wait
  channel_closed : Wait

-- A receive from the channel, where it does not block.
unfoldable pub ready : Option Channel → Option Wait
ready none = none
ready (some ch) = elim ch.buffer [
  | some apdu ↦ some (answer apdu)
  | none ↦ if ch.closed then some channel_closed else none
]

unfoldable pub receive : Call → Client → Option Wait
unfolding ready
receive call c = ready (lookup call.channel c.channels)

-- The result of the call for a response, and whether it counts as a success.
unfoldable pub outcome : Apdu → Result Apdu
outcome resp =
    if resp.type == simple_ack || resp.type == complex_ack
    then ok resp
    else if resp.type == error_pdu
    then (do e ← decode_error resp.payload; err e)
    else if resp.type == reject_pdu
    then err (reject_error resp.invoke_id resp.service)
    else if resp.type == abort_pdu
    then err (abort_error resp.invoke_id false resp.service)
    else err (wrapped (unexpected_pdu_type resp.type) (sentinel invalid_response))

counted_outcome : Apdu → Metrics → Metrics
counted_outcome resp m =
    if resp.type == simple_ack || resp.type == complex_ack
    then record m { requests_succeeded = inc m.requests_succeeded }
    else if resp.type == error_pdu || resp.type == reject_pdu || resp.type == abort_pdu
    then record m { requests_failed = inc m.requests_failed }
    else m

-- The rest of `sendRequest`; `ns` is how long the call has waited.
unfoldable pub finish_request : Call → Wait → ℕ → Client → Client × Result Apdu
unfolding counted_outcome
finish_request call context_done ns c = (
  release call (record c {
    metrics = record c.metrics { requests_timed_out = inc c.metrics.requests_timed_out };
  }),
  fail timeout,
)
finish_request call channel_closed ns c = (
  release call (record c {
    metrics = record c.metrics { request_latency = record_latency ns c.metrics.request_latency };
  }),
  fail connection_closed,
)
finish_request call (answer resp) ns c = (
  release call (record c {
    metrics =
        counted_outcome resp
          (record c.metrics { request_latency = record_latency ns c.metrics.request_latency });
  }),
  outcome resp,
)
