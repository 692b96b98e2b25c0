-- ===== src/Client/Service/Exchange.antt =====
-- A request, the response of a server, and what the caller gets.
use bacnet_go.Base.{ℕ, ◌^◌, ◌<◌, ◌≡◌, refl, true, List, Option, some, All}
use bacnet_go.Client.{Client}
use bacnet_go.Client.Receive.{handle_packet}
use bacnet_go.Client.Request.{
  Call, Wait, answer, is_connected, begin_request, open_request, receive, finish_request, outcome,
}
use bacnet_go.Client.Request.Awaits.{
  Awaits, Response, ack, response_packet, response_apdu, receive-response_packet,
  open_request-Awaits,
}
use bacnet_go.Client.Service.{
  begin_read_property, end_read_property, begin_read_property_multiple, end_read_property_multiple,
}
use bacnet_go.Go.{Result, ok, err, panic, Succeeds, Succeeds-weaken}
use bacnet_go.Response.Acknowledgement.{
  IsIndex, ObjectResult, read_property_ack, multiple_ack, expected,
}
use bacnet_go.Response.Multiple.RoundTrip.{
  IsObjectResult, decode_read_property_multiple_response-ack,
}
use bacnet_go.Response.ReadProperty.RoundTrip.{decode_read_property_response-ack}
use bacnet_go.Types.ConfirmedServiceChoice
use bacnet_go.Service.{Groups, read_property_parameters, read_property_multiple_parameters}
use bacnet_go.Types.ObjectId.{ObjectIdentifier}
use bacnet_go.Value.{Value, encode_property_value}
use bacnet_go.Value.RoundTrip.{IsWritable, read_back}
use bacnet_go.Wire.Apdu.{Apdu}

-- The call gets something to receive, and then it ends with this result.
abbrev pub Ends : Call → ℕ → Result Apdu → Client → Type 0
Ends call ns result c =
    (wait : Wait) × (receive call c ≡ some wait) × ((finish_request call wait ns c).1 ≡ result)

finish_answer :
    (call : Call) (c : Client) (r : Response) (ns : ℕ)
    → receive call c ≡ some (answer (response_apdu call.invoke_id r))
    → Ends call ns (outcome (response_apdu call.invoke_id r)) c
unfolding finish_request
finish_answer call c r ns e = (answer (response_apdu call.invoke_id r), e, refl)

-- A response ends the call that waits for it with the outcome of that response.
pub response-Ends :
    (call : Call) (c : Client) (r : Response) (sender : List ℕ) (ns : ℕ)
    → Awaits call c
    → Succeeds
        (handle_packet (response_packet call.invoke_id r) sender c)
        (Ends call ns (outcome (response_apdu call.invoke_id r)))
response-Ends call c r sender ns a =
    Succeeds-weaken _ _ _ (receive-response_packet call c r sender a)
      (λ c' e. finish_answer call c' r ns e)

-- What an operation of the client gets, when `end` reads the response.
abbrev pub Gets : {A : Type 0} → Call → ℕ → (Result Apdu → Result A) → A → Client → Type 0
Gets call ns end a c =
    (wait : Wait) × (receive call c ≡ some wait) × (end (finish_request call wait ns c).1 ≡ ok a)

Ends-Gets :
    {A : Type 0} (m : Result Client) (call : Call) (ns : ℕ) (end : Result Apdu → Result A)
    (result : Result Apdu) (a : A)
    → Succeeds m (Ends call ns result)
    → end result ≡ ok a
    → Succeeds m (Gets call ns end a)
Ends-Gets (ok c) call ns end result a (wait, ready, finished) e = (wait, ready, rw finished e)
Ends-Gets (err e') call ns end result a h e = h
Ends-Gets panic call ns end result a h e = h

-- `ReadProperty` returns the value that the server sends, if the property and the array index fit 32
-- bits: in a connected client the request is opened, and once the datagram of the server's
-- ReadProperty-ACK with a writable value has come in, the call has its response, and what it returns
-- is that value as the decoder types it.
pub read_property_exchange :
    (oid : ObjectIdentifier) (property_id : ℕ) (array_index : Option ℕ) (v : Value) (c : Client)
    (sender : List ℕ) (ns : ℕ)
    → is_connected c.state ≡ true
    → property_id < 2 ^ 32
    → IsIndex array_index
    → IsWritable v
    → (c' : Client) × (call : Call) × (value : List ℕ) × (begin_read_property oid property_id
          array_index c
        ≡ ok (c', call))
      × (encode_property_value v ≡ ok value)
      × Succeeds
          (handle_packet
            (response_packet call.invoke_id (
              ack ConfirmedServiceChoice.read_property
                (read_property_ack oid property_id array_index value)))
            sender
            c')
          (Gets call ns end_read_property (read_back v))
unfolding begin_read_property begin_request end_read_property outcome
read_property_exchange oid property_id array_index v c sender ns hc hp hi hv =
    let parameters = read_property_parameters oid property_id array_index in
    let (c', call) = open_request ConfirmedServiceChoice.read_property parameters c in
    let (value, e, back) =
      decode_read_property_response-ack oid property_id array_index v hp hi hv in
    let answered =
      ack ConfirmedServiceChoice.read_property
        (read_property_ack oid property_id array_index value) in
    (
      c',
      call,
      value,
      rw hc refl,
      e,
      Ends-Gets _ call ns end_read_property (outcome (response_apdu call.invoke_id answered)) _
          (response-Ends call c' answered sender ns
            (open_request-Awaits ConfirmedServiceChoice.read_property parameters c))
          back,
    )

-- `ReadPropertyMultiple` returns the values that the server sends, in order: in a connected client
-- the request is opened, whatever is asked for, and once the datagram of a ReadPropertyMultiple-ACK
-- has come in, the call has its response, and what it returns are the values of that. The objects of
-- the ACK fit their fields, its numbers have 32 bits, and its values are of types that the client's
-- own encoder writes, but none is the boolean true.
pub read_property_multiple_exchange :
    (groups : Groups) (os : List ObjectResult) (c : Client) (sender : List ℕ) (ns : ℕ)
    → is_connected c.state ≡ true
    → All IsObjectResult os
    → (c' : Client) × (call : Call) × (begin_read_property_multiple groups c ≡ ok (c', call))
      × Succeeds
          (handle_packet
            (response_packet call.invoke_id
              (ack ConfirmedServiceChoice.read_property_multiple (multiple_ack os)))
            sender
            c')
          (Gets call ns end_read_property_multiple (expected os))
unfolding begin_read_property_multiple begin_request end_read_property_multiple outcome
read_property_multiple_exchange groups os c sender ns hc ho =
    let parameters = read_property_multiple_parameters groups in
    let (c', call) = open_request ConfirmedServiceChoice.read_property_multiple parameters c in
    let answered = ack ConfirmedServiceChoice.read_property_multiple (multiple_ack os) in
    (
      c',
      call,
      rw hc refl,
      Ends-Gets _ call ns end_read_property_multiple
          (outcome (response_apdu call.invoke_id answered)) _
          (response-Ends call c' answered sender ns
            (open_request-Awaits ConfirmedServiceChoice.read_property_multiple parameters c))
          (decode_read_property_multiple_response-ack os ho),
    )
