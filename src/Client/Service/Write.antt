-- ===== src/Client/Service/Write.antt =====
-- `WriteProperty` with a server that does what it is asked for.
use bacnet_go.Base.{ℕ, ◌^◌, ◌<◌, ◌≡◌, refl, true, List}
use bacnet_go.Client.{Client}
use bacnet_go.Client.Receive.{handle_packet}
use bacnet_go.Client.Request.{
  Call, is_connected, begin_request, open_request, request_packet, outcome,
}
use bacnet_go.Client.Request.Awaits.{done, response_packet, response_apdu, open_request-Awaits}
use bacnet_go.Client.Service.{begin_write_property}
use bacnet_go.Client.Service.Exchange.{Ends, response-Ends}
use bacnet_go.Go.{ok, Succeeds}
use bacnet_go.Options.{WriteOptions}
use bacnet_go.Response.Acknowledgement.{IsIndex}
use bacnet_go.Response.ReadProperty.{decode_read_property_response}
use bacnet_go.Service.Write.{decode_read_property_response-write_property_parameters}
use bacnet_go.Types.ConfirmedServiceChoice
use bacnet_go.Types.ObjectId.{ObjectIdentifier}
use bacnet_go.Value.{Value}
use bacnet_go.Value.RoundTrip.{IsWritable, read_back}

-- `WriteProperty` of a writable value succeeds, if the property and the array index fit 32 bits: in a
-- connected client the request is opened, its datagram carries parameters from which a reader gets
-- the value as the decoder types it, and the server's SimpleACK ends the call without an error.
pub write_property_exchange :
    (oid : ObjectIdentifier) (property_id : ℕ) (options : WriteOptions) (v : Value) (c : Client)
    (sender : List ℕ) (ns : ℕ)
    → is_connected c.state ≡ true
    → property_id < 2 ^ 32
    → IsIndex options.array_index
    → IsWritable v
    → let write = ConfirmedServiceChoice.write_property in
      (c' : Client) × (call : Call) × (bytes : List ℕ) × (begin_write_property oid property_id
          options v c
        ≡ ok (c', call))
      × (call.packet ≡ request_packet call.invoke_id write bytes)
      × (decode_read_property_response bytes ≡ ok (read_back v))
      × Succeeds
          (handle_packet (response_packet call.invoke_id (done write)) sender c')
          (Ends call ns (ok (response_apdu call.invoke_id (done write))))
unfolding begin_write_property begin_request open_request outcome
write_property_exchange oid property_id options v c sender ns hc hp hi hv =
    let write = ConfirmedServiceChoice.write_property in
    let (bytes, e, back) =
      decode_read_property_response-write_property_parameters oid property_id options v hp hi hv in
    let (c', call) = open_request write bytes c in
    (
      c',
      call,
      bytes,
      rw e (rw hc refl),
      refl,
      back,
      response-Ends call c' (done write) sender ns (open_request-Awaits write bytes c),
    )
