-- ===== src/Client/Receive.antt =====
-- client.go: `handlePacket` and the handlers that it calls, on one datagram. `sender` is what
-- `addr.IP.To4()` returns for the address that the datagram came from.
pub mod After
pub mod Safe
pub mod Local
pub mod IAm
pub mod Discovery
use bacnet_go.Base.{
  ℕ, ◌+◌, ◌%◌, ◌^◌, Bool, true, false, not, ◌&&◌, ◌||◌, List, [], Option, none, some, ltb, ◌==◌,
  if◌then◌else◌, length,
}
use bacnet_go.Base.Int.{ℤ, pos, negsuc}
use bacnet_go.Base.Map
use bacnet_go.Base.Map.{lookup}
use bacnet_go.Client.{Client, Channel}
use bacnet_go.Go.{Result, ok, err, panic, ◌>>=◌, slice_from, slice, uint32}
use bacnet_go.Metrics.{Metrics, inc}
use bacnet_go.Response.Fields.{read_unsigned_tag}
use bacnet_go.Types.Device.{Address, DeviceInfo}
use bacnet_go.Types.ObjectId.{ObjectIdentifier, decode_object_identifier, device_type}
use bacnet_go.Wire.Apdu.{
  Apdu, unconfirmed_request, simple_ack, complex_ack, error_pdu, reject_pdu, abort_pdu, decode_apdu,
}
use bacnet_go.Wire.ApplicationTag
use bacnet_go.Wire.Bvlc.{decode_bvlc, forwarded_npdu}
use bacnet_go.Wire.Npdu.{Npdu, has_flag, network_layer_message, source_specifier, decode_npdu}
use bacnet_go.Wire.Tag.{Tag, decode_tag_number}

-- `if err != nil { return }`, with the state that the handler has reached.
abbrev pub or_drop {ℓ} : {A : Type ℓ} → Client → Result A → (A → Result Client) → Result Client
or_drop c (ok a) f = f a
or_drop c (err e) f = ok c
or_drop c panic f = panic

-- `ServiceIAm` and `ServiceUnconfirmedCOVNotification`
abbrev pub i_am : ℕ
i_am = 0

abbrev pub unconfirmed_cov_notification : ℕ
unconfirmed_cov_notification = 2

abbrev is_length : ℕ → ℤ → Bool
is_length n (pos m) = m == n
is_length n (negsuc m) = false

abbrev is_some {ℓ} : {A : Type ℓ} → Option A → Bool
is_some none = false
is_some (some a) = true

-- The router's network and address if the message came through one, or the sender's own.
unfoldable pub device_address : Npdu → List ℕ → Address
device_address n sender =
    if has_flag n.control source_specifier
    then record { net = n.src_net; addr = n.src_addr }
    else record { net = 0; addr = sender }

-- The last part of `handleIAm`: the device replaces what the cache holds under its instance number.
unfoldable pub store_device : DeviceInfo → Client → Client
store_device d c =
    let exists = is_some (lookup d.object_id.instance_number c.devices) in
    record c {
      devices = Map.insert d.object_id.instance_number d c.devices;
      metrics =
          if exists
          then c.metrics
          else record c.metrics { devices_discovered = inc c.metrics.devices_discovered };
    }

-- `handleIAm` behind the object identifier: the three numbers, and the device that they describe.
unfoldable pub read_i_am_fields :
    List ℕ → ObjectIdentifier → ℕ → List ℕ → Npdu → Client → Result Client
read_i_am_fields bytes oid offset sender npdu c =
    or_drop c (read_unsigned_tag bytes offset) λ max_apdu.
      or_drop c (read_unsigned_tag bytes max_apdu.1) λ segmentation.
        or_drop c (read_unsigned_tag bytes segmentation.1) λ vendor. ok (
          store_device
            (record {
              object_id = oid;
              address = device_address npdu sender;
              max_apdu_length = max_apdu.0 % 2 ^ 16;
              segmentation = segmentation.0 % 2 ^ 8;
              vendor_id = vendor.0 % 2 ^ 16;
              vendor_name = [];
              model_name = [];
              firmware_revision = [];
              application_software = [];
              description = [];
              location = [];
              object_list = [];
            })
            c)

-- `handleIAm` behind its counter.
unfoldable pub read_i_am : List ℕ → List ℕ → Npdu → Client → Result Client
read_i_am bytes sender npdu c = or_drop c (decode_tag_number bytes) λ t.
    if not (t.number == ApplicationTag.object_id) || not (is_length 4 t.length)
    then ok c
    else if ltb (length bytes) (t.header_len + 4)
    then ok c
    else (do
      identifier ← slice bytes t.header_len (t.header_len + 4)
      value ← uint32 identifier
      let oid = decode_object_identifier value
      if not (oid.type == device_type)
          then ok c
          else read_i_am_fields bytes oid (t.header_len + 4) sender npdu c)

unfoldable pub handle_i_am : List ℕ → List ℕ → Npdu → Client → Result Client
handle_i_am bytes sender npdu c =
    read_i_am bytes sender npdu
      (record c { metrics = record c.metrics { i_am_received = inc c.metrics.i_am_received } })

-- `handleCOVNotification`: the handlers are not called.
unfoldable pub handle_cov_notification : List ℕ → Client → Client
handle_cov_notification bytes c = record c {
  metrics = record c.metrics { cov_notifications = inc c.metrics.cov_notifications };
}

-- `select { case ch <- apdu: default: }`: a full buffer drops the response, a closed channel panics.
unfoldable pub deliver : ℕ → Apdu → Option Channel → Client → Result Client
deliver ref apdu none c = ok c
deliver ref apdu (some ch) c = if ch.closed then panic else elim ch.buffer [
  | none ↦ ok (record c { channels = Map.insert ref (record ch { buffer = some apdu }) c.channels })
  | some waiting ↦ ok c
]

unfoldable pub respond : Apdu → Client → Option ℕ → Result Client
respond apdu c none = ok c
respond apdu c (some ref) = deliver ref apdu (lookup ref c.channels) c

unfoldable pub handle_response : Apdu → Client → Result Client
handle_response apdu c = respond apdu c (lookup apdu.invoke_id c.pending)

unfoldable pub handle_unconfirmed_request : Apdu → List ℕ → Npdu → Client → Result Client
handle_unconfirmed_request apdu sender npdu c =
    if apdu.service == i_am
    then handle_i_am apdu.payload sender npdu c
    else if apdu.service == unconfirmed_cov_notification
    then ok (handle_cov_notification apdu.payload c)
    else ok c

-- The switch at the end of `handlePacket`, which counts what it dispatches.
unfoldable pub dispatch : Apdu → List ℕ → Npdu → Client → Result Client
dispatch apdu sender npdu c =
    if apdu.type == unconfirmed_request
    then handle_unconfirmed_request apdu sender npdu c
    else if apdu.type == simple_ack || apdu.type == complex_ack
    then handle_response apdu c
    else if apdu.type == error_pdu
    then handle_response apdu (record c {
      metrics = record c.metrics { errors_received = inc c.metrics.errors_received };
    })
    else if apdu.type == reject_pdu
    then handle_response apdu (record c {
      metrics = record c.metrics { rejects_received = inc c.metrics.rejects_received };
    })
    else if apdu.type == abort_pdu
    then handle_response apdu (record c {
      metrics = record c.metrics { aborts_received = inc c.metrics.aborts_received };
    })
    else ok c

-- `handlePacket` from the application layer on, and from the network layer on.
unfoldable pub handle_apdu : List ℕ → List ℕ → Npdu → Client → Result Client
handle_apdu bytes sender npdu c = or_drop c (decode_apdu bytes) λ apdu.
    dispatch apdu sender npdu (record c {
      metrics = record c.metrics { responses_received = inc c.metrics.responses_received };
    })

unfoldable pub handle_npdu : List ℕ → List ℕ → Client → Result Client
handle_npdu bytes sender c = or_drop c (decode_npdu bytes) λ decoded.
    if has_flag decoded.0.control network_layer_message
    then ok c
    else (do apdu_bytes ← slice_from bytes decoded.1; handle_apdu apdu_bytes sender decoded.0 c)

unfoldable pub handle_packet : List ℕ → List ℕ → Client → Result Client
handle_packet bytes sender c = or_drop c (decode_bvlc bytes) λ bvlc. do
  npdu_bytes ← slice_from bytes 4
  if bvlc.function == forwarded_npdu
      then (if ltb (length npdu_bytes) 6
          then ok c
          else do rest ← slice_from npdu_bytes 6; handle_npdu rest sender c)
      else handle_npdu npdu_bytes sender c
