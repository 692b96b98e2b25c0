-- ===== src/Client/Receive/IAm.antt =====
-- The I-Am of a device on the local network, as a device broadcasts it.
pub mod Read
use bacnet_go.Base.{
  ℕ, ◌+◌, ◌^◌, ◌<◌, ◌≡◌, refl, sym, ◌∙◌, append-nil, List, [], ◌++◌, some, length, length-append,
  append_assoc, arith,
}
use bacnet_go.Base.Map
use bacnet_go.Base.Map.{lookup-insert}
use bacnet_go.Client.{Client, get_device}
use bacnet_go.Client.Receive.{
  i_am, read_i_am, read_i_am_fields, store_device, device_address, handle_i_am,
  handle_unconfirmed_request, dispatch, handle_apdu, handle_packet,
}
use bacnet_go.Go.{ok, Succeeds, Succeeds-weaken, uint32, put_uint32}
use bacnet_go.Metrics.{inc}
use bacnet_go.Client.Receive.Local.{local_packet, handle_packet-local}
use bacnet_go.Wire.Npdu.{Npdu}
use bacnet_go.Response.Fields.RoundTrip.{read_unsigned_tag-At}
use bacnet_go.Response.Position.{At, At-append, At-length, slice-At}
use bacnet_go.Types.Device.{DeviceInfo}
use bacnet_go.Types.ObjectId
use bacnet_go.Types.ObjectId.{
  ObjectIdentifier, IsIdentifier, new_object_identifier, device_type, decode_object_identifier,
}
use bacnet_go.Wire.Apdu.{new_apdu, unconfirmed_request, encode_unconfirmed_request}
use bacnet_go.Wire.Apdu.Laws.{decode_apdu-encode_unconfirmed_request}
use bacnet_go.Wire.ApplicationTag
use bacnet_go.Wire.Bvlc.{original_broadcast_npdu}
use bacnet_go.Wire.Npdu.{new_npdu}
use bacnet_go.Wire.Number.{
  encode_unsigned_tag, encode_enumerated, encode_enumerated_tag, encode_object_identifier,
  encode_object_identifier_tag,
}
use bacnet_go.Wire.Tag.{application, encode_tag}
use bacnet_go.Wire.Tag.RoundTrip.{decode_tag_number-encode_tag}
use bacnet_go.Client.Receive.IAm.Read.{i_am_bytes, announced, read_i_am-i_am_bytes}

abbrev pub i_am_packet : ℕ → ℕ → ℕ → ℕ → List ℕ
i_am_packet device_id max_apdu segmentation vendor_id =
    local_packet original_broadcast_npdu
      (encode_unconfirmed_request i_am (i_am_bytes device_id max_apdu segmentation vendor_id))

-- The device takes the place of what the cache held under its number.
abbrev pub Stores : ℕ → DeviceInfo → Client → Client → Type 0
Stores device_id d c c' = c'.devices ≡ Map.insert device_id d c.devices

handle_i_am-i_am_bytes :
    (device_id max_apdu segmentation vendor_id : ℕ) (sender payload : List ℕ) (c : Client)
    → device_id < 2 ^ 22
    → max_apdu < 2 ^ 16
    → segmentation < 2 ^ 8
    → vendor_id < 2 ^ 16
    → Succeeds
        (handle_i_am
          (i_am_bytes device_id max_apdu segmentation vendor_id)
          sender
          (record (new_npdu 1 0) { payload = payload })
          c)
        (Stores device_id (announced device_id max_apdu segmentation vendor_id sender) c)
unfolding handle_i_am store_device
handle_i_am-i_am_bytes device_id max_apdu segmentation vendor_id sender payload c hd ha hs hv =
    rw (read_i_am-i_am_bytes device_id max_apdu segmentation vendor_id sender payload _ hd ha hs hv)
      refl

-- A broadcast of a local device reaches the handler of unconfirmed requests.
handle_apdu-unconfirmed :
    (service : ℕ) (payload sender : List ℕ) (npdu : Npdu) (c : Client)
    → handle_apdu (encode_unconfirmed_request service payload) sender npdu c
      ≡ handle_unconfirmed_request
          (new_apdu unconfirmed_request 0 service payload)
          sender
          npdu
          (record c {
            metrics = record c.metrics { responses_received = inc c.metrics.responses_received };
          })
unfolding handle_apdu dispatch
handle_apdu-unconfirmed service payload sender npdu c =
    ground (arith, decode_apdu-encode_unconfirmed_request service payload)

-- The datagram changes the cache by the device, whatever the state is.
pub handle_packet-Stores :
    (device_id max_apdu segmentation vendor_id : ℕ) (sender : List ℕ) (c : Client)
    → device_id < 2 ^ 22
    → max_apdu < 2 ^ 16
    → segmentation < 2 ^ 8
    → vendor_id < 2 ^ 16
    → Succeeds
        (handle_packet (i_am_packet device_id max_apdu segmentation vendor_id) sender c)
        (Stores device_id (announced device_id max_apdu segmentation vendor_id sender) c)
unfolding handle_unconfirmed_request
handle_packet-Stores device_id max_apdu segmentation vendor_id sender c hd ha hs hv =
    let payload = i_am_bytes device_id max_apdu segmentation vendor_id in
    let apdu = encode_unconfirmed_request i_am payload in
    rw (handle_packet-local original_broadcast_npdu apdu sender c (omega arith)) (
      rw (handle_apdu-unconfirmed i_am payload sender _ c) (
        handle_i_am-i_am_bytes device_id max_apdu segmentation vendor_id sender apdu _ hd ha hs hv))

-- The datagram of an I-Am of a device on the local network, handled in any state, leaves the device
-- in the cache: `GetDevice` returns its maximum APDU, segmentation and vendor with the address of
-- the sender, if the numbers fit their fields.
get_device-handle_packet :
    (device_id max_apdu segmentation vendor_id : ℕ) (sender : List ℕ) (c : Client)
    → device_id < 2 ^ 22
    → max_apdu < 2 ^ 16
    → segmentation < 2 ^ 8
    → vendor_id < 2 ^ 16
    → Succeeds
        (handle_packet (i_am_packet device_id max_apdu segmentation vendor_id) sender c)
        (λ c'.
          get_device device_id c'
          ≡ some (announced device_id max_apdu segmentation vendor_id sender))
unfolding get_device
get_device-handle_packet device_id max_apdu segmentation vendor_id sender c hd ha hs hv =
    let d = announced device_id max_apdu segmentation vendor_id sender in
    Succeeds-weaken (handle_packet (i_am_packet device_id max_apdu segmentation vendor_id) sender c)
      (Stores device_id d c) _
      (handle_packet-Stores device_id max_apdu segmentation vendor_id sender c hd ha hs hv)
      λ c' e. ground (arith, e, lookup-insert device_id device_id d c.devices)
