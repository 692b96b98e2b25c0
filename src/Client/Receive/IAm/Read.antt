-- ===== src/Client/Receive/IAm/Read.antt =====
-- `handleIAm` on the parameters of an I-Am.
use bacnet_go.Base.{
  ℕ, ◌+◌, ◌^◌, ◌<◌, ◌≡◌, sym, ◌∙◌, append-nil, List, [], ◌++◌, length, length-append, append_assoc,
  arith,
}
use bacnet_go.Client.{Client}
use bacnet_go.Client.Receive.{read_i_am, read_i_am_fields, store_device, device_address}
use bacnet_go.Go.{ok, uint32, put_uint32}
use bacnet_go.Response.Fields.RoundTrip.{read_unsigned_tag-At}
use bacnet_go.Response.Position.{At, At-append, At-length, slice-At}
use bacnet_go.Types.Device.{DeviceInfo}
use bacnet_go.Types.ObjectId
use bacnet_go.Types.ObjectId.{
  ObjectIdentifier, IsIdentifier, new_object_identifier, device_type, decode_object_identifier,
}
use bacnet_go.Wire.ApplicationTag
use bacnet_go.Wire.Npdu.{new_npdu}
use bacnet_go.Wire.Number.{
  encode_unsigned_tag, encode_enumerated, encode_enumerated_tag, encode_object_identifier,
  encode_object_identifier_tag,
}
use bacnet_go.Wire.Tag.{application, encode_tag}
use bacnet_go.Wire.Tag.RoundTrip.{decode_tag_number-encode_tag}

-- The parameters of the I-Am: the device, its maximum APDU, segmentation and vendor.
abbrev pub i_am_bytes : ℕ → ℕ → ℕ → ℕ → List ℕ
i_am_bytes device_id max_apdu segmentation vendor_id =
    encode_object_identifier_tag (new_object_identifier device_type device_id)
    ++ (encode_unsigned_tag max_apdu
        ++ (encode_enumerated_tag segmentation ++ encode_unsigned_tag vendor_id))

-- The device that the I-Am describes, seen from its sender.
abbrev pub announced : ℕ → ℕ → ℕ → ℕ → List ℕ → DeviceInfo
announced device_id max_apdu segmentation vendor_id sender = record {
  object_id = new_object_identifier device_type device_id;
  address = record { net = 0; addr = sender };
  max_apdu_length = max_apdu;
  segmentation = segmentation;
  vendor_id = vendor_id;
  vendor_name = [];
  model_name = [];
  firmware_revision = [];
  application_software = [];
  description = [];
  location = [];
  object_list = [];
}

read_i_am_fields-At :
    {bytes : List ℕ} {offset : ℕ} (device_id max_apdu segmentation vendor_id : ℕ)
    (sender payload : List ℕ) (c : Client)
    → max_apdu < 2 ^ 16
    → segmentation < 2 ^ 8
    → vendor_id < 2 ^ 16
    → At bytes offset (
        encode_unsigned_tag max_apdu
        ++ (encode_enumerated_tag segmentation ++ encode_unsigned_tag vendor_id))
    → read_i_am_fields bytes
        (new_object_identifier device_type device_id)
        offset
        sender
        (record (new_npdu 1 0) { payload = payload })
        c
      ≡ ok (store_device (announced device_id max_apdu segmentation vendor_id sender) c)
unfolding read_i_am_fields device_address encode_unsigned_tag encode_enumerated_tag
    encode_enumerated
read_i_am_fields-At {bytes} {offset} device_id max_apdu segmentation vendor_id sender payload c ha
      hs hv a =
    let first = encode_unsigned_tag max_apdu in
    let second = encode_enumerated_tag segmentation in
    let third = encode_unsigned_tag vendor_id in
    let second_at = At-append first (second ++ third) a in
    let third_at = At-append second third second_at in
    let ended : At bytes (offset + length first + length second) (third ++ []) = record {
      inside = third_at.inside;
      tail = third_at.tail ∙ sym (append-nil third);
    } in
    ground (
      arith,
      read_unsigned_tag-At ApplicationTag.unsigned_int max_apdu (second ++ third) (omega arith)
          (omega arith) a,
      read_unsigned_tag-At ApplicationTag.enumerated segmentation third (omega arith) (omega arith)
          second_at,
      read_unsigned_tag-At ApplicationTag.unsigned_int vendor_id [] (omega arith) (omega arith)
          ended,
    )

pub read_i_am-i_am_bytes :
    (device_id max_apdu segmentation vendor_id : ℕ) (sender payload : List ℕ) (c : Client)
    → device_id < 2 ^ 22
    → max_apdu < 2 ^ 16
    → segmentation < 2 ^ 8
    → vendor_id < 2 ^ 16
    → read_i_am
        (i_am_bytes device_id max_apdu segmentation vendor_id)
        sender
        (record (new_npdu 1 0) { payload = payload })
        c
      ≡ ok (store_device (announced device_id max_apdu segmentation vendor_id sender) c)
unfolding read_i_am encode_object_identifier_tag encode_object_identifier uint32
read_i_am-i_am_bytes device_id max_apdu segmentation vendor_id sender payload c hd ha hs hv =
    let o = new_object_identifier device_type device_id in
    let bytes = i_am_bytes device_id max_apdu segmentation vendor_id in
    let header = encode_tag ApplicationTag.object_id application 4 in
    let value = put_uint32 (ObjectId.encode o) in
    let rest =
      encode_unsigned_tag max_apdu
      ++ (encode_enumerated_tag segmentation ++ encode_unsigned_tag vendor_id) in
    let shaped : At bytes 0 (header ++ (value ++ rest)) = record {
      inside = omega arith;
      tail = append_assoc header value rest;
    } in
    let value_at = At-append header (value ++ rest) shaped in
    let fields_at = At-append value rest value_at in
    ground (
      arith,
      At-length shaped,
      length-append header (value ++ rest),
      decode_tag_number-encode_tag ApplicationTag.object_id application 4 (value ++ rest)
          (omega arith) (omega arith) (omega arith),
      shaped.tail,
      slice-At value rest value_at,
      ObjectId.encode-lt o,
      ObjectId.decode-encode_self o (omega arith, hd),
      read_i_am_fields-At device_id max_apdu segmentation vendor_id sender payload c ha hs hv
          fields_at,
    )
