-- ===== src/Response/ReadProperty/RoundTrip.antt =====
-- `decodeReadPropertyResponse` on a ReadProperty-ACK.
use bacnet_go.Base.{
  ℕ, ◌+◌, ◌^◌, ◌≤◌, ◌<◌, ◌≡◌, List, ◌++◌, Option, none, some, length, length-append, arith,
}
use bacnet_go.Go.{ok}
use bacnet_go.Types.ObjectId.{ObjectIdentifier}
use bacnet_go.Value.{Value, encode_property_value, decode_property_value}
use bacnet_go.Value.RoundTrip.{IsWritable, read_back, decode_property_value-encode_property_value}
use bacnet_go.Wire.Number.{
  encode_unsigned, encode_enumerated, encode_object_identifier, encode_context_object_identifier,
  encode_context_enumerated, encode_context_unsigned,
}
use bacnet_go.Wire.Number.RoundTrip.{decode_unsigned-encode_unsigned}
use bacnet_go.Wire.Tag.{
  context, encode_tag, encode_context_tag, encode_opening_tag, encode_closing_tag,
}
use bacnet_go.Wire.Tag.RoundTrip.{encode_tag_nonempty}
use bacnet_go.Response.Acknowledgement.{index_bytes, IsIndex, read_property_ack}
use bacnet_go.Response.Position.{
  At, At-start, At-append, slice_from-At, required_field-At, optional_field-At,
  optional_field-opening, opening_field-At, length-encode_opening_tag,
}
use bacnet_go.Response.Fields.{Field, absent, optional_field}
use bacnet_go.Response.ReadProperty.{offset_behind, decode_read_property_response}

-- The optional array index, present or not, before the opening tag.
index_field-At :
    {bytes : List ℕ} {offset : ℕ} (array_index : Option ℕ) (rest : List ℕ)
    → IsIndex array_index
    → At bytes offset (index_bytes 2 array_index ++ (encode_opening_tag 3 ++ rest))
    → (field : Field) × (optional_field bytes 2 offset ≡ ok field)
      × At bytes (offset_behind offset field) (encode_opening_tag 3 ++ rest)
index_field-At none rest h a = (absent, optional_field-opening 3 2 rest (omega arith) a, a)
index_field-At (some i) rest h a =
    let (_, lo, hi, _, _) = decode_unsigned-encode_unsigned i h in
    unfold encode_context_unsigned in
    (
      _,
      optional_field-At 2 (encode_unsigned i) (encode_opening_tag 3 ++ rest) (omega arith)
          (omega arith) a,
      At-append (encode_context_tag 2 (encode_unsigned i)) (encode_opening_tag 3 ++ rest) a,
    )

length-context_field :
    (number : ℕ) (payload : List ℕ)
    → length payload + 1 ≤ length (encode_context_tag number payload)
unfolding encode_context_tag
length-context_field number payload = omega (
  arith,
  length-append (encode_tag number context (length payload)) payload,
  encode_tag_nonempty number context (length payload),
)

-- What follows the property, the object, and the opening tag; `value` is all that stands behind
-- that tag.
abbrev value_part : List ℕ → List ℕ
value_part value = encode_opening_tag 3 ++ value

abbrev index_part : Option ℕ → List ℕ → List ℕ
index_part array_index value = index_bytes 2 array_index ++ value_part value

abbrev property_part : ℕ → Option ℕ → List ℕ → List ℕ
property_part property_id array_index value =
    encode_context_tag 1 (encode_unsigned property_id) ++ index_part array_index value

ack-length :
    (object : List ℕ) (property_id : ℕ) (array_index : Option ℕ) (value : List ℕ)
    → property_id < 2 ^ 32
    → 4 ≤ length object
    → 8 ≤ length (encode_context_tag 0 object ++ property_part property_id array_index value)
ack-length object property_id array_index value h h4 =
    let (_, lo, _, _, _) = decode_unsigned-encode_unsigned property_id h in
    omega (
      arith,
      length-append (encode_context_tag 0 object) (property_part property_id array_index value),
      length-append (encode_context_tag 1 (encode_unsigned property_id))
          (index_part array_index value),
      length-append (index_bytes 2 array_index) (value_part value),
      length-append (encode_opening_tag 3) value,
      length-encode_opening_tag 3 (omega arith),
      length-context_field 0 object,
      length-context_field 1 (encode_unsigned property_id),
    )

-- The decoder walks over the fields to the value, and decodes what stands there.
pub ack-value :
    (object : List ℕ) (property_id : ℕ) (array_index : Option ℕ) (value : List ℕ) (w : Value)
    → property_id < 2 ^ 32
    → IsIndex array_index
    → 4 ≤ length object
    → length object < 2 ^ 32
    → decode_property_value value ≡ ok w
    → decode_read_property_response
        (encode_context_tag 0 object ++ property_part property_id array_index value)
      ≡ ok w
unfolding decode_read_property_response
ack-value object property_id array_index value w hp hi lo hi32 back =
    let bytes = encode_context_tag 0 object ++ property_part property_id array_index value in
    let (_, one, four, _, _) = decode_unsigned-encode_unsigned property_id hp in
    let object_at = At-start bytes in
    let property_at =
      At-append (encode_context_tag 0 object) (property_part property_id array_index value)
        object_at in
    let index_at =
      At-append (encode_context_tag 1 (encode_unsigned property_id)) (index_part array_index value)
        property_at in
    let (field, read, opening_at) = index_field-At array_index value hi index_at in
    let (opened, value_at) = opening_field-At 3 value (omega arith) opening_at in
    ground (
      arith,
      ack-length object property_id array_index value hp lo,
      required_field-At 0 object (property_part property_id array_index value) (omega arith) hi32
          object_at,
      required_field-At 1 (encode_unsigned property_id) (index_part array_index value) (omega arith)
          (omega arith) property_at,
      read,
      opened,
      slice_from-At value_at,
      back,
    )

-- A ReadProperty-ACK that carries a writable value decodes to that value, whatever the object, if the
-- property and the array index fit 32 bits.
pub decode_read_property_response-ack :
    (oid : ObjectIdentifier) (property_id : ℕ) (array_index : Option ℕ) (v : Value)
    → property_id < 2 ^ 32
    → IsIndex array_index
    → IsWritable v
    → (value : List ℕ) × (encode_property_value v ≡ ok value)
      × (decode_read_property_response (read_property_ack oid property_id array_index value)
          ≡ ok (read_back v))
unfolding encode_context_object_identifier encode_object_identifier encode_context_enumerated
    encode_enumerated
decode_read_property_response-ack oid property_id array_index v hp hi hv =
    let (value, e, back) =
      decode_property_value-encode_property_value v (encode_closing_tag 3) hv in
    (
      value,
      e,
      ack-value (encode_object_identifier oid) property_id array_index
          (value ++ encode_closing_tag 3) (read_back v) hp hi (omega arith) (omega arith) back,
    )
