-- ===== src/Service/Write.antt =====
-- The parameters of WriteProperty.
use bacnet_go.Base.{ℕ, ◌^◌, ◌<◌, ◌≡◌, List, ◌++◌, Option, none, some, refl, arith}
use bacnet_go.Go.{ok}
use bacnet_go.Options.{WriteOptions}
use bacnet_go.Response.Acknowledgement.{IsIndex, index_bytes}
use bacnet_go.Response.ReadProperty.{decode_read_property_response}
use bacnet_go.Response.ReadProperty.RoundTrip.{ack-value}
use bacnet_go.Service.{write_property_parameters, optional_unsigned}
use bacnet_go.Types.ObjectId.{ObjectIdentifier}
use bacnet_go.Value.{Value}
use bacnet_go.Value.RoundTrip.{IsWritable, read_back, decode_property_value-encode_property_value}
use bacnet_go.Wire.Number.{
  encode_object_identifier, encode_context_object_identifier, encode_context_enumerated,
  encode_enumerated,
}
use bacnet_go.Wire.Tag.{encode_opening_tag, encode_closing_tag}

same_index : (array_index : Option ℕ) → optional_unsigned 2 array_index ≡ index_bytes 2 array_index
same_index none = refl
same_index (some i) = refl

-- The parameters of WriteProperty for a writable value, when the property and the array index fit 32
-- bits: a reader that steps over the object [0], the property [1] and the array index [2], if there
-- is one, finds the value within [3].
pub decode_read_property_response-write_property_parameters :
    (oid : ObjectIdentifier) (property_id : ℕ) (options : WriteOptions) (v : Value)
    → property_id < 2 ^ 32
    → IsIndex options.array_index
    → IsWritable v
    → (bytes : List ℕ) × (write_property_parameters oid property_id options v ≡ ok bytes)
      × (decode_read_property_response bytes ≡ ok (read_back v))
unfolding write_property_parameters encode_context_object_identifier encode_object_identifier
    encode_context_enumerated encode_enumerated
decode_read_property_response-write_property_parameters oid property_id options v hp hi hv =
    let rest = encode_closing_tag 3 ++ optional_unsigned 4 options.priority in
    let (value, e, back) = decode_property_value-encode_property_value v rest hv in
    let bytes =
      encode_context_object_identifier 0 oid
      ++ (encode_context_enumerated 1 property_id
          ++ (optional_unsigned 2 options.array_index
              ++ (encode_opening_tag 3 ++ (value ++ rest)))) in
    (
      bytes,
      rw e refl,
      rw (same_index options.array_index) (
          ack-value (encode_object_identifier oid) property_id options.array_index (value ++ rest)
            (read_back v) hp hi (omega arith) (omega arith) back),
    )
