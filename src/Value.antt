-- ===== src/Value.antt =====
-- client.go: `decodePropertyValue` and `encodePropertyValue`. A Go `interface{}` that holds a
-- property value is a `Value`, with a constructor for each dynamic type the two functions name.
pub mod Total
pub mod Typed
pub mod Reads
pub mod RoundTrip
use bacnet_go.Base.{
  ℕ, suc, ◌+◌, ◌%◌, ◌^◌, Bool, true, false, not, List, [], ◌∷◌, ◌++◌, ltb, ◌==◌, if◌then◌else◌,
  length, get_or,
}
use bacnet_go.Base.Int.{ℤ, pos, negsuc, to_unsigned, to_signed}
use bacnet_go.BitString.{BitString, decode_bit_string}
use bacnet_go.DateTime.{Date, Time, decode_date, decode_time}
use bacnet_go.Errors.{Error, invalid_response, plain, unsupported_value_type}
use bacnet_go.Go.{Result, ok, err, panic, fail, ◌>>=◌, slice, uint32}
use bacnet_go.Text.{decode_character_string, encode_character_string_tag}
use bacnet_go.Types.ObjectId.{ObjectIdentifier, decode_object_identifier}
use bacnet_go.Wire.ApplicationTag
use bacnet_go.Wire.Number.{
  application_tagged, decode_unsigned, decode_signed, decode_real, decode_double,
  encode_boolean_tag, encode_unsigned_tag, encode_signed, encode_real_tag, encode_double,
  encode_object_identifier_tag,
}
use bacnet_go.Wire.Tag.{application, is_closing, decode_tag_number}

pub data Value : Type 0 where
  null : Value
  boolean : Bool → Value
  -- uint32, int32 and int
  unsigned : ℕ → Value
  signed : ℤ → Value
  int : ℤ → Value
  -- the bits of a float32 and of a float64
  real : ℕ → Value
  double : ℕ → Value
  -- []byte and string
  octets : List ℕ → Value
  text : List ℕ → Value
  bit_string : BitString → Value
  date : Date → Value
  time : Time → Value
  object_id : ObjectIdentifier → Value

-- `if len(valueData) != n { return nil, ErrInvalidResponse }`
abbrev of_length : ℕ → List ℕ → Result Value → Result Value
of_length n bytes decoded = if not (length bytes == n) then fail invalid_response else decoded

-- The switch over the application tag, on the payload.
unfoldable pub decode_payload : ℕ → List ℕ → Result Value
decode_payload number bytes =
    if number == ApplicationTag.unsigned_int
    then ok (unsigned (decode_unsigned bytes))
    else if number == ApplicationTag.signed_int
    then ok (signed (decode_signed bytes))
    else if number == ApplicationTag.real
    then of_length 4 bytes (ok (real (decode_real bytes)))
    else if number == ApplicationTag.double
    then of_length 8 bytes (ok (double (decode_double bytes)))
    else if number == ApplicationTag.octet_string
    then ok (octets bytes)
    else if number == ApplicationTag.character_string
    then ok (text (decode_character_string bytes))
    else if number == ApplicationTag.bit_string
    then (do b ← decode_bit_string bytes; ok (bit_string b))
    else if number == ApplicationTag.enumerated
    then ok (unsigned (decode_unsigned bytes))
    else if number == ApplicationTag.date
    then of_length 4 bytes (do d ← decode_date bytes; ok (date d))
    else if number == ApplicationTag.time
    then of_length 4 bytes (do t ← decode_time bytes; ok (time t))
    else if number == ApplicationTag.object_id
    then of_length 4 bytes (do v ← uint32 bytes; ok (object_id (decode_object_identifier v)))
    else ok (octets bytes)

-- `data[headerLen : headerLen+length]` behind the test that the bytes are there. With a negative
-- length the upper bound lies below the lower one.
unfoldable pub payload_of : List ℕ → ℕ → ℤ → Result (List ℕ)
payload_of bytes header_len (pos n) =
    if ltb (length bytes) (header_len + n)
    then fail invalid_response
    else slice bytes header_len (header_len + n)
payload_of bytes header_len (negsuc n) =
    if ltb (length bytes + suc n) header_len then fail invalid_response else panic

is_one : ℤ → Bool
is_one (pos n) = n == 1
is_one (negsuc n) = false

-- The last part: a context tag with a real length.
context_value : List ℕ → ℕ → ℤ → Result Value
context_value bytes header_len (negsuc n) = fail invalid_response
context_value bytes header_len (pos n) = do
  out ← payload_of bytes header_len (pos n)
  ok (octets out)

unfoldable pub decode_property_value : List ℕ → Result Value
unfolding is_one context_value
decode_property_value bytes = if ltb (length bytes) 1 then fail invalid_response else do
  t ← decode_tag_number bytes
  if is_closing t.length
      then ok null
      else if t.class == application
      then (if t.number == ApplicationTag.null
          then ok null
          else if t.number == ApplicationTag.boolean
          then ok (boolean (is_one t.length))
          else do payload ← payload_of bytes t.header_len t.length; decode_payload t.number payload)
      else context_value bytes t.header_len t.length

-- `append(EncodeTag(TagSignedInt, …), EncodeSigned(v)...)`
signed_tag : ℤ → List ℕ
signed_tag v = application_tagged ApplicationTag.signed_int (encode_signed v)

unfoldable pub encode_property_value : Value → Result (List ℕ)
unfolding signed_tag
encode_property_value null = ok (0x00 ∷ [])
encode_property_value (boolean b) = ok (encode_boolean_tag b)
encode_property_value (int (pos n)) = ok (encode_unsigned_tag (n % 2 ^ 32))
encode_property_value (int (negsuc n)) = ok (signed_tag (to_signed 31 (to_unsigned 32 (negsuc n))))
encode_property_value (signed (pos n)) = ok (encode_unsigned_tag (n % 2 ^ 32))
encode_property_value (signed (negsuc n)) = ok (signed_tag (negsuc n))
encode_property_value (unsigned n) = ok (encode_unsigned_tag n)
encode_property_value (real bits) = ok (encode_real_tag bits)
encode_property_value (double bits) =
    ok (application_tagged ApplicationTag.double (encode_double bits))
encode_property_value (text s) = ok (encode_character_string_tag s)
encode_property_value (object_id o) = ok (encode_object_identifier_tag o)
encode_property_value (octets bytes) = err (plain unsupported_value_type)
encode_property_value (bit_string b) = err (plain unsupported_value_type)
encode_property_value (date d) = err (plain unsupported_value_type)
encode_property_value (time t) = err (plain unsupported_value_type)
