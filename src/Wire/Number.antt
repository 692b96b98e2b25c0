-- ===== src/Wire/Number.antt =====
-- protocol.go: the payloads of numbers and object identifiers, and their tagged forms.
-- A float is its IEEE 754 bit pattern: `math.Float32bits` and its kin are the identity here.
pub mod RoundTrip
pub mod Range
use bacnet_go.Base.{
  ℕ, ◌+◌, ◌-◌, ◌*◌, ◌/◌, ◌%◌, ◌^◌, Bool, true, false, not, ◌&&◌, List, [], ◌∷◌, ◌++◌, ltb, ◌==◌,
  if◌then◌else◌, length, get_or, bit_and, bit_or,
}
use bacnet_go.Base.Bits.{◌<<<◌, ◌>>>◌}
use bacnet_go.Base.Int.{ℤ, pos, to_unsigned, to_signed, asr, ge_neg, lt_pos}
use bacnet_go.Go.{put_uint32, put_uint64}
use bacnet_go.Types.ObjectId
use bacnet_go.Types.ObjectId.{ObjectIdentifier, decode_object_identifier, new_object_identifier}
use bacnet_go.Wire.ApplicationTag
use bacnet_go.Wire.Tag.{application, encode_tag, encode_context_tag}

-- `append(EncodeTag(tag, TagClassApplication, len(data)), data...)`
abbrev pub application_tagged : ℕ → List ℕ → List ℕ
application_tagged number payload = encode_tag number application (length payload) ++ payload

unfoldable pub encode_unsigned : ℕ → List ℕ
encode_unsigned value =
    if ltb value 0x100
    then (value % 256) ∷ []
    else if ltb value 0x10000
    then (value / 2 ^ 8 % 256) ∷ (value % 256) ∷ []
    else if ltb value 0x1000000
    then (value / 2 ^ 16 % 256) ∷ (value / 2 ^ 8 % 256) ∷ (value % 256) ∷ []
    else put_uint32 value

unfoldable pub encode_unsigned_tag : ℕ → List ℕ
encode_unsigned_tag value = application_tagged ApplicationTag.unsigned_int (encode_unsigned value)

unfoldable pub encode_context_unsigned : ℕ → ℕ → List ℕ
encode_context_unsigned number value = encode_context_tag number (encode_unsigned value)

-- `byte(value >> k)` of an int32.
abbrev byte_at : ℤ → ℕ → ℕ
byte_at value k = to_unsigned 8 (asr value k)

unfoldable pub encode_signed : ℤ → List ℕ
encode_signed value =
    if ge_neg value 128 && lt_pos value 128
    then byte_at value 0 ∷ []
    else if ge_neg value 32768 && lt_pos value 32768
    then byte_at value 8 ∷ byte_at value 0 ∷ []
    else if ge_neg value 8388608 && lt_pos value 8388608
    then byte_at value 16 ∷ byte_at value 8 ∷ byte_at value 0 ∷ []
    else byte_at value 24 ∷ byte_at value 16 ∷ byte_at value 8 ∷ byte_at value 0 ∷ []

unfoldable pub encode_real : ℕ → List ℕ
encode_real bits = put_uint32 bits

unfoldable pub encode_real_tag : ℕ → List ℕ
encode_real_tag bits = encode_tag ApplicationTag.real application 4 ++ encode_real bits

unfoldable pub encode_double : ℕ → List ℕ
encode_double bits = put_uint64 bits

unfoldable pub encode_boolean_tag : Bool → List ℕ
encode_boolean_tag value = if value then 0x11 ∷ [] else 0x10 ∷ []

unfoldable pub encode_context_boolean : ℕ → Bool → List ℕ
encode_context_boolean number value = encode_context_tag number ((if value then 1 else 0) ∷ [])

unfoldable pub encode_enumerated : ℕ → List ℕ
encode_enumerated value = encode_unsigned value

unfoldable pub encode_enumerated_tag : ℕ → List ℕ
encode_enumerated_tag value = application_tagged ApplicationTag.enumerated (encode_enumerated value)

unfoldable pub encode_context_enumerated : ℕ → ℕ → List ℕ
encode_context_enumerated number value = encode_context_tag number (encode_enumerated value)

unfoldable pub encode_object_identifier : ObjectIdentifier → List ℕ
encode_object_identifier o = put_uint32 (ObjectId.encode o)

unfoldable pub encode_object_identifier_tag : ObjectIdentifier → List ℕ
encode_object_identifier_tag o =
    encode_tag ApplicationTag.object_id application 4 ++ encode_object_identifier o

unfoldable pub encode_context_object_identifier : ℕ → ObjectIdentifier → List ℕ
encode_context_object_identifier number o = encode_context_tag number (encode_object_identifier o)

-- `data[0]<<16 | data[1]<<8 | data[2]` in uint32.
abbrev three_bytes : List ℕ → ℕ
three_bytes bytes =
    bit_or (bit_or (get_or bytes 0 0 <<< 16) (get_or bytes 1 0 <<< 8)) (get_or bytes 2 0)

-- `binary.BigEndian` on slices whose length the caller has tested.
abbrev big_endian16 : List ℕ → ℕ
big_endian16 bytes = get_or bytes 0 0 * 256 + get_or bytes 1 0

abbrev big_endian32 : List ℕ → ℕ
big_endian32 bytes =
    get_or bytes 0 0 * 2 ^ 24
    + get_or bytes 1 0 * 2 ^ 16
    + get_or bytes 2 0 * 2 ^ 8
    + get_or bytes 3 0

unfoldable pub decode_unsigned : List ℕ → ℕ
decode_unsigned bytes =
    if length bytes == 1
    then get_or bytes 0 0
    else if length bytes == 2
    then big_endian16 bytes
    else if length bytes == 3
    then three_bytes bytes
    else if length bytes == 4
    then big_endian32 bytes
    else 0

unfoldable pub decode_signed : List ℕ → ℤ
decode_signed bytes =
    if length bytes == 1
    then to_signed 7 (get_or bytes 0 0)
    else if length bytes == 2
    then to_signed 15 (big_endian16 bytes)
    else if length bytes == 3
    then (let v = three_bytes bytes in
        to_signed 31
          (if not (bit_and (get_or bytes 0 0) 0x80 == 0) then bit_or v 0xFF000000 else v))
    else if length bytes == 4
    then to_signed 31 (big_endian32 bytes)
    else pos 0

unfoldable pub decode_real : List ℕ → ℕ
decode_real bytes = if not (length bytes == 4) then 0 else big_endian32 bytes

unfoldable pub decode_double : List ℕ → ℕ
decode_double bytes =
    if not (length bytes == 8)
    then 0
    else big_endian32 bytes * 2 ^ 32
      + get_or bytes 4 0 * 2 ^ 24
      + get_or bytes 5 0 * 2 ^ 16
      + get_or bytes 6 0 * 2 ^ 8
      + get_or bytes 7 0

unfoldable pub decode_object_identifier_from_bytes : List ℕ → ObjectIdentifier
decode_object_identifier_from_bytes bytes =
    if not (length bytes == 4)
    then new_object_identifier 0 0
    else decode_object_identifier (big_endian32 bytes)
