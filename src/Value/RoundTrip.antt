-- ===== src/Value/RoundTrip.antt =====
-- `decodePropertyValue` on what `encodePropertyValue` writes.
use bacnet_go.Base.{
  ℕ, ◌+◌, ◌^◌, ◌≤◌, ◌<◌, ◌≡◌, refl, ap, ◌∙◌, Bool, true, false, List, ◌∷◌, ◌++◌, length,
  length-append, append_assoc, arith,
}
use bacnet_go.Base.Int.{ℤ, pos, negsuc, IsInt32}
use bacnet_go.Go.{ok, index, slice_middle, uint32, put_uint32}
use bacnet_go.Text.{decode_character_string, encode_character_string, encode_character_string_tag}
use bacnet_go.Types.ObjectId
use bacnet_go.Types.ObjectId.{ObjectIdentifier, IsIdentifier, decode_object_identifier}
use bacnet_go.Wire.ApplicationTag
use bacnet_go.Wire.Number.{
  application_tagged, encode_boolean_tag, encode_unsigned, encode_unsigned_tag, encode_signed,
  encode_real, encode_real_tag, encode_double, encode_object_identifier,
  encode_object_identifier_tag,
}
use bacnet_go.Wire.Number.RoundTrip.{
  decode_unsigned-encode_unsigned, decode_signed-encode_signed, decode_real-encode_real,
  decode_double-encode_double,
}
use bacnet_go.Wire.Tag.{application, encode_tag, decode_tag_number}
use bacnet_go.Wire.Tag.RoundTrip.{decode_tag_number-encode_tag, encode_tag_nonempty}
use bacnet_go.Value.{
  Value, null, boolean, unsigned, signed, int, real, double, octets, text, bit_string, date, time,
  object_id, decode_payload, payload_of, decode_property_value, encode_property_value,
}

-- A tagged payload with anything behind it is decoded by its tag.
pub decode_property_value-application_tagged :
    (number : ℕ) (payload rest : List ℕ)
    → 2 ≤ number
    → number < 15
    → length payload < 2 ^ 32
    → decode_property_value (application_tagged number payload ++ rest)
      ≡ decode_payload number payload
unfolding decode_property_value payload_of
decode_property_value-application_tagged number payload rest hl hn hp = ground (
  arith,
  append_assoc (encode_tag number application (length payload)) payload rest,
  decode_tag_number-encode_tag number application (length payload) (payload ++ rest) hn,
  length-append (encode_tag number application (length payload)) (payload ++ rest),
  length-append payload rest,
  slice_middle (encode_tag number application (length payload)) payload rest,
  encode_tag_nonempty number application (length payload),
)

-- The values that the wire has room for, of the types that `WriteProperty` can write.
abbrev pub IsWritable : Value → Type 0
IsWritable null = Unit {0}
IsWritable (boolean b) = Unit {0}
IsWritable (unsigned n) = n < 2 ^ 32
IsWritable (signed v) = IsInt32 v
IsWritable (int (pos n)) = n < 2 ^ 32
IsWritable (int (negsuc n)) = n < 2 ^ 31
IsWritable (real bits) = bits < 2 ^ 32
IsWritable (double bits) = bits < 2 ^ 64
IsWritable (text s) = length s + 1 < 2 ^ 32
IsWritable (object_id o) = IsIdentifier o
IsWritable (octets bytes) = ⊥
IsWritable (bit_string b) = ⊥
IsWritable (date d) = ⊥
IsWritable (time t) = ⊥

-- What a value is read back as: a number that is not negative is a uint32, a negative one an int32.
abbrev pub read_back : Value → Value
read_back (signed (pos n)) = unsigned n
read_back (int (pos n)) = unsigned n
read_back (int (negsuc n)) = signed (negsuc n)
read_back v = v

decode_null : (rest : List ℕ) → decode_property_value (0x00 ∷ rest) ≡ ok null
unfolding decode_property_value decode_tag_number index
decode_null rest = ground arith

decode_boolean :
    (b : Bool) (rest : List ℕ)
    → decode_property_value (encode_boolean_tag b ++ rest) ≡ ok (boolean b)
unfolding decode_property_value decode_tag_number encode_boolean_tag index
decode_boolean true rest = ground arith
decode_boolean false rest = ground arith

decode_unsigned_tag :
    (n : ℕ) (rest : List ℕ)
    → n < 2 ^ 32
    → decode_property_value (encode_unsigned_tag n ++ rest) ≡ ok (unsigned n)
unfolding encode_unsigned_tag decode_payload
decode_unsigned_tag n rest h =
    let (back, lo, hi, _, _) = decode_unsigned-encode_unsigned n h in
    decode_property_value-application_tagged ApplicationTag.unsigned_int (encode_unsigned n) rest
      (omega arith) (omega arith) (omega arith)
    ∙ ap (λ m. ok (unsigned m)) back

decode_signed_tag :
    (v : ℤ) (rest : List ℕ)
    → IsInt32 v
    → decode_property_value (application_tagged ApplicationTag.signed_int (encode_signed v) ++ rest)
      ≡ ok (signed v)
unfolding decode_payload
decode_signed_tag v rest h =
    let (back, lo, hi) = decode_signed-encode_signed v h in
    decode_property_value-application_tagged ApplicationTag.signed_int (encode_signed v) rest
      (omega arith) (omega arith) (omega arith)
    ∙ ap (λ m. ok (signed m)) back

decode_real_tag :
    (bits : ℕ) (rest : List ℕ)
    → bits < 2 ^ 32
    → decode_property_value (encode_real_tag bits ++ rest) ≡ ok (real bits)
unfolding encode_real_tag decode_payload encode_real
decode_real_tag bits rest h =
    decode_property_value-application_tagged ApplicationTag.real (put_uint32 bits) rest
      (omega arith) (omega arith) (omega arith)
    ∙ ap (λ m. ok (real m)) (decode_real-encode_real bits h)

decode_double_tag :
    (bits : ℕ) (rest : List ℕ)
    → bits < 2 ^ 64
    → decode_property_value (application_tagged ApplicationTag.double (encode_double bits) ++ rest)
      ≡ ok (double bits)
unfolding decode_payload encode_double
decode_double_tag bits rest h =
    decode_property_value-application_tagged ApplicationTag.double (encode_double bits) rest
      (omega arith) (omega arith) (omega arith)
    ∙ ap (λ m. ok (double m)) (decode_double-encode_double bits h)

decode_text_tag :
    (s rest : List ℕ)
    → length s + 1 < 2 ^ 32
    → decode_property_value (encode_character_string_tag s ++ rest) ≡ ok (text s)
unfolding encode_character_string_tag decode_payload encode_character_string decode_character_string
decode_text_tag s rest h =
    decode_property_value-application_tagged ApplicationTag.character_string
      (encode_character_string s) rest (omega arith) (omega arith) (omega arith)

decode_object_id_tag :
    (o : ObjectIdentifier) (rest : List ℕ)
    → IsIdentifier o
    → decode_property_value (encode_object_identifier_tag o ++ rest) ≡ ok (object_id o)
unfolding encode_object_identifier_tag encode_object_identifier decode_payload uint32
decode_object_id_tag o rest h =
    decode_property_value-application_tagged ApplicationTag.object_id (encode_object_identifier o)
      rest (omega arith) (omega arith) (omega arith)
    ∙ ground (arith, ObjectId.encode-lt o, ObjectId.decode-encode_self o h)

-- Every writable value encodes, and decodes to itself with whatever bytes follow; a number that is
-- not negative comes back as a uint32, a negative one as an int32.
pub decode_property_value-encode_property_value :
    (v : Value) (rest : List ℕ)
    → IsWritable v
    → (bytes : List ℕ) × (encode_property_value v ≡ ok bytes)
      × (decode_property_value (bytes ++ rest) ≡ ok (read_back v))
unfolding encode_property_value
decode_property_value-encode_property_value null rest h = (_, refl, decode_null rest)
decode_property_value-encode_property_value (boolean b) rest h = (_, refl, decode_boolean b rest)
decode_property_value-encode_property_value (unsigned n) rest h =
    (_, refl, decode_unsigned_tag n rest h)
decode_property_value-encode_property_value (signed (pos n)) rest h =
    (encode_unsigned_tag n, ground arith, decode_unsigned_tag n rest (omega arith))
decode_property_value-encode_property_value (signed (negsuc n)) rest h =
    (_, refl, decode_signed_tag (negsuc n) rest h)
decode_property_value-encode_property_value (int (pos n)) rest h =
    (encode_unsigned_tag n, ground arith, decode_unsigned_tag n rest h)
decode_property_value-encode_property_value (int (negsuc n)) rest h = (
  application_tagged ApplicationTag.signed_int (encode_signed (negsuc n)),
  ground arith,
  decode_signed_tag (negsuc n) rest h,
)
decode_property_value-encode_property_value (real bits) rest h =
    (_, refl, decode_real_tag bits rest h)
decode_property_value-encode_property_value (double bits) rest h =
    (_, refl, decode_double_tag bits rest h)
decode_property_value-encode_property_value (text s) rest h = (_, refl, decode_text_tag s rest h)
decode_property_value-encode_property_value (object_id o) rest h =
    (_, refl, decode_object_id_tag o rest h)
decode_property_value-encode_property_value (octets bytes) rest h = absurd h
decode_property_value-encode_property_value (bit_string b) rest h = absurd h
decode_property_value-encode_property_value (date d) rest h = absurd h
decode_property_value-encode_property_value (time t) rest h = absurd h
