-- ===== src/Response/Multiple/Tagged.antt =====
-- The values that stand in a ReadPropertyMultiple-ACK as one tagged payload: they are decoded, and
-- stepped over.
use bacnet_go.Base.{ℕ, ◌+◌, ◌^◌, ◌<◌, ◌≡◌, refl, true, false, List, [], ◌++◌, length, arith}
use bacnet_go.Base.Int.{ℤ, pos, negsuc}
use bacnet_go.Go.{ok}
use bacnet_go.Text.{encode_character_string, encode_character_string_tag}
use bacnet_go.Value.{
  Value, null, boolean, unsigned, signed, int, real, double, octets, text, bit_string, date, time,
  object_id, encode_property_value, decode_property_value,
}
use bacnet_go.Value.RoundTrip.{IsWritable, read_back, decode_property_value-encode_property_value}
use bacnet_go.Wire.Number.{
  application_tagged, encode_boolean_tag, encode_unsigned, encode_unsigned_tag, encode_signed,
  encode_real, encode_real_tag, encode_double, encode_object_identifier,
  encode_object_identifier_tag,
}
use bacnet_go.Wire.Number.RoundTrip.{decode_unsigned-encode_unsigned}
use bacnet_go.Wire.Tag.{encode_tag, encode_closing_tag}
use bacnet_go.Response.Acknowledgement.{value_bytes}
use bacnet_go.Response.Position.{At}
use bacnet_go.Response.Skip.{skip_to_context_closing_tag}
use bacnet_go.Response.Skip.RoundTrip.{skip-value}

-- A value is one tagged payload, but for the boolean true, whose tag stands for a payload of one byte
-- that is not there.
abbrev pub IsTagged : Value → Type 0
IsTagged (boolean true) = ⊥
IsTagged v = IsWritable v

abbrev Tagged : Value → Type 0
Tagged v =
    (number : ℕ) × (payload : List ℕ) × (value_bytes v ≡ application_tagged number payload)
    × (number < 15)
    × (length payload < 2 ^ 32)

pub unsigned-Tagged : (n : ℕ) → n < 2 ^ 32 → length (encode_unsigned n) < 2 ^ 32
unsigned-Tagged n h = let (_, _, hi, _, _) = decode_unsigned-encode_unsigned n h in omega arith

signed-Tagged : (v : ℤ) → length (encode_signed v) < 2 ^ 32
unfolding encode_signed
signed-Tagged v = ground arith

value-Tagged : (v : Value) → IsTagged v → Tagged v
unfolding encode_property_value
value-Tagged null h = (0, [], unfold encode_tag in refl, omega arith, omega arith)
value-Tagged (boolean true) h = absurd h
value-Tagged (boolean false) h =
    (1, [], unfold encode_tag encode_boolean_tag in refl, omega arith, omega arith)
value-Tagged (unsigned n) h =
    (2, encode_unsigned n, unfold encode_unsigned_tag in refl, omega arith, unsigned-Tagged n h)
value-Tagged (signed (pos n)) h = (
  2,
  encode_unsigned n,
  unfold encode_unsigned_tag in ground arith,
  omega arith,
  unsigned-Tagged n (omega arith),
)
value-Tagged (signed (negsuc n)) h =
    (3, encode_signed (negsuc n), refl, omega arith, signed-Tagged (negsuc n))
value-Tagged (int (pos n)) h = (
  2,
  encode_unsigned n,
  unfold encode_unsigned_tag in ground arith,
  omega arith,
  unsigned-Tagged n h,
)
value-Tagged (int (negsuc n)) h =
    (3, encode_signed (negsuc n), ground arith, omega arith, signed-Tagged (negsuc n))
value-Tagged (real bits) h = (
  4,
  encode_real bits,
  unfold encode_real_tag encode_real in refl,
  omega arith,
  unfold encode_real in omega arith,
)
value-Tagged (double bits) h =
    (5, encode_double bits, refl, omega arith, unfold encode_double in omega arith)
value-Tagged (text s) h = (
  7,
  encode_character_string s,
  unfold encode_character_string_tag in refl,
  omega arith,
  unfold encode_character_string in omega arith,
)
value-Tagged (object_id o) h = (
  12,
  encode_object_identifier o,
  unfold encode_object_identifier_tag encode_object_identifier in refl,
  omega arith,
  unfold encode_object_identifier in omega arith,
)
value-Tagged (octets bytes) h = absurd h
value-Tagged (bit_string b) h = absurd h
value-Tagged (date d) h = absurd h
value-Tagged (time t) h = absurd h

-- The bytes that `encodePropertyValue` writes decode to the value.
pub value_bytes-decodes :
    (v : Value) (rest : List ℕ)
    → IsWritable v
    → decode_property_value (value_bytes v ++ rest) ≡ ok (read_back v)
value_bytes-decodes v rest h =
    let (bytes, e, back) = decode_property_value-encode_property_value v rest h in rw e back

pub IsTagged-IsWritable : (v : Value) → IsTagged v → IsWritable v
IsTagged-IsWritable (boolean true) h = tt
IsTagged-IsWritable (boolean false) h = tt
IsTagged-IsWritable null h = h
IsTagged-IsWritable (unsigned n) h = h
IsTagged-IsWritable (signed n) h = h
IsTagged-IsWritable (int n) h = h
IsTagged-IsWritable (real n) h = h
IsTagged-IsWritable (double n) h = h
IsTagged-IsWritable (octets n) h = h
IsTagged-IsWritable (text n) h = h
IsTagged-IsWritable (bit_string n) h = h
IsTagged-IsWritable (date n) h = h
IsTagged-IsWritable (time n) h = h
IsTagged-IsWritable (object_id n) h = h

pub skip-value_bytes :
    {bytes : List ℕ} {offset : ℕ} (v : Value) (rest : List ℕ)
    → IsTagged v
    → At bytes offset (value_bytes v ++ (encode_closing_tag 4 ++ rest))
    → skip_to_context_closing_tag bytes offset 4 ≡ ok (offset + length (value_bytes v) + 1)
skip-value_bytes {bytes} {offset} v rest h a =
    let (number, payload, e, hn, hp) = value-Tagged v h in
    rw e (skip-value 4 number payload rest (omega arith) hn hp (rw e at a))
