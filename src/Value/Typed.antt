-- ===== src/Value/Typed.antt =====
-- What `decodePropertyValue` returns lies in the Go types of the values.
use bacnet_go.Base.{
  ℕ, ◌+◌, ◌*◌, ◌/◌, ◌^◌, ◌<◌, List, All, All-take, All-drop, get_or, get_or_lem, arith, take, drop,
  length-drop,
}
use bacnet_go.Base.Bits.{bit_and_low}
use bacnet_go.Base.Int.{IsInt32}
use bacnet_go.BitString.{decode_bit_string}
use bacnet_go.BitString.Laws.{IsBitString}
use bacnet_go.DateTime.{decode_date, decode_time}
use bacnet_go.Go.{IsByte, Ensures, index, slice, slice_from, uint32}
use bacnet_go.Text.Bytes.{decode_character_string-bytes}
use bacnet_go.Types.ObjectId.{IsIdentifier, decode_object_identifier}
use bacnet_go.Value.{
  Value, null, boolean, unsigned, signed, int, real, double, octets, text, bit_string, date, time,
  object_id, decode_payload, payload_of, decode_property_value,
}
use bacnet_go.Wire.Number.Range.{decode_signed-IsInt32, decode_real-lt, decode_double-lt}
use bacnet_go.Wire.Number.RoundTrip.{decode_unsigned-lt}
use bacnet_go.Wire.Tag.Total.{decode_tag_number-IsHeader}

-- The ranges of uint32, int32, the bits of the float types, bytes, uint16 and uint8; no value is an
-- `int`, which only the encoder takes.
abbrev IsTyped : Value → Type 0
IsTyped null = Unit {0}
IsTyped (boolean b) = Unit {0}
IsTyped (unsigned n) = n < 2 ^ 32
IsTyped (signed v) = IsInt32 v
IsTyped (int v) = ⊥
IsTyped (real bits) = bits < 2 ^ 32
IsTyped (double bits) = bits < 2 ^ 64
IsTyped (octets bytes) = All IsByte bytes
IsTyped (text s) = All IsByte s
IsTyped (bit_string b) = IsBitString b × All IsByte b.bytes
IsTyped (date d) = (d.year < 2 ^ 16) × (d.month < 256) × (d.day < 256) × (d.day_of_week < 256)
IsTyped (time t) = (t.hour < 256) × (t.minute < 256) × (t.second < 256) × (t.hundredths < 256)
IsTyped (object_id o) = IsIdentifier o

decode_object_identifier-IsIdentifier : (v : ℕ) → IsIdentifier (decode_object_identifier v)
unfolding decode_object_identifier
decode_object_identifier-IsIdentifier v =
    ground (arith, bit_and_low 10 (v / 2 ^ 22), bit_and_low 22 v)

decode_payload-IsTyped :
    (number : ℕ) (bytes : List ℕ) → All IsByte bytes → Ensures (decode_payload number bytes) IsTyped
unfolding decode_payload decode_bit_string decode_date decode_time index slice_from uint32
decode_payload-IsTyped number bytes h = ground (
  arith,
  h,
  decode_unsigned-lt bytes h,
  decode_signed-IsInt32 bytes h,
  decode_real-lt bytes h,
  decode_double-lt bytes h,
  decode_character_string-bytes bytes h,
  decode_object_identifier-IsIdentifier (
      get_or bytes 0 0 * 2 ^ 24
      + get_or bytes 1 0 * 2 ^ 16
      + get_or bytes 2 0 * 2 ^ 8
      + get_or bytes 3 0),
  length-drop 1 bytes,
  All-drop IsByte 1 bytes h,
  get_or_lem IsByte bytes 0 0 h (omega arith),
  get_or_lem IsByte bytes 1 0 h (omega arith),
  get_or_lem IsByte bytes 2 0 h (omega arith),
  get_or_lem IsByte bytes 3 0 h (omega arith),
)

slice-bytes : (bytes : List ℕ) (lo n : ℕ) → All IsByte bytes → All IsByte (take n (drop lo bytes))
slice-bytes bytes lo n h = All-take IsByte n (drop lo bytes) (All-drop IsByte lo bytes h)

-- What `decodePropertyValue` returns, if it returns a value, lies in the range of the Go type that
-- it is returned as, for all bytes, and it never panics.
decode_property_value-IsTyped :
    (bytes : List ℕ) → All IsByte bytes → Ensures (decode_property_value bytes) IsTyped
unfolding decode_property_value payload_of slice
decode_property_value-IsTyped bytes h =
    grind (arith, decode_tag_number-IsHeader, decode_payload-IsTyped, slice-bytes)
