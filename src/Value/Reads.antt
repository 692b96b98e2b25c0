-- ===== src/Value/Reads.antt =====
-- What `decodePropertyValue` makes of a payload, against the values that the bytes stand for.
use bacnet_go.Base.{
  ℕ, ◌+◌, ◌-◌, ◌*◌, ◌/◌, ◌^◌, ◌≤◌, ◌<◌, ◌≡◌, ◌≢◌, ◌⊎◌, ltb, ◌==◌, if◌then◌else◌, List, ◌++◌, [],
  ◌∷◌, All, length, map, arith,
}
use bacnet_go.Base.Bits.{bit_and_low, bit_and_bit, bit_or_sum_right}
use bacnet_go.Base.Int.{ℤ, pos, negsuc}
use bacnet_go.BitString.{BitString, decode_bit_string}
use bacnet_go.BitString.Laws.{IsBitString}
use bacnet_go.DateTime.{decode_date, decode_time}
use bacnet_go.Errors.{sentinel, invalid_response}
use bacnet_go.Go.{Result, ok, err, panic, IsByte, index, slice_from, uint32}
use bacnet_go.Text.{decode_character_string}
use bacnet_go.Types.ObjectId.{IsIdentifier, decode_object_identifier}
use bacnet_go.Value.{
  Value, null, boolean, unsigned, signed, int, real, double, octets, text, bit_string, date, time,
  object_id, decode_payload, decode_property_value,
}
use bacnet_go.Value.RoundTrip.{decode_property_value-application_tagged}
use bacnet_go.Wire.ApplicationTag
use bacnet_go.Wire.Number.{
  application_tagged, decode_unsigned, decode_signed, decode_real, decode_double,
}
use bacnet_go.Wire.Number.RoundTrip.{three_bytes_sum}

-- The number that bytes stand for, the most significant first, behind those that were read.
abbrev value_from : ℕ → List ℕ → ℕ
value_from n [] = n
value_from n (b ∷ bytes) = value_from (n * 256 + b) bytes

abbrev value_of : List ℕ → ℕ
value_of bytes = value_from 0 bytes

-- A number of one to four bytes; any other payload is read as 0.
abbrev unsigned_value : List ℕ → ℕ
unsigned_value bytes = if ltb 4 (length bytes) then 0 else value_of bytes

abbrev inverted : List ℕ → List ℕ
inverted bytes = map (λ b. 255 - b) bytes

-- Two's complement: a number with the sign bit set is -(n + 1), where n has the inverted bits.
abbrev twos_complement : List ℕ → ℤ
twos_complement [] = pos 0
twos_complement (b ∷ bytes) =
    if ltb b 128 then pos (value_of (b ∷ bytes)) else negsuc (value_of (inverted (b ∷ bytes)))

abbrev signed_value : List ℕ → ℤ
signed_value bytes = if ltb 4 (length bytes) then pos 0 else twos_complement bytes

decode_unsigned-value :
    (bytes : List ℕ) → All IsByte bytes → decode_unsigned bytes ≡ unsigned_value bytes
unfolding decode_unsigned
decode_unsigned-value [] h = ground arith
decode_unsigned-value (a ∷ []) h = ground arith
decode_unsigned-value (a ∷ b ∷ []) h = ground arith
decode_unsigned-value (a ∷ b ∷ c ∷ []) h = ground (arith, three_bytes_sum a b c)
decode_unsigned-value (a ∷ b ∷ c ∷ d ∷ []) h = ground arith
decode_unsigned-value (a ∷ b ∷ c ∷ d ∷ e ∷ bytes) h = ground arith

decode_signed-value : (bytes : List ℕ) → All IsByte bytes → decode_signed bytes ≡ signed_value bytes
unfolding decode_signed
decode_signed-value [] h = ground arith
decode_signed-value (a ∷ []) h = ground arith
decode_signed-value (a ∷ b ∷ []) h = ground arith
decode_signed-value (a ∷ b ∷ c ∷ []) h = ground (
  arith,
  three_bytes_sum a b c,
  bit_and_bit 7 a,
  bit_or_sum_right 24 255 (a * 2 ^ 16 + b * 2 ^ 8 + c),
)
decode_signed-value (a ∷ b ∷ c ∷ d ∷ []) h = ground arith
decode_signed-value (a ∷ b ∷ c ∷ d ∷ e ∷ bytes) h = ground arith

decode_real-value : (bytes : List ℕ) → length bytes ≡ 4 → decode_real bytes ≡ value_of bytes
unfolding decode_real
decode_real-value [] h = ground arith
decode_real-value (a ∷ []) h = ground arith
decode_real-value (a ∷ b ∷ []) h = ground arith
decode_real-value (a ∷ b ∷ c ∷ []) h = ground arith
decode_real-value (a ∷ b ∷ c ∷ d ∷ []) h = ground arith
decode_real-value (a ∷ b ∷ c ∷ d ∷ e ∷ bytes) h = absurd (omega arith)

decode_double-value : (bytes : List ℕ) → length bytes ≡ 8 → decode_double bytes ≡ value_of bytes
unfolding decode_double
decode_double-value [] h = ground arith
decode_double-value (a ∷ []) h = ground arith
decode_double-value (a ∷ b ∷ []) h = ground arith
decode_double-value (a ∷ b ∷ c ∷ []) h = ground arith
decode_double-value (a ∷ b ∷ c ∷ d ∷ []) h = ground arith
decode_double-value (a ∷ b ∷ c ∷ d ∷ e ∷ []) h = ground arith
decode_double-value (a ∷ b ∷ c ∷ d ∷ e ∷ f ∷ []) h = ground arith
decode_double-value (a ∷ b ∷ c ∷ d ∷ e ∷ f ∷ g ∷ []) h = ground arith
decode_double-value (a ∷ b ∷ c ∷ d ∷ e ∷ f ∷ g ∷ x ∷ []) h = ground arith
decode_double-value (a ∷ b ∷ c ∷ d ∷ e ∷ f ∷ g ∷ x ∷ y ∷ bytes) h = absurd (omega arith)

-- The two fields of an object identifier, side by side.
decode_object_identifier-value :
    (v : ℕ)
    → v < 2 ^ 32
    → let o = decode_object_identifier v in
      IsIdentifier o × (v ≡ o.type * 2 ^ 22 + o.instance_number)
unfolding decode_object_identifier
decode_object_identifier-value v h = ground (arith, bit_and_low 10 (v / 2 ^ 22), bit_and_low 22 v)

-- The value that a payload stands for under an application tag: the numbers by their bytes, text by
-- its character set, dates, times and bit strings by the octets of their fields, and all that has
-- no meaning of its own as it stands.
abbrev pub Reads : ℕ → List ℕ → Value → Type 0
Reads number bytes null = ⊥
Reads number bytes (boolean b) = ⊥
Reads number bytes (int v) = ⊥
Reads number bytes (unsigned n) =
    ((number ≡ ApplicationTag.unsigned_int) ⊎ (number ≡ ApplicationTag.enumerated))
    × (n ≡ unsigned_value bytes)
Reads number bytes (signed v) = (number ≡ ApplicationTag.signed_int) × (v ≡ signed_value bytes)
Reads number bytes (real bits) =
    (number ≡ ApplicationTag.real) × (length bytes ≡ 4) × (bits ≡ value_of bytes)
Reads number bytes (double bits) =
    (number ≡ ApplicationTag.double) × (length bytes ≡ 8) × (bits ≡ value_of bytes)
Reads number bytes (octets out) =
    ((number < 2) ⊎ (number ≡ ApplicationTag.octet_string) ⊎ (12 < number)) × (out ≡ bytes)
Reads number bytes (text s) =
    (number ≡ ApplicationTag.character_string) × (s ≡ decode_character_string bytes)
Reads number bytes (bit_string b) =
    (number ≡ ApplicationTag.bit_string) × IsBitString b × (bytes ≡ b.unused_bits ∷ b.bytes)
Reads number bytes (date d) =
    (number ≡ ApplicationTag.date)
    × ((d.year ≡ 0xFFFF) ⊎ ((1900 ≤ d.year) × (d.year < 2155)))
    × (bytes
        ≡ (if d.year == 0xFFFF then 0xFF else d.year - 1900) ∷ d.month ∷ d.day ∷ d.day_of_week ∷ [])
Reads number bytes (time t) =
    (number ≡ ApplicationTag.time) × (bytes ≡ t.hour ∷ t.minute ∷ t.second ∷ t.hundredths ∷ [])
Reads number bytes (object_id o) =
    (number ≡ ApplicationTag.object_id)
    × (length bytes ≡ 4)
    × IsIdentifier o
    × (value_of bytes ≡ o.type * 2 ^ 22 + o.instance_number)

-- The payloads that the decoder turns down: those of the wrong length, and bit strings that count
-- unused bits they cannot have.
abbrev IsMalformed : ℕ → List ℕ → Type 0
IsMalformed number bytes =
    (((number ≡ ApplicationTag.real)
        ⊎ (number ≡ ApplicationTag.date)
        ⊎ (number ≡ ApplicationTag.time)
        ⊎ (number ≡ ApplicationTag.object_id))
      × (length bytes ≢ 4))
    ⊎ ((number ≡ ApplicationTag.double) × (length bytes ≢ 8))
    ⊎ ((number ≡ ApplicationTag.bit_string)
        × ((b : BitString) → IsBitString b → bytes ≢ b.unused_bits ∷ b.bytes))

abbrev pub Decoded : ℕ → List ℕ → Result Value → Type 0
Decoded number bytes (ok v) = Reads number bytes v
Decoded number bytes (err e) = (e ≡ sentinel invalid_response) × IsMalformed number bytes
Decoded number bytes panic = ⊥

four_bytes :
    (number : ℕ) (bytes : List ℕ)
    → All IsByte bytes
    → length bytes ≡ 4
    → (number ≡ ApplicationTag.date)
      ⊎ (number ≡ ApplicationTag.time)
      ⊎ (number ≡ ApplicationTag.object_id)
    → Decoded number bytes (decode_payload number bytes)
unfolding decode_payload decode_date decode_time index uint32
four_bytes number [] all h e = absurd (omega arith)
four_bytes number (a ∷ []) all h e = absurd (omega arith)
four_bytes number (a ∷ b ∷ []) all h e = absurd (omega arith)
four_bytes number (a ∷ b ∷ c ∷ []) all h e = absurd (omega arith)
four_bytes number (a ∷ b ∷ c ∷ d ∷ e ∷ bytes) all h k = absurd (omega arith)
four_bytes number (a ∷ b ∷ c ∷ d ∷ []) all h e =
    ground (arith, decode_object_identifier-value (a * 2 ^ 24 + b * 2 ^ 16 + c * 2 ^ 8 + d))

bits_read :
    (number : ℕ) (bytes : List ℕ)
    → number ≡ ApplicationTag.bit_string
    → Decoded number bytes (decode_payload number bytes)
unfolding decode_payload decode_bit_string index slice_from
bits_read number [] e = ground arith
bits_read number (unused ∷ []) e = ground arith
bits_read number (unused ∷ x ∷ bytes) e = ground arith

decode_payload-Decoded :
    (number : ℕ) (bytes : List ℕ)
    → All IsByte bytes
    → Decoded number bytes (decode_payload number bytes)
unfolding decode_payload
decode_payload-Decoded number bytes h = ground (
  arith,
  four_bytes number bytes h,
  bits_read number bytes,
  decode_unsigned-value bytes h,
  decode_signed-value bytes h,
  decode_real-value bytes,
  decode_double-value bytes,
)

-- `decodePropertyValue` on a payload of less than 2^32 bytes behind an application tag, of a number
-- from 2 to 14, with anything behind it: it never panics. What it returns is the value that the
-- payload stands for: a number by all its bytes, an int32 in two's complement, a date or a time
-- field by field, a bit string, octets and a payload under a reserved number as they stand, and
-- text as `DecodeCharacterString` reads it; but an Unsigned, an Enumerated or a Signed of no bytes,
-- or of more than four, is 0. It fails with `ErrInvalidResponse`, and only so, on a real, a double,
-- a date, a time or an object identifier of the wrong length, and on a bit string that has no count
-- of unused bits or one that its octets cannot have.
pub decode_property_value-Decoded :
    (number : ℕ) (bytes rest : List ℕ)
    → 2 ≤ number
    → number < 15
    → length bytes < 2 ^ 32
    → All IsByte bytes
    → Decoded number bytes (decode_property_value (application_tagged number bytes ++ rest))
decode_property_value-Decoded number bytes rest hl hn hs h =
    rw (decode_property_value-application_tagged number bytes rest hl hn hs)
      (decode_payload-Decoded number bytes h)
