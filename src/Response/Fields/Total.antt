-- ===== src/Response/Fields/Total.antt =====
-- The field readers on any bytes.
use bacnet_go.Base.{ℕ, ◌≤◌, ◌<◌, List, length, length-drop, drop, arith}
use bacnet_go.Go.{Ensures, Any, slice_from, slice}
use bacnet_go.Wire.Tag.Total.{decode_tag_number-IsHeader}
use bacnet_go.Response.Fields.{
  Field, absent, present, read_unsigned_tag, decode_error, required_field, optional_field,
}

-- The offset moves forward, and not past the end.
abbrev pub Within : List ℕ → ℕ → ℕ → Type 0
Within bytes offset end = (offset < end) × (end ≤ length bytes)

abbrev AfterValue : List ℕ → ℕ → ℕ × ℕ → Type 0
AfterValue bytes offset (value, end) = Within bytes offset end

-- `readUnsignedTag` does not panic, and ends behind the offset and within the bytes.
pub read_unsigned_tag-Within :
    (bytes : List ℕ) (offset : ℕ)
    → Ensures (read_unsigned_tag bytes offset) (AfterValue bytes offset)
unfolding read_unsigned_tag slice_from slice
read_unsigned_tag-Within bytes offset =
    ground (arith, length-drop offset bytes, decode_tag_number-IsHeader (drop offset bytes))

-- `decodeError` does not panic on any bytes.
pub decode_error-Any : (bytes : List ℕ) → Ensures (decode_error bytes) Any
unfolding decode_error
decode_error-Any bytes = grind (arith, read_unsigned_tag-Within)

pub required_field-Within :
    (bytes : List ℕ) (number offset : ℕ)
    → offset ≤ length bytes
    → Ensures (required_field bytes number offset) (Within bytes offset)
unfolding required_field slice_from
required_field-Within bytes number offset h =
    ground (arith, length-drop offset bytes, decode_tag_number-IsHeader (drop offset bytes))

abbrev InBounds : List ℕ → ℕ → Field → Type 0
InBounds bytes offset absent = Unit {0}
InBounds bytes offset (present start end) = (offset < start) × (start ≤ end) × (end ≤ length bytes)

pub optional_field-InBounds :
    (bytes : List ℕ) (number offset : ℕ)
    → Ensures (optional_field bytes number offset) (InBounds bytes offset)
unfolding optional_field slice_from
optional_field-InBounds bytes number offset =
    ground (arith, length-drop offset bytes, decode_tag_number-IsHeader (drop offset bytes))
