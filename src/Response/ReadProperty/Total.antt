-- ===== src/Response/ReadProperty/Total.antt =====
-- `decodeReadPropertyResponse` on any bytes.
use bacnet_go.Base.{ℕ, List, length-drop, drop, arith}
use bacnet_go.Go.{Ensures, Any, slice_from}
use bacnet_go.Value.Total.{decode_property_value-Any}
use bacnet_go.Wire.Tag.Total.{decode_tag_number-IsHeader}
use bacnet_go.Response.Fields.Total.{Within, required_field-Within, optional_field-InBounds}
use bacnet_go.Response.ReadProperty.{opening_field, decode_read_property_response}

opening_field-Within :
    (bytes : List ℕ) (number offset : ℕ)
    → Ensures (opening_field bytes number offset) (Within bytes offset)
unfolding opening_field slice_from
opening_field-Within bytes number offset =
    ground (arith, length-drop offset bytes, decode_tag_number-IsHeader (drop offset bytes))

-- `decodeReadPropertyResponse` does not panic on any bytes.
decode_read_property_response-Any :
    (bytes : List ℕ) → Ensures (decode_read_property_response bytes) Any
unfolding decode_read_property_response slice_from
decode_read_property_response-Any bytes = grind (
  arith, required_field-Within, optional_field-InBounds, opening_field-Within,
  decode_property_value-Any,
)
