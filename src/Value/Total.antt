-- ===== src/Value/Total.antt =====
-- `decodePropertyValue` on any bytes.
use bacnet_go.Base.{ℕ, List, arith}
use bacnet_go.Go.{Ensures, Any, index, slice, uint32}
use bacnet_go.BitString.Laws.{decode_bit_string-IsBitString}
use bacnet_go.DateTime.{decode_date, decode_time}
use bacnet_go.Wire.Tag.Total.{decode_tag_number-IsHeader}
use bacnet_go.Value.{decode_payload, payload_of, decode_property_value}

decode_payload-Any : (number : ℕ) (bytes : List ℕ) → Ensures (decode_payload number bytes) Any
unfolding decode_payload decode_date decode_time uint32 index
decode_payload-Any number bytes = ground (arith, decode_bit_string-IsBitString bytes)

-- `decodePropertyValue` does not panic on any bytes.
pub decode_property_value-Any : (bytes : List ℕ) → Ensures (decode_property_value bytes) Any
unfolding decode_property_value payload_of slice
decode_property_value-Any bytes = grind (arith, decode_tag_number-IsHeader, decode_payload-Any)
