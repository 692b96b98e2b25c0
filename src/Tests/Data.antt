-- ===== src/Tests/Data.antt =====
-- Object identifiers, bit strings, dates and values at concrete inputs.
use bacnet_go.Base.{ℕ, ◌≡◌, true, false, List, [], ◌∷◌, ◌++◌, get_or, arith}
use bacnet_go.Base.Int.{pos, negsuc}
use bacnet_go.BitString.{BitString, len, bit, new_bit_string_from_bits}
use bacnet_go.BitString.FromBits.{new_bit_string_from_bits-bit}
use bacnet_go.BitString.Laws.{IsBitString}
use bacnet_go.DateTime.{Date, decode_date, encode_date}
use bacnet_go.DateTime.Laws.{decode_date-encode_date_wraps}
use bacnet_go.Go.{ok}
use bacnet_go.Value.{signed, encode_property_value, decode_property_value}
use bacnet_go.Value.Reads.{Decoded, decode_property_value-Decoded}
use bacnet_go.Wire.Number.{application_tagged}
use bacnet_go.Value.RoundTrip.{read_back, decode_property_value-encode_property_value}

new_bit_string_from_bits-bit_example :
    (b : BitString) × (new_bit_string_from_bits (true ∷ false ∷ true ∷ []) ≡ ok b)
    × IsBitString b
    × (len b ≡ pos 3)
    × ((j : ℕ) → bit b (pos j) ≡ ok (get_or (true ∷ false ∷ true ∷ []) j false))
new_bit_string_from_bits-bit_example = new_bit_string_from_bits-bit (true ∷ false ∷ true ∷ [])

abbrev leap_day : Date
leap_day = record { year = 2024; month = 2; day = 29; day_of_week = 4 }

-- The year behind the last that the octet can hold reads as the wildcard.
decode_date-encode_date_wraps_example :
    decode_date (encode_date (record leap_day { year = 2155 }))
    ≡ ok (record leap_day { year = 0xFFFF })
decode_date-encode_date_wraps_example =
    decode_date-encode_date_wraps (record leap_day { year = 2155 }) (omega arith)

decode_property_value-encode_property_value_example :
    (bytes : List ℕ) × (encode_property_value (signed (negsuc 99)) ≡ ok bytes)
    × (decode_property_value (bytes ++ (0x3F ∷ [])) ≡ ok (read_back (signed (negsuc 99))))
decode_property_value-encode_property_value_example =
    decode_property_value-encode_property_value (signed (negsuc 99)) (0x3F ∷ []) (omega arith)

-- An int32 of two bytes with its sign bit set: -253.
decode_property_value-Decoded_example :
    Decoded 3
      (0xFF ∷ 3 ∷ [])
      (decode_property_value (application_tagged 3 (0xFF ∷ 3 ∷ []) ++ (0x3F ∷ [])))
decode_property_value-Decoded_example =
    decode_property_value-Decoded 3 (0xFF ∷ 3 ∷ []) (0x3F ∷ []) (omega arith) (omega arith)
      (omega arith) (omega arith, (omega arith, tt))
