-- ===== src/Tests/Response.antt =====
-- The response decoders at concrete inputs.
use bacnet_go.Base.{ℕ, true, ◌≡◌, none, some, List, [], ◌∷◌, ◌++◌, All, arith}
use bacnet_go.Go.{Succeeds, Any, ok}
use bacnet_go.Response.Acknowledgement.{
  Entry, ObjectResult, value, access_error, read_property_ack, multiple_ack, expected,
}
use bacnet_go.Wire.Number.{encode_boolean_tag}
use bacnet_go.Wire.Tag.{encode_closing_tag}
use bacnet_go.Response.Position.{At-start}
use bacnet_go.Response.Skip.RoundTrip.{skip_round-boolean_true}
use bacnet_go.Response.Multiple.{decode_read_property_multiple_response}
use bacnet_go.Response.Multiple.RoundTrip.{
  IsObjectResult, decode_read_property_multiple_response-ack,
}
use bacnet_go.Response.Multiple.Total.{decode_read_property_multiple_response-Any}
use bacnet_go.Response.ReadProperty.{decode_read_property_response}
use bacnet_go.Response.ReadProperty.RoundTrip.{decode_read_property_response-ack}
use bacnet_go.Response.Skip.{goes_on, skip_round}
use bacnet_go.Types.ObjectId.{new_object_identifier}
use bacnet_go.Value.{unsigned, text, encode_property_value}
use bacnet_go.Value.RoundTrip.{read_back}

-- One object with a value, an access error and an element of an array.
abbrev entries : List Entry
entries =
    record { property_id = 85; array_index = none; outcome = value (unsigned 300) }
    ∷ record { property_id = 4000; array_index = none; outcome = access_error 2 32 }
    ∷ record { property_id = 76; array_index = some 1; outcome = value (text (65 ∷ [])) }
    ∷ []

abbrev results : List ObjectResult
results = record { object_id = new_object_identifier 8 5; entries = entries } ∷ []

results-IsObjectResult : All IsObjectResult results
results-IsObjectResult = (
  (
    (omega arith, omega arith),
    (
      record { property = omega arith; index = tt; outcome = omega arith },
      (
        record { property = omega arith; index = tt; outcome = (omega arith, omega arith) },
        (record { property = omega arith; index = omega arith; outcome = omega arith }, tt),
      ),
    ),
  ),
  tt,
)

decode_read_property_multiple_response-ack_example :
    decode_read_property_multiple_response (multiple_ack results) ≡ ok (expected results)
decode_read_property_multiple_response-ack_example =
    decode_read_property_multiple_response-ack results results-IsObjectResult

decode_read_property_multiple_response-Any_example :
    Succeeds (decode_read_property_multiple_response (0x0C ∷ 2 ∷ 0 ∷ 0 ∷ 5 ∷ 0x1E ∷ 0x29 ∷ [])) Any
decode_read_property_multiple_response-Any_example =
    decode_read_property_multiple_response-Any (0x0C ∷ 2 ∷ 0 ∷ 0 ∷ 5 ∷ 0x1E ∷ 0x29 ∷ [])

decode_read_property_response-ack_example :
    (bytes : List ℕ) × (encode_property_value (unsigned 300) ≡ ok bytes)
    × (decode_read_property_response
          (read_property_ack (new_object_identifier 8 5) 85 (some 2) bytes)
        ≡ ok (read_back (unsigned 300)))
decode_read_property_response-ack_example =
    decode_read_property_response-ack (new_object_identifier 8 5) 85 (some 2) (unsigned 300)
      (omega arith) (omega arith) (omega arith)

skip_round-boolean_true_example :
    skip_round (encode_boolean_tag true ++ (encode_closing_tag 4 ++ (0x1F ∷ []))) 0 4
    ≡ ok (goes_on 2)
skip_round-boolean_true_example =
    skip_round-boolean_true (0x1F ∷ [])
      (At-start (encode_boolean_tag true ++ (encode_closing_tag 4 ++ (0x1F ∷ []))))
