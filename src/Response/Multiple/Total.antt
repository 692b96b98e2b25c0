-- ===== src/Response/Multiple/Total.antt =====
-- `decodeReadPropertyMultipleResponse` on any bytes.
use bacnet_go.Base.{
  ℕ, zero, suc, ◌+◌, ◌≤◌, ◌<◌, List, [], Option, none, some, length, length-drop, length-take, drop,
  arith,
}
use bacnet_go.Go.{◌>>=◌, Succeeds->>=, Succeeds, Any, slice_from, slice, uint32}
use bacnet_go.Types.ObjectId.{ObjectIdentifier}
use bacnet_go.Value.Total.{decode_property_value-Any}
use bacnet_go.Wire.Tag.Total.{decode_tag_number-IsHeader}
use bacnet_go.Response.Fields.{optional_field}
use bacnet_go.Response.Skip.Total.{skip_to_context_closing_tag-Reaches}
use bacnet_go.Response.Multiple.{
  PropertyValue, Turn, leaves, stays, content_turn, index_field, property_turn, property_loop,
  object_head, object_loop, decode_read_property_multiple_response,
}

abbrev TurnFits : List ℕ → ℕ → Turn → Type 0
TurnFits bytes offset (leaves end) = (offset ≤ end) × (end ≤ length bytes)
TurnFits bytes offset (stays next new) = (offset < next) × (next ≤ length bytes)

content_turn-TurnFits :
    (bytes : List ℕ) (oid : ObjectIdentifier) (property_id : ℕ) (array_index : Option ℕ)
    (offset : ℕ)
    → offset ≤ length bytes
    → Succeeds (content_turn bytes oid property_id array_index offset) (TurnFits bytes offset)
unfolding content_turn slice_from
content_turn-TurnFits bytes oid property_id array_index offset h = ground (
  arith,
  length-drop offset bytes,
  decode_tag_number-IsHeader (drop offset bytes),
  decode_property_value-Any (drop (offset + 1) bytes),
  skip_to_context_closing_tag-Reaches bytes (offset + 1) 4,
  skip_to_context_closing_tag-Reaches bytes (offset + 1) 5,
)

index_field-fits :
    (bytes : List ℕ) (offset : ℕ)
    → offset ≤ length bytes
    → Succeeds
        (index_field bytes offset)
        (λ (array_index, next). (offset ≤ next) × (next ≤ length bytes))
unfolding index_field slice optional_field slice_from
index_field-fits bytes offset h =
    ground (arith, length-drop offset bytes, decode_tag_number-IsHeader (drop offset bytes))

property_turn-TurnFits :
    (bytes : List ℕ) (oid : ObjectIdentifier) (offset : ℕ)
    → offset < length bytes
    → Succeeds (property_turn bytes oid offset) (TurnFits bytes offset)
unfolding property_turn slice slice_from
property_turn-TurnFits bytes oid offset h = grind (
  arith,
  length-drop offset bytes,
  decode_tag_number-IsHeader (drop offset bytes),
  index_field-fits,
  content_turn-TurnFits,
)

property_loop-fits :
    (fuel : ℕ) (bytes : List ℕ) (oid : ObjectIdentifier) (offset : ℕ) (results : List PropertyValue)
    → offset ≤ length bytes
    → length bytes ≤ offset + fuel
    → Succeeds
        (property_loop fuel bytes oid offset results)
        (λ (next, results'). (offset ≤ next) × (next ≤ length bytes))
unfolding property_loop
property_loop-fits zero bytes oid offset results h f = ground arith
property_loop-fits (suc fuel) bytes oid offset results h f = grind (
  arith,
  property_turn-TurnFits bytes oid offset,
  λ (next : ℕ) (results' : List PropertyValue). property_loop-fits fuel bytes oid next results',
)

abbrev HeadFits : List ℕ → ℕ → Option (ObjectIdentifier × ℕ) → Type 0
HeadFits bytes offset none = Unit {0}
HeadFits bytes offset (some (oid, start)) = (offset < start) × (start ≤ length bytes)

object_head-HeadFits :
    (bytes : List ℕ) (offset : ℕ)
    → offset < length bytes
    → Succeeds (object_head bytes offset) (HeadFits bytes offset)
unfolding object_head slice slice_from uint32
object_head-HeadFits bytes offset h =
    grind (arith, length-drop, length-take, decode_tag_number-IsHeader)

object_body-fits :
    (fuel : ℕ) (bytes : List ℕ) (oid : ObjectIdentifier) (offset start : ℕ)
    (results : List PropertyValue)
    → ((next : ℕ) (results' : List PropertyValue)
        → next ≤ length bytes
        → length bytes ≤ next + fuel
        → Succeeds (object_loop fuel bytes next results') Any)
    → offset < start
    → start ≤ length bytes
    → length bytes ≤ offset + suc fuel
    → Succeeds
        (property_loop (length bytes) bytes oid start results >>= λ (next, results').
          object_loop fuel bytes next results')
        Any
object_body-fits fuel bytes oid offset start results rest lo hi f =
    Succeeds->>= (property_loop (length bytes) bytes oid start results) _ _ Any
      (property_loop-fits (length bytes) bytes oid start results hi (omega arith))
      (λ r fit. rest r.0 r.1 (omega arith) (omega arith))

object_loop-fits :
    (fuel : ℕ) (bytes : List ℕ) (offset : ℕ) (results : List PropertyValue)
    → offset ≤ length bytes
    → length bytes ≤ offset + fuel
    → Succeeds (object_loop fuel bytes offset results) Any
unfolding object_loop
object_loop-fits zero bytes offset results h f = ground arith
object_loop-fits (suc fuel) bytes offset results h f = grind (
  arith,
  object_head-HeadFits bytes offset,
  λ (oid : ObjectIdentifier) (start : ℕ).
      object_body-fits fuel bytes oid offset start results
        (λ next results'. object_loop-fits fuel bytes next results'),
)

-- For all bytes whatsoever `decodeReadPropertyMultipleResponse` returns a list of results: its loops
-- end, it does not panic, and it never reports an error.
pub decode_read_property_multiple_response-Any :
    (bytes : List ℕ) → Succeeds (decode_read_property_multiple_response bytes) Any
unfolding decode_read_property_multiple_response
decode_read_property_multiple_response-Any bytes =
    object_loop-fits (length bytes) bytes 0 [] (omega arith) (omega arith)
